-- ===== src/Youbot/Flags/Counts.antt =====
-- When the error flags stop the motors, and what they leave.
use collision_avoidance.Base.{
  ℕ, ◌+◌, ◌^◌, Bool, false, not, ◌&&◌, ◌||◌, List, [], ◌∷◌, if◌then◌else◌,
}
use Prim.Native.Nat.{bit_or}
use collision_avoidance.Base.Int.{ℤ, pos}
use collision_avoidance.Types.{has_attr}
use collision_avoidance.Youbot.{MotorInfo}
use collision_avoidance.Youbot.Mailbox.{eq_ℤ}

-- I2T_EXCEEDED, bit 17, is set and was not before.
abbrev pub rising : MotorInfo → Bool
rising w = has_attr w.error_flags 131072 && not (not (eq_ℤ w.i2t_ex (pos 0)))

-- OVERCURRENT, UNDERVOLTAGE or OVERTEMP, the bits 0, 1 and 3.
unfoldable pub has_hard_error : ℕ → Bool
has_hard_error flags = has_attr flags 1 || has_attr flags 2 || has_attr flags 8

-- Whether the flags of a motor, and those of any of a list, stop all motors.
abbrev pub stopping : Bool → MotorInfo → Bool
stopping stops w = rising w || (stops && has_hard_error w.error_flags)

unfoldable pub any_stopping : Bool → List MotorInfo → Bool
any_stopping stops [] = false
any_stopping stops (w ∷ ws) = stopping stops w || any_stopping stops ws

-- The motors that are initialised after the flags of a list: the bit of each with MODULE_INIT,
-- bit 15, is set.
unfoldable pub marks : ℕ → List MotorInfo → ℕ → ℕ
marks i [] stat = stat
marks i (w ∷ ws) stat =
    marks (i + 1) ws (if has_attr w.error_flags 32768 then bit_or stat (2 ^ i) else stat)

-- What a motor is told and what was measured of it.
abbrev pub kept_of : MotorInfo → (ℕ × ℤ × ℤ × ℤ × ℤ)
kept_of w = (w.slave_idx, w.cmd_val, w.msr_pos, w.msr_vel, w.msr_cur)
