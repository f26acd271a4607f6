-- ===== src/Youbot/Arm/Limits.antt =====
-- The slow-down of a joint near its limits (`scale_down_cmd_val`). `jntpos` is the measured position;
-- `lt` is the order of doubles, a parameter like their arithmetic.
use collision_avoidance.Base.{
  ℕ, ◌≡◌, Bool, true, false, ◌&&◌, ◌||◌, ◌==◌, if◌then◌else◌, ◌⊎◌, arith,
}
use collision_avoidance.Base.Int.{ℤ, pos, ltb_ℤ}
use collision_avoidance.Youbot.{cmode_positioning}
use collision_avoidance.Youbot.Odometry.{Floats}

module _ {D S : Type 0} (fl : Floats D S) (lt : D → D → Bool) where
  -- `YOUBOT_ARM_SCALE_START` and `YOUBOT_ARM_SCALE_END` of a limit, in radians.
  scaled_limit : D → D → D
  scaled_limit limit part =
      fl.mul (fl.mul limit part) (fl.div (fl.lit "M_PI") (fl.of_int (pos 180)))

  scale_cmd : ℤ → D → D → D → ℤ
  scale_cmd cmd_val start end jntpos =
      fl.to_int (fl.mul (fl.of_int cmd_val) (fl.div (fl.sub end jntpos) (fl.sub end start)))

  unfoldable pub scale_down_cmd_val : D → D → Bool → ℕ → D → ℤ → ℤ
  unfolding scaled_limit scale_cmd
  scale_down_cmd_val upper lower jntlim_safety_disabled control_mode jntpos cmd_val =
      let upper_start = scaled_limit upper (fl.lit "0.8") in
      let upper_end = scaled_limit upper (fl.lit "0.85") in
      let lower_start = scaled_limit lower (fl.lit "0.8") in
      let lower_end = scaled_limit lower (fl.lit "0.85") in
      if jntlim_safety_disabled || (control_mode == cmode_positioning)
      then cmd_val
      else if lt jntpos upper_start && lt lower_start jntpos
      then cmd_val
      else if lt upper_start jntpos && ltb_ℤ (pos 0) cmd_val
      then scale_cmd cmd_val upper_start upper_end jntpos
      else if lt jntpos lower_start && ltb_ℤ cmd_val (pos 0)
      then scale_cmd cmd_val lower_start lower_end jntpos
      else cmd_val

  -- A command is changed only where the limits are guarded and the joint moves towards one of them
  -- from beyond its start; it is multiplied then by what is left of the way to the end.
  scale_down_cmd_val_lem :
      (upper lower : D)
      → (disabled : Bool) → (mode : ℕ) → (jntpos : D) → (cmd_val : ℤ)
      → (scale_down_cmd_val upper lower disabled mode jntpos cmd_val ≡ cmd_val)
        ⊎ ((disabled ≡ false)
            × (lt (scaled_limit upper (fl.lit "0.8")) jntpos && ltb_ℤ (pos 0) cmd_val ≡ true)
            × (scale_down_cmd_val upper lower disabled mode jntpos cmd_val
                ≡ scale_cmd cmd_val
                    (scaled_limit upper (fl.lit "0.8"))
                    (scaled_limit upper (fl.lit "0.85"))
                    jntpos))
        ⊎ ((disabled ≡ false)
            × (lt jntpos (scaled_limit lower (fl.lit "0.8")) && ltb_ℤ cmd_val (pos 0) ≡ true)
            × (scale_down_cmd_val upper lower disabled mode jntpos cmd_val
                ≡ scale_cmd cmd_val
                    (scaled_limit lower (fl.lit "0.8"))
                    (scaled_limit lower (fl.lit "0.85"))
                    jntpos))
  unfolding scale_down_cmd_val
  scale_down_cmd_val_lem upper lower disabled mode jntpos cmd_val = ground arith
