-- ===== src/Youbot/Start.antt =====
-- The start of the base and of an arm (`base_prepare_start`, `arm_prepare_start`) and the gripper
-- (`control_gripper`). `dummy` has the bytes of a variable before it is read; what one message leaves
-- in it is what the next one sends.
pub mod Stopped
use collision_avoidance.Base.{ℕ, ◌%◌, ◌^◌, Bool, true, false, List, [], ◌∷◌, map}
use collision_avoidance.Base.Int.{ℤ, pos}
use collision_avoidance.Types.{ok, failed, is_ok}
use collision_avoidance.Comm.{to_u32}
use collision_avoidance.Youbot.{MotorInfo}
use collision_avoidance.Youbot.Flags.{clr_ec_timeout}
use collision_avoidance.Youbot.Mailbox.{Master, send_mbx, sap, gap}

abbrev pub mvp : ℕ
mvp = 4

abbrev pub max_current : ℕ
max_current = 6

abbrev pub without_command : MotorInfo → MotorInfo
without_command w = record w { cmd_val = pos 0 }

module _ {Wire : Type 0} (master : Master Wire) where
  -- "reset EC_TIMEOUT": returns 0, or -1 at the first motor that does not answer.
  pub clear_timeouts : List MotorInfo → ℤ → Wire → ℤ × Wire
  unfolding send_mbx
  clear_timeouts [] dummy w = (ok, w)
  clear_timeouts (x ∷ xs) dummy w =
      let r = send_mbx master false sap clr_ec_timeout (x.slave_idx % 2 ^ 16) 0 dummy w in
      let rest = clear_timeouts xs r.1 r.2 in
      elim (is_ok r.0) [ false ↦ (failed, r.2) | true ↦ rest ]

  -- Returns whether all motors have answered, the motors, `dummy` and the bus.
  pub limit_currents : List MotorInfo → ℤ → Wire → Bool × List MotorInfo × ℤ × Wire
  unfolding send_mbx
  limit_currents [] dummy w = (true, [], dummy, w)
  limit_currents (x ∷ xs) dummy w =
      let r = send_mbx master false gap max_current (x.slave_idx % 2 ^ 16) 0 dummy w in
      let rest = limit_currents xs r.1 r.2 in
      elim (is_ok r.0) [
        | false ↦ (false, x ∷ xs, r.1, r.2)
        | true ↦ (rest.0, record x { max_cur = to_u32 r.1 } ∷ rest.1, rest.2, rest.3)
      ]

  pub base_prepare_start : List MotorInfo → ℤ → Wire → ℤ × List MotorInfo × Wire
  unfolding clear_timeouts
  base_prepare_start wheels dummy w =
      let still = map without_command wheels in
      let r = clear_timeouts still dummy w in (r.0, still, r.1)

  pub arm_prepare_start : List MotorInfo → ℤ → Wire → ℤ × List MotorInfo × Wire
  unfolding clear_timeouts limit_currents
  arm_prepare_start joints dummy w =
      let limited = limit_currents (map without_command joints) dummy w in
      let r = clear_timeouts limited.1 limited.2 limited.3 in
      elim limited.0 [ false ↦ (failed, limited.1, limited.3) | true ↦ (r.0, limited.1, r.1) ]

  -- A finger that does not answer is only reported.
  pub control_gripper : ℤ → ℤ → Wire → ℤ × Wire
  unfolding send_mbx
  control_gripper pos1 pos2 w =
      let first = send_mbx master true mvp 1 11 0 pos1 w in
      let second = send_mbx master true mvp 1 11 1 pos2 first.2 in (ok, second.2)
