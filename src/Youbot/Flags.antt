-- ===== src/Youbot/Flags.antt =====
-- The error flags of the motors (`base_proc_errflg`, `arm_proc_errflg`). The two functions differ in
-- that the arm's stops on the hard errors; `stops` tells which. `dummy` is the variable that the
-- replies are written to.
pub mod Counts
use collision_avoidance.Base.{
  ℕ, zero, suc, ◌+◌, ◌%◌, ◌^◌, Bool, true, false, not, ◌&&◌, List, [], ◌∷◌, ltb, if◌then◌else◌,
}
use Prim.Native.Nat.{bit_or}
use collision_avoidance.Base.Int.{ℤ, pos, negsuc}
use collision_avoidance.Types.{has_attr, increment, is_ok}
use collision_avoidance.Youbot.{SlaveStats, MotorInfo, cmode_motorstop}
use collision_avoidance.Youbot.Mailbox.{Master, send_mbx, sap, eq_ℤ}

abbrev pub overcurrent_flag : ℕ
overcurrent_flag = 2 ^ 0

abbrev pub undervoltage_flag : ℕ
undervoltage_flag = 2 ^ 1

abbrev pub overtemp_flag : ℕ
overtemp_flag = 2 ^ 3

abbrev pub hall_err_flag : ℕ
hall_err_flag = 2 ^ 5

abbrev pub encoder_err_flag : ℕ
encoder_err_flag = 2 ^ 6

abbrev pub sine_comm_init_err_flag : ℕ
sine_comm_init_err_flag = 2 ^ 7

abbrev pub emergency_stop_flag : ℕ
emergency_stop_flag = 2 ^ 12

abbrev pub module_init_flag : ℕ
module_init_flag = 2 ^ 15

abbrev pub ec_timeout_flag : ℕ
ec_timeout_flag = 2 ^ 16

abbrev pub i2t_exceeded_flag : ℕ
i2t_exceeded_flag = 2 ^ 17

abbrev pub clear_i2t : ℕ
clear_i2t = 29

abbrev pub clr_ec_timeout : ℕ
clr_ec_timeout = 158

-- What the loop over the motors carries along: the mode and the initialised motors of the base or
-- the arm, the number of fatal errors, and the bus.
pub record Errors (Wire : Type 0) : Type 0 where
  pub control_mode : ℕ
  pub mod_init_stat : ℕ
  pub fatal_errs : ℕ
  pub dummy : ℤ
  pub wire : Wire

-- A counter of a flag.
abbrev pub bump : ℕ → ℕ → ℕ → ℕ
bump flags flag n = if has_attr flags flag then increment n else n

-- The counters of all flags but I2T_EXCEEDED.
pub count_flags : ℕ → SlaveStats → SlaveStats
count_flags flags s = record s {
  overcurrent = bump flags overcurrent_flag s.overcurrent;
  undervoltage = bump flags undervoltage_flag s.undervoltage;
  overtemp = bump flags overtemp_flag s.overtemp;
  hall_err = bump flags hall_err_flag s.hall_err;
  encoder_err = bump flags encoder_err_flag s.encoder_err;
  sine_comm_init_err = bump flags sine_comm_init_err_flag s.sine_comm_init_err;
  emergency_stop = bump flags emergency_stop_flag s.emergency_stop;
  ec_timeout = bump flags ec_timeout_flag s.ec_timeout;
}

abbrev pub one_if : Bool → ℕ
one_if true = 1
one_if false = 0

-- The number of OVERCURRENT, UNDERVOLTAGE and OVERTEMP.
pub hard_errors : ℕ → ℕ
hard_errors flags =
    one_if (has_attr flags overcurrent_flag)
    + one_if (has_attr flags undervoltage_flag)
    + one_if (has_attr flags overtemp_flag)

-- `mod_init_stat |= 1<<i`
abbrev pub mark_init : ℕ → ℕ → ℕ → ℕ
mark_init flags i stat = if has_attr flags module_init_flag then bit_or stat (2 ^ i) else stat

module _ {Wire : Type 0} (master : Master Wire) where
  -- An EC_TIMEOUT is cleared; it is fatal if that fails.
  clear_timeout : MotorInfo → Errors Wire → Errors Wire
  clear_timeout w e =
      if has_attr w.error_flags ec_timeout_flag
      then (let r =
            send_mbx master false sap clr_ec_timeout (w.slave_idx % 2 ^ 16) 0 e.dummy e.wire in
          record e {
            fatal_errs = if is_ok r.0 then e.fatal_errs else e.fatal_errs + 1;
            dummy = r.1;
            wire = r.2;
          })
      else e

  -- The edges of I2T_EXCEEDED, from whether it is set and whether it was: the rising one stops all
  -- motors.
  on_edge : Bool → Bool → MotorInfo → Errors Wire → MotorInfo × Errors Wire
  on_edge true false w e =
      let r = send_mbx master false sap clear_i2t (w.slave_idx % 2 ^ 16) 0 e.dummy e.wire in
      let counted = record w.stats { i2t_exceeded = increment w.stats.i2t_exceeded } in
      (
        record w { i2t_ex = pos 1; stats = counted },
        record e {
          control_mode = cmode_motorstop;
          fatal_errs = e.fatal_errs + 1;
          dummy = r.1;
          wire = r.2;
        },
      )
  on_edge false true w e = (record w { i2t_ex = pos 0 }, e)
  on_edge true true w e = (w, e)
  on_edge false false w e = (w, e)

  i2t_edge : MotorInfo → Errors Wire → MotorInfo × Errors Wire
  unfolding on_edge
  i2t_edge w e =
      on_edge (has_attr w.error_flags i2t_exceeded_flag) (not (eq_ℤ w.i2t_ex (pos 0))) w e

  pub proc_motor : Bool → ℕ → MotorInfo → Errors Wire → MotorInfo × Errors Wire
  unfolding count_flags hard_errors clear_timeout i2t_edge
  proc_motor stops i w e =
      let hard = hard_errors w.error_flags in
      let marked : Errors Wire = record e {
        control_mode = if stops && ltb 0 hard then cmode_motorstop else e.control_mode;
        fatal_errs = e.fatal_errs + hard;
        mod_init_stat = mark_init w.error_flags i e.mod_init_stat;
      } in
      let counted = record w { stats = count_flags w.error_flags w.stats } in
      i2t_edge counted (clear_timeout counted marked)

  -- The loop, from the motor `i` on.
  pub proc_motors : Bool → ℕ → List MotorInfo → Errors Wire → List MotorInfo × Errors Wire
  unfolding proc_motor
  proc_motors stops i [] e = ([], e)
  proc_motors stops i (w ∷ ws) e =
      let r = proc_motor stops i w e in
      let rest = proc_motors stops (i + 1) ws r.1 in (r.0 ∷ rest.0, rest.1)

  -- The whole of `base_proc_errflg`, or of `arm_proc_errflg`: the motors after it, and what the two
  -- functions leave, with the number that they return in `fatal_errs`.
  unfoldable pub proc_errflg :
      Bool → List MotorInfo → ℕ → ℕ → ℤ → Wire → List MotorInfo × Errors Wire
  unfolding proc_motors
  proc_errflg stops ws control_mode mod_init_stat dummy w = proc_motors stops 0 ws (record {
    control_mode = control_mode;
    mod_init_stat = mod_init_stat;
    fatal_errs = 0;
    dummy = dummy;
    wire = w;
  })
