-- ===== src/Youbot/Base.antt =====
-- The cycle of the base (`base_is_configured`, `base_check_watchdog`, `base_proc_update`). The
-- inputs of the slaves are a function of their index, and so are the outputs. `clock 0` and `clock 1`
-- are the readings of the clock for a new control mode and for a command, `none` where the reading
-- fails; `stack` has the bytes of a variable before it is read, `dummy` is the other such variable.
-- `none` as the outcome of a call is a fault.
pub mod Modes
pub mod Update
pub mod Watchdog
use collision_avoidance.Base.{
  ℕ, zero, suc, ◌+◌, ◌-◌, ◌^◌, Bool, true, false, not, ◌&&◌, ◌||◌, Option, none, some, List, [],
  ◌∷◌, map, ltb, leb, ◌==◌, if◌then◌else◌, ◌>>=◌,
}
use collision_avoidance.Base.Int.{ℤ, pos, negsuc, ◌-ℤ◌, ltb_ℤ}
use collision_avoidance.Types.{Memory}
use collision_avoidance.Hooks.{Hooks}
use collision_avoidance.Time.{Timespec, leb_ℤ}
use collision_avoidance.Boxed.{read_boxed, write_boxed}
use collision_avoidance.Youbot.{
  MotorInfo, InMotor, OutMotor, nr_of_wheels, cmode_motorstop, cmode_velocity, cmode_current,
  cmode_initialize,
}
use collision_avoidance.Youbot.Mailbox.{Master, eq_ℤ}
use collision_avoidance.Youbot.Flags.{Errors, proc_errflg}
use collision_avoidance.Youbot.Odometry.{
  Floats, BaseInfo, Layout, base_output_msr_data, twist_to_wheel_val,
}

abbrev pub base_timeout : ℕ
base_timeout = 2

-- The new data of a motor.
abbrev pub copy_input : (ℕ → InMotor) → MotorInfo → MotorInfo
copy_input inputs w =
    let i = inputs w.slave_idx in
    record w {
      msr_pos = i.position;
      msr_vel = i.velocity;
      msr_cur = i.current;
      error_flags = i.flags;
      msr_pwm = i.pwm;
    }

-- `cmd_val` of the motors, from an array.
pub set_cmds : List MotorInfo → List ℤ → List MotorInfo
set_cmds [] vals = []
set_cmds (w ∷ ws) [] = w ∷ ws
set_cmds (w ∷ ws) (v ∷ vals) = record w { cmd_val = v } ∷ set_cmds ws vals

abbrev pub stop_motor : MotorInfo → MotorInfo
stop_motor w = record w { cmd_val = pos 0 }

unfoldable pub all_stopped : List MotorInfo → Bool
all_stopped [] = true
all_stopped (w ∷ ws) = eq_ℤ w.cmd_val (pos 0) && all_stopped ws

-- The outputs of the slaves; a later motor with the same slave overwrites.
pub copy_outputs : ℕ → List MotorInfo → (ℕ → OutMotor) → ℕ → OutMotor
copy_outputs mode [] outputs = outputs
copy_outputs mode (w ∷ ws) outputs = copy_outputs mode ws (λ q.
    if w.slave_idx == q
    then record { value = w.cmd_val; controller_mode = pos mode }
    else outputs q)

-- A control mode that was read: one that is not from 0 to 7 becomes MOTORSTOP.
abbrev pub valid_mode : ℤ → ℕ
valid_mode (pos n) = if ltb 7 n then cmode_motorstop else n
valid_mode (negsuc n) = cmode_motorstop

-- What a cycle leaves.
pub record Cycle (D S Wire : Type 0) : Type 0 where
  pub base : BaseInfo D S
  pub memory : Memory
  pub wire : Wire
  pub outputs : ℕ → OutMotor

module _ {D S : Type 0} where
  pub base_is_configured : BaseInfo D S → Bool
  base_is_configured base = base.mod_init_stat == 2 ^ nr_of_wheels - 1

  pub base_check_watchdog : Option Timespec → Bool → BaseInfo D S → BaseInfo D S
  base_check_watchdog none trig base = base
  base_check_watchdog (some now) true base = record base { last_cmd = now }
  base_check_watchdog (some now) false base =
      if leb_ℤ (pos base_timeout) (now.sec -ℤ base.last_cmd.sec)
      then record base { control_mode = cmode_motorstop }
      else base

module _ {D S : Type 0} (hooks : Hooks) (fl : Floats D S) (lay : Layout D) where
  -- INITIALIZE is left once the base is configured.
  init_completed : BaseInfo D S → Memory → Option (BaseInfo D S × Memory)
  init_completed base m =
      if base.control_mode == cmode_initialize
      then (do
        m' ← write_boxed hooks base.p_control_mode 1 (lay.int_bytes (pos cmode_motorstop)) m
        some (record base { control_mode = cmode_motorstop }, m'))
      else some (base, m)

  -- "new control mode?"
  new_control_mode :
      Option Timespec → List ℕ → BaseInfo D S → Memory → Option (BaseInfo D S × Memory)
  unfolding base_check_watchdog
  new_control_mode now stack base m = do
    r ← read_boxed hooks base.p_control_mode 1 stack m
    elim (ltb_ℤ (pos 0) r.0) [
      | false ↦ some (base, r.2)
      | true ↦ do
        let mode = valid_mode (lay.int_of r.1)
        m' ← write_boxed hooks base.p_control_mode 1 (lay.int_bytes (pos mode)) r.2
        let stopped = record base { control_mode = mode; wheel_inf = map stop_motor base.wheel_inf }
        some (base_check_watchdog now true stopped, m')
    ]

  -- Without a new command the watchdog is triggered only if nothing moves.
  no_new_data : Option Timespec → BaseInfo D S → BaseInfo D S
  unfolding base_check_watchdog all_stopped
  no_new_data now base = base_check_watchdog now (all_stopped base.wheel_inf) base

  commanded : Option Timespec → List ℤ → BaseInfo D S → BaseInfo D S
  unfolding base_check_watchdog set_cmds
  commanded now vals base =
      base_check_watchdog now true (record base { wheel_inf = set_cmds base.wheel_inf vals })

  handle_twist : Option Timespec → BaseInfo D S → Memory → Option (BaseInfo D S × Memory)
  unfolding no_new_data commanded
  handle_twist now base m = do
    r ← read_boxed hooks base.p_cmd_twist 1 (lay.twist_bytes base.cmd_twist) m
    let read = record base { cmd_twist = lay.twist_of r.1 }
    some (
      if ltb_ℤ (pos 0) r.0
          then commanded now (twist_to_wheel_val fl read.cmd_twist) read
          else no_new_data now read,
      r.2,
    )

  handle_velocity :
      Option Timespec → List ℕ → BaseInfo D S → Memory → Option (BaseInfo D S × Memory)
  unfolding handle_twist
  handle_velocity now stack base m = do
    r ← read_boxed hooks base.p_cmd_vel 4 stack m
    if eq_ℤ r.0 (pos 4)
        then some (commanded now (lay.ints_of r.1) base, r.2)
        else handle_twist now base r.2

  handle_current : Option Timespec → List ℕ → BaseInfo D S → Memory → Option (BaseInfo D S × Memory)
  unfolding commanded no_new_data
  handle_current now stack base m = do
    r ← read_boxed hooks base.p_cmd_cur 4 stack m
    some (
      if eq_ℤ r.0 (pos 4) then commanded now (lay.ints_of r.1) base else no_new_data now base,
      r.2,
    )

  -- The switch on the control mode.
  unfoldable pub handle_cm :
      Option Timespec → List ℕ → BaseInfo D S → Memory → Option (BaseInfo D S × Memory)
  unfolding handle_velocity handle_current
  handle_cm now stack base m =
      if base.control_mode == cmode_motorstop
      then some (base, m)
      else if base.control_mode == cmode_velocity
      then handle_velocity now stack base m
      else if base.control_mode == cmode_current
      then handle_current now stack base m
      else if base.control_mode == cmode_initialize
      then some (base, m)
      else some (record base { control_mode = cmode_motorstop }, m)

  -- From the flags to the switch.
  proc_modes :
      (ℕ → Option Timespec) → List ℕ → BaseInfo D S → Memory → Option (BaseInfo D S × Memory)
  unfolding base_is_configured init_completed new_control_mode handle_cm
  proc_modes clock stack base m = elim (base_is_configured base) [
    | false ↦ handle_cm (clock 1) stack (record base { control_mode = cmode_initialize }) m
    | true ↦ do
      r1 ← init_completed base m
      r2 ← new_control_mode (clock 0) stack r1.0 r1.1
      r3 ← base_output_msr_data fl hooks lay r2.0 r2.1
      handle_cm (clock 1) stack r3.0 r3.1
  ]

  module _ {Wire : Type 0} (master : Master Wire) where
    unfoldable pub base_proc_update :
        (ℕ → Option Timespec)
        → List ℕ
        → ℤ
        → (ℕ → InMotor)
        → (ℕ → OutMotor)
        → BaseInfo D S
        → Memory
        → Wire
        → Option (Cycle D S Wire)
    unfolding proc_modes copy_outputs
    base_proc_update clock stack dummy inputs outputs base m w = do
      let wheels = map (copy_input inputs) base.wheel_inf
      let (checked, errs) =
          proc_errflg master false wheels base.control_mode base.mod_init_stat dummy w
      let flagged = record base {
        wheel_inf = checked;
        control_mode = errs.control_mode;
        mod_init_stat = errs.mod_init_stat;
      }
      r ← proc_modes clock stack flagged m
      some (record {
        base = r.0;
        memory = r.1;
        wire = errs.wire;
        outputs = copy_outputs r.0.control_mode r.0.wheel_inf outputs;
      })
