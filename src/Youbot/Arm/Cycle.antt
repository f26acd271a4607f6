-- ===== src/Youbot/Arm/Cycle.antt =====
-- The whole cycle of an arm (`arm_output_msr_data`, `arm_proc_update`). `lt` is the order of doubles;
-- `double_bytes` and `motorinfo_bytes` give the bytes of the arrays that are written.
use collision_avoidance.Base.{
  ℕ, Bool, true, false, String, Option, some, List, [], ◌∷◌, map, ◌==◌, if◌then◌else◌, ◌>>=◌,
}
use collision_avoidance.Base.Int.{ℤ, pos, ltb_ℤ}
use collision_avoidance.Types.{Memory}
use collision_avoidance.Hooks.{Hooks}
use collision_avoidance.Boxed.{read_boxed, write_boxed}
use collision_avoidance.Youbot.{MotorInfo, InMotor, OutMotor, cmode_motorstop, cmode_initialize}
use collision_avoidance.Youbot.Mailbox.{Master}
use collision_avoidance.Youbot.Flags.{proc_errflg}
use collision_avoidance.Youbot.Odometry.{Floats, Layout}
use collision_avoidance.Youbot.Base.{copy_input, set_cmds, copy_outputs}
use collision_avoidance.Youbot.Arm.{ArmInfo, arm_is_configured, calibrate}
use collision_avoidance.Youbot.Arm.Limits.{scale_down_cmd_val}
use collision_avoidance.Youbot.Arm.Commands.{
  gear_ratios, torque_constants, ticks_to_pos, rpm_to_vel, cur_to_eff, arm_new_mode, arm_gripper,
  arm_handle_cm,
}

-- `youbot_arm_upper_limits`, and `youbot_arm_lower_limits` without their signs.
abbrev upper_limits : List String
upper_limits = "164.8" ∷ "65.1" ∷ "143.1" ∷ "100.1" ∷ "165.0" ∷ []

abbrev lower_limits : List String
lower_limits = "165.2" ∷ "86.2" ∷ "144.6" ∷ "99.8" ∷ "163.4" ∷ []

-- What a cycle leaves.
pub record ArmCycle (D Wire : Type 0) : Type 0 where
  pub arm : ArmInfo D
  pub memory : Memory
  pub wire : Wire
  pub outputs : ℕ → OutMotor

module _ {D S : Type 0} (fl : Floats D S) (lt : D → D → Bool) where
  -- The units of the joints times their measured integers.
  measured : List D → List ℤ → List D
  measured [] vals = []
  measured (u ∷ us) [] = []
  measured (u ∷ us) (v ∷ vals) = fl.mul u (fl.of_int v) ∷ measured us vals

  -- The commands of the joints near their limits, for the limits and positions of the joints.
  scaled_cmds : List String → List String → List D → Bool → ℕ → List MotorInfo → List ℤ
  unfolding scale_down_cmd_val
  scaled_cmds uppers lowers poss disabled mode [] = []
  scaled_cmds [] lowers poss disabled mode (x ∷ xs) = []
  scaled_cmds (u ∷ us) [] poss disabled mode (x ∷ xs) = []
  scaled_cmds (u ∷ us) (l ∷ ls) [] disabled mode (x ∷ xs) = []
  scaled_cmds (u ∷ us) (l ∷ ls) (p ∷ poss) disabled mode (x ∷ xs) =
      scale_down_cmd_val fl lt (fl.lit u) (fl.neg (fl.lit l)) disabled mode p x.cmd_val
      ∷ scaled_cmds us ls poss disabled mode xs

  module _ (hooks : Hooks) (lay : Layout D) (doubles_of : List ℕ → List D)
      (double_bytes : List D → List ℕ) (motorinfo_bytes : List ℤ → List ℤ → List ℤ → List ℕ)
      (stack : List ℕ) where
    arm_output_msr_data : ArmInfo D → Memory → Option (ArmInfo D × Memory)
    unfolding measured ticks_to_pos rpm_to_vel cur_to_eff
    arm_output_msr_data arm m = do
      let poss = map (λ w. w.msr_pos) arm.jnt_inf
      let vels = map (λ w. w.msr_vel) arm.jnt_inf
      let curs = map (λ w. w.msr_cur) arm.jnt_inf
      let here = record arm {
        pos_of = measured (map (ticks_to_pos fl) gear_ratios) poss;
        vel_of = measured (map (rpm_to_vel fl) gear_ratios) vels;
        eff_of = measured (cur_to_eff fl torque_constants gear_ratios) curs;
      }
      m1 ← write_boxed hooks arm.p_arm_motorinfo 1 (motorinfo_bytes poss vels curs) m
      m2 ← write_boxed hooks arm.p_msr_pos 5 (double_bytes here.pos_of) m1
      m3 ← write_boxed hooks arm.p_msr_vel 5 (double_bytes here.vel_of) m2
      m4 ← write_boxed hooks arm.p_msr_eff 5 (double_bytes here.eff_of) m3
      some (here, m4)

    arm_init_completed : ArmInfo D → Memory → Option (ArmInfo D × Memory)
    arm_init_completed arm m = elim (arm.control_mode == cmode_initialize) [
      | false ↦ some (arm, m)
      | true ↦ do
        m' ← write_boxed hooks arm.p_control_mode 1 (lay.int_bytes (pos cmode_motorstop)) m
        some (record arm { control_mode = cmode_motorstop }, m')
    ]

    -- "calibration requested?"
    calibration_requested : ArmInfo D → Memory → Option (ArmInfo D × Memory)
    calibration_requested arm m = do
      r ← read_boxed hooks arm.p_calibrate_cmd 1 stack m
      some (
        if ltb_ℤ (pos 0) r.0
            then record arm { calibrating = 1; jntlim_safety_disabled = true }
            else arm,
        r.2,
      )

    module _ {Wire : Type 0} (master : Master Wire) (seeks : List ℤ) where
      -- The modes of a configured arm; while it is calibrated, no new mode is taken.
      arm_configured_modes : ArmInfo D → Memory → Wire → Option (ArmInfo D × Memory × Wire)
      unfolding arm_init_completed arm_output_msr_data calibration_requested calibrate arm_new_mode
          arm_gripper
      arm_configured_modes arm m w = do
        r1 ← arm_init_completed arm m
        r2 ← arm_output_msr_data r1.0 r1.1
        r3 ← calibration_requested r2.0 r2.1
        elim (r3.0.calibrating == 0) [
          | false ↦ some (calibrate seeks r3.0, r3.1, w)
          | true ↦ do
            r4 ← arm_new_mode fl hooks lay doubles_of stack r3.0 r3.1
            r5 ← arm_gripper fl hooks lay doubles_of stack master r4.0 r4.1 w
            some (r4.0, r5.0, r5.1)
        ]

      -- From the flags to the switch.
      arm_proc_modes : ArmInfo D → Memory → Wire → Option (ArmInfo D × Memory × Wire)
      unfolding arm_is_configured arm_configured_modes arm_handle_cm
      arm_proc_modes arm m w = do
        let modes : Option (ArmInfo D × Memory × Wire) = elim (arm_is_configured arm) [
          | false ↦ some (record arm { control_mode = cmode_initialize }, m, w)
          | true ↦ arm_configured_modes arm m w
        ]
        r ← modes
        q ← arm_handle_cm fl hooks lay doubles_of stack r.0 r.1
        some (q.0, q.1, r.2)

      arm_proc_update :
          ℤ → (ℕ → InMotor) → (ℕ → OutMotor) → ArmInfo D → Memory → Wire → Option (ArmCycle D Wire)
      unfolding arm_proc_modes scaled_cmds
      arm_proc_update dummy inputs outputs arm m w = do
        let joints = map (copy_input inputs) arm.jnt_inf
        let (checked, errs) =
            proc_errflg master true joints arm.control_mode arm.mod_init_stat dummy w
        let flagged = record arm {
          jnt_inf = checked;
          control_mode = errs.control_mode;
          mod_init_stat = errs.mod_init_stat;
        }
        r ← arm_proc_modes flagged m errs.wire
        let cmds =
            scaled_cmds upper_limits lower_limits r.0.pos_of r.0.jntlim_safety_disabled
              r.0.control_mode r.0.jnt_inf
        some (record {
          arm = r.0;
          memory = r.1;
          wire = r.2;
          outputs = copy_outputs r.0.control_mode (set_cmds r.0.jnt_inf cmds) outputs;
        })
