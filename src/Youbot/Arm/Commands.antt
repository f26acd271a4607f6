-- ===== src/Youbot/Arm/Commands.antt =====
-- The commands of an arm (`arm_proc_update` from "new control mode?" to its switch). `stack` has the
-- bytes of a variable before it is read, and `doubles_of` the numbers of an array's bytes.
use collision_avoidance.Base.{
  ℕ, ◌*◌, true, false, String, Option, some, List, [], ◌∷◌, map, ◌==◌, if◌then◌else◌, ◌>>=◌,
}
use collision_avoidance.Base.Int.{ℤ, pos, negsuc, ltb_ℤ}
use collision_avoidance.Types.{Memory}
use collision_avoidance.Hooks.{Hooks}
use collision_avoidance.Boxed.{read_boxed, write_boxed}
use collision_avoidance.Youbot.{
  cmode_motorstop, cmode_positioning, cmode_velocity, cmode_current, cmode_initialize,
  cmode_set_position_to_reference,
}
use collision_avoidance.Youbot.Mailbox.{Master, eq_ℤ}
use collision_avoidance.Youbot.Odometry.{Floats, Layout}
use collision_avoidance.Youbot.Base.{set_cmds, stop_motor, valid_mode}
use collision_avoidance.Youbot.Start.{control_gripper}
use collision_avoidance.Youbot.Arm.{ArmInfo}

-- `YOUBOT_ARM_JOINT_GEAR_RATIOS`, `YOUBOT_ARM_JOINT_TORQUE_CONSTANTS`, `arm_calib_ref_pos`
abbrev pub gear_ratios : List ℕ
gear_ratios = 156 ∷ 156 ∷ 100 ∷ 71 ∷ 71 ∷ []

abbrev pub torque_constants : List String
torque_constants = "0.0335" ∷ "0.0335" ∷ "0.0335" ∷ "0.051" ∷ "0.049" ∷ []

abbrev calib_ref_pos : List String
calib_ref_pos = "2.8793" ∷ "1.1414" ∷ "2.50552" ∷ "1.76662" ∷ "2.8767" ∷ []

abbrev gripper_enc_width : ℕ
gripper_enc_width = 67000

module _ {D S : Type 0} (fl : Floats D S) where
  two_pi : D
  two_pi = fl.mul (fl.of_int (pos 2)) (fl.lit "M_PI")

  -- `ARM_TICKS_TO_POS`, `ARM_RPM_TO_VEL` and `ARM_CUR_TO_EFF` of a joint.
  unfoldable pub ticks_to_pos : ℕ → D
  unfolding two_pi
  ticks_to_pos ratio = fl.div two_pi (fl.of_int (pos (ratio * 4096)))

  unfoldable pub rpm_to_vel : ℕ → D
  unfolding two_pi
  rpm_to_vel ratio = fl.div two_pi (fl.of_int (pos (60 * ratio)))

  unfoldable pub cur_to_eff : List String → List ℕ → List D
  cur_to_eff [] ratios = []
  cur_to_eff (t ∷ ts) [] = []
  cur_to_eff (t ∷ ts) (r ∷ rs) =
      fl.div (fl.mul (fl.lit t) (fl.of_int (pos r))) (fl.of_int (pos 1000)) ∷ cur_to_eff ts rs

  -- The values divided by the units of their joints, as integers.
  in_units : List D → List D → List ℤ
  in_units [] units = []
  in_units (v ∷ vs) [] = []
  in_units (v ∷ vs) (u ∷ us) = fl.to_int (fl.div v u) ∷ in_units vs us

  set_positions : List D → ArmInfo D → ArmInfo D
  unfolding in_units ticks_to_pos
  set_positions vals arm = record arm {
    jnt_inf = set_cmds arm.jnt_inf (in_units vals (map ticks_to_pos gear_ratios));
  }

  module _ (hooks : Hooks) (lay : Layout D) (doubles_of : List ℕ → List D) (stack : List ℕ) where
    -- "new control mode?"
    unfoldable pub arm_new_mode : ArmInfo D → Memory → Option (ArmInfo D × Memory)
    arm_new_mode arm m = do
      r ← read_boxed hooks arm.p_control_mode 1 stack m
      elim (ltb_ℤ (pos 0) r.0) [
        | false ↦ some (arm, r.2)
        | true ↦ do
          let mode = valid_mode (lay.int_of r.1)
          m' ← write_boxed hooks arm.p_control_mode 1 (lay.int_bytes (pos mode)) r.2
          some (record arm { control_mode = mode; jnt_inf = map stop_motor arm.jnt_inf }, m')
      ]

    -- A positive command closes the gripper by its width, any other opens it.
    unfoldable pub arm_gripper :
        {Wire : Type 0} → Master Wire → ArmInfo D → Memory → Wire → Option (Memory × Wire)
    arm_gripper master arm m w = do
      r ← read_boxed hooks arm.p_gripper 1 stack m
      let width = if ltb_ℤ (pos 0) (lay.int_of r.1) then negsuc 66999 else pos gripper_enc_width
      some (r.2, if ltb_ℤ (pos 0) r.0 then (control_gripper master width width w).1 else w)

    arm_positioning : ArmInfo D → Memory → Option (ArmInfo D × Memory)
    unfolding set_positions
    arm_positioning arm m = do
      r ← read_boxed hooks arm.p_cmd_pos 5 stack m
      some (if eq_ℤ r.0 (pos 5) then set_positions (doubles_of r.1) arm else arm, r.2)

    -- While the arm is calibrated the port is not read.
    arm_velocity : ArmInfo D → Memory → Option (ArmInfo D × Memory)
    unfolding in_units rpm_to_vel
    arm_velocity arm m = elim (arm.calibrating == 0) [
      | false ↦ some (arm, m)
      | true ↦ do
        r ← read_boxed hooks arm.p_cmd_vel 5 stack m
        let cmds = in_units (doubles_of r.1) (map rpm_to_vel gear_ratios)
        some (
          if eq_ℤ r.0 (pos 5) then record arm { jnt_inf = set_cmds arm.jnt_inf cmds } else arm,
          r.2,
        )
    ]

    -- Efforts come before currents.
    arm_current : ArmInfo D → Memory → Option (ArmInfo D × Memory)
    unfolding in_units cur_to_eff
    arm_current arm m = do
      r ← read_boxed hooks arm.p_cmd_eff 5 stack m
      let efforts = in_units (doubles_of r.1) (cur_to_eff torque_constants gear_ratios)
      elim (eq_ℤ r.0 (pos 5)) [
        | true ↦ some (record arm { jnt_inf = set_cmds arm.jnt_inf efforts }, r.2)
        | false ↦ do
          q ← read_boxed hooks arm.p_cmd_cur 5 stack r.2
          some (
            if eq_ℤ q.0 (pos 5)
                then record arm { jnt_inf = set_cmds arm.jnt_inf (lay.ints_of q.1) }
                else arm,
            q.2,
          )
      ]

    -- The switch on the control mode.
    unfoldable pub arm_handle_cm : ArmInfo D → Memory → Option (ArmInfo D × Memory)
    unfolding arm_positioning arm_velocity arm_current set_positions
    arm_handle_cm arm m =
        if arm.control_mode == cmode_motorstop
        then some (arm, m)
        else if arm.control_mode == cmode_positioning
        then arm_positioning arm m
        else if arm.control_mode == cmode_velocity
        then arm_velocity arm m
        else if arm.control_mode == cmode_current
        then arm_current arm m
        else if arm.control_mode == cmode_initialize
        then some (arm, m)
        else if arm.control_mode == cmode_set_position_to_reference
        then some (set_positions (map fl.lit calib_ref_pos) arm, m)
        else some (record arm { control_mode = cmode_motorstop }, m)
