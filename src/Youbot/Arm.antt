-- ===== src/Youbot/Arm.antt =====
-- The calibration of an arm (`struct youbot_arm_info`, `arm_move_to_lim`, the automaton in
-- `arm_proc_update`). `seeks` has the commands of the joints while they move,
-- `arm_calib_move_in_vel[i] / ARM_RPM_TO_VEL` as a 32-bit integer. A flag of a joint is 0 or 1, a Boolean.
pub mod Joints
pub mod Calibration
pub mod Limits
pub mod Commands
pub mod Cycle
use collision_avoidance.Base.{
  ℕ, ◌-◌, ◌^◌, Bool, true, false, ◌&&◌, Option, List, [], ◌∷◌, map, ◌==◌, if◌then◌else◌,
}
use collision_avoidance.Base.Int.{ℤ, pos, ltb_ℤ}
use collision_avoidance.Youbot.{
  MotorInfo, nr_of_joints, cmode_motorstop, cmode_velocity, cmode_set_position_to_reference,
}

-- Without `detected` and `p_events`.
pub record ArmInfo (D : Type 0) : Type 0 where
  pub mod_init_stat : ℕ
  pub control_mode : ℕ
  pub jnt_inf : List MotorInfo
  pub pos_of : List D
  pub vel_of : List D
  pub eff_of : List D
  pub calibrating : ℕ
  pub axis_at_limit : List Bool
  pub jntlim_safety_disabled : Bool
  pub p_msr_pos : Option ℕ
  pub p_msr_vel : Option ℕ
  pub p_msr_eff : Option ℕ
  pub p_control_mode : Option ℕ
  pub p_calibrate_cmd : Option ℕ
  pub p_cmd_pos : Option ℕ
  pub p_cmd_vel : Option ℕ
  pub p_cmd_cur : Option ℕ
  pub p_cmd_eff : Option ℕ
  pub p_arm_motorinfo : Option ℕ
  pub p_gripper : Option ℕ

-- `arm_calib_cur_high`
abbrev pub calib_cur_high : List ℤ
calib_cur_high = pos 1000 ∷ pos 1500 ∷ pos 1000 ∷ pos 500 ∷ pos 400 ∷ []

-- What a joint does on the way to its limit: its motor and whether it is at the limit. `seek` is the
-- commanded value of the joint while it moves.
pub move_joint : ℤ → ℤ → MotorInfo → Bool → MotorInfo × Bool
move_joint high seek w at_limit =
    if ltb_ℤ high w.msr_cur
    then (record w { cmd_val = pos 0 }, true)
    else if at_limit
    then (w, true)
    else (record w { cmd_val = seek }, false)

-- The loop over the joints, with the two tables of the joints; `true` if all are at their limits.
pub move_joints : List ℤ → List ℤ → List MotorInfo → List Bool → List MotorInfo × List Bool × Bool
unfolding move_joint
move_joints highs seeks [] ats = ([], ats, true)
move_joints highs seeks (w ∷ ws) [] = (w ∷ ws, [], true)
move_joints [] seeks (w ∷ ws) (a ∷ more) = (w ∷ ws, a ∷ more, true)
move_joints (h ∷ highs) [] (w ∷ ws) (a ∷ more) = (w ∷ ws, a ∷ more, true)
move_joints (h ∷ highs) (s ∷ seeks) (w ∷ ws) (a ∷ more) =
    let r = move_joint h s w a in
    let rest = move_joints highs seeks ws more in (r.0 ∷ rest.0, r.1 ∷ rest.1, r.1 && rest.2)

abbrev pub not_at_limit : Bool → Bool
not_at_limit a = false

module _ {D : Type 0} where
  -- Returns whether all joints are at their limits, which are forgotten then.
  pub arm_move_to_lim : List ℤ → ArmInfo D → Bool × ArmInfo D
  unfolding move_joints
  arm_move_to_lim seeks arm =
      let r = move_joints calib_cur_high seeks arm.jnt_inf arm.axis_at_limit in
      (
        r.2,
        record arm {
          control_mode = cmode_velocity;
          jnt_inf = r.0;
          axis_at_limit = if r.2 then map not_at_limit r.1 else r.1;
        },
      )

  pub arm_is_configured : ArmInfo D → Bool
  arm_is_configured arm = arm.mod_init_stat == 2 ^ nr_of_joints - 1

  -- The calibration automaton: 1 is moving to the limits, 2 that the limits are the reference.
  pub calibrate : List ℤ → ArmInfo D → ArmInfo D
  unfolding arm_move_to_lim
  calibrate seeks arm =
      if arm.calibrating == 1
      then (let r = arm_move_to_lim seeks arm in
          if r.0
          then record r.1 { calibrating = 2; control_mode = cmode_set_position_to_reference }
          else r.1)
      else if arm.calibrating == 2
      then record arm {
        calibrating = 0;
        jntlim_safety_disabled = false;
        control_mode = cmode_motorstop;
      }
      else arm
