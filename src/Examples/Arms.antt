-- ===== src/Examples/Arms.antt =====
-- An arm that is being calibrated: the first joint reaches its limit before the others do.
use collision_avoidance.Base.{ℕ, ◌≡◌, refl, true, false, none, List, [], ◌∷◌, map, not}
use collision_avoidance.Base.Int.{ℤ, pos}
use collision_avoidance.Youbot.{MotorInfo, cmode_motorstop, cmode_set_position_to_reference}
use collision_avoidance.Youbot.Arm.{ArmInfo}
use collision_avoidance.Youbot.Arm.Joints.{every, limits_reached}
use collision_avoidance.Youbot.Arm.Calibration.{
  reached_during, five_each, calibration_cycle, calibration_cycles, KeepsMoving, calibration_lem,
}
use collision_avoidance.Examples.Bases.{wheel}

abbrev joint : ℕ → ℕ → MotorInfo
joint i current = record (wheel i) { msr_cur = pos current }

abbrev arm : ArmInfo Unit
arm = record {
  mod_init_stat = 31;
  control_mode = cmode_motorstop;
  jnt_inf = [];
  pos_of = [];
  vel_of = [];
  eff_of = [];
  calibrating = 1;
  axis_at_limit = false ∷ false ∷ false ∷ false ∷ false ∷ [];
  jntlim_safety_disabled = true;
  p_msr_pos = none;
  p_msr_vel = none;
  p_msr_eff = none;
  p_control_mode = none;
  p_calibrate_cmd = none;
  p_cmd_pos = none;
  p_cmd_vel = none;
  p_cmd_cur = none;
  p_cmd_eff = none;
  p_arm_motorinfo = none;
  p_gripper = none;
}

abbrev seeks : List ℤ
seeks = pos 1 ∷ pos 1 ∷ pos 1 ∷ pos 1 ∷ pos 1 ∷ []

abbrev early : List MotorInfo
early = joint 7 1001 ∷ joint 8 1001 ∷ joint 9 3 ∷ joint 10 3 ∷ joint 11 400 ∷ []

abbrev late : List MotorInfo
late = joint 7 0 ∷ joint 8 1501 ∷ joint 9 1001 ∷ joint 10 501 ∷ joint 11 401 ∷ []

abbrev moved : ArmInfo Unit
moved = calibration_cycles seeks arm (early ∷ [])

abbrev arrived : ArmInfo Unit
arrived = calibration_cycle seeks moved late

abbrev finished : ArmInfo Unit
finished = calibration_cycle seeks arrived early

calibration_lem_example :
    KeepsMoving seeks arm (early ∷ [])
    × (moved.calibrating ≡ 1)
    × (moved.axis_at_limit ≡ reached_during (early ∷ []) arm.axis_at_limit)
    × (arrived.calibrating ≡ 2)
    × (arrived.control_mode ≡ cmode_set_position_to_reference)
    × (every (map not arrived.axis_at_limit) ≡ true)
    × (finished.calibrating ≡ 0)
    × (finished.control_mode ≡ cmode_motorstop)
    × (finished.jntlim_safety_disabled ≡ false)
unfolding every limits_reached reached_during five_each
calibration_lem_example =
    calibration_lem seeks arm (early ∷ []) late early refl refl refl refl refl refl refl

-- The first joint alone is marked after the first cycle.
moved_marks :
    reached_during (early ∷ []) arm.axis_at_limit ≡ true ∷ false ∷ false ∷ false ∷ false ∷ []
unfolding reached_during limits_reached
moved_marks = refl
