-- ===== src/Youbot/Arm/Calibration.antt =====
-- The cycles of the calibration of an arm (`arm_move_to_lim` and the automaton in `arm_proc_update`).
use collision_avoidance.Base.{
  ◌==◌, Bool, true, false, ◌&&◌, not, List, [], ◌∷◌, map, length, if◌then◌else◌, refl, ap, ◌∙◌, ◌≡◌,
  Bool-cases, inl, inr,
}
use native.Mathlib.Omega.{arith}
use collision_avoidance.Base.Int.{ℤ}
use collision_avoidance.Youbot.{
  cmode_velocity, MotorInfo, cmode_motorstop, cmode_set_position_to_reference,
}
use collision_avoidance.Youbot.Arm.{
  ArmInfo, move_joints, arm_move_to_lim, calibrate, calib_cur_high, not_at_limit,
}
use collision_avoidance.Youbot.Arm.Joints.{
  limits_reached, told, current_bounds, every, move_joints-told, move_joints-limits_reached,
  length-limits_reached, every-limits_reached,
}

-- One cycle while the arm moves to its limits. Once all five joints have reached them, the limits are
-- forgotten and become the reference; before that the arm keeps moving in VELOCITY mode.
calibrate_lem :
    {D : Type 0}
    → (seeks : List ℤ) → (arm : ArmInfo D) → arm.calibrating ≡ 1
    → length seeks ≡ 5
    → length arm.jnt_inf ≡ 5
    → length arm.axis_at_limit ≡ 5
    → ((calibrate seeks arm).calibrating
        ≡ (if every (limits_reached calib_cur_high arm.jnt_inf arm.axis_at_limit) then 2 else 1))
      × ((calibrate seeks arm).control_mode
          ≡ (if every (limits_reached calib_cur_high arm.jnt_inf arm.axis_at_limit) then 4 else 2))
      × ((calibrate seeks arm).axis_at_limit ≡ (
          if every (limits_reached calib_cur_high arm.jnt_inf arm.axis_at_limit)
          then map not_at_limit (limits_reached calib_cur_high arm.jnt_inf arm.axis_at_limit)
          else limits_reached calib_cur_high arm.jnt_inf arm.axis_at_limit))
      × ((calibrate seeks arm).jntlim_safety_disabled ≡ arm.jntlim_safety_disabled)
unfolding calibrate arm_move_to_lim
calibrate_lem seeks arm moving ls lw la =
    let r =
      move_joints-limits_reached calib_cur_high seeks arm.jnt_inf arm.axis_at_limit ls lw la in
    elim (Bool-cases (every (limits_reached calib_cur_high arm.jnt_inf arm.axis_at_limit))) [
      | inl e ↦ rw (moving, r.1, e) (refl, refl, rw (r.0) refl, refl)
      | inr e ↦ rw (moving, r.1, e) (refl, refl, rw (r.0) refl, refl)
    ]

-- Cycles of the arm under calibration, each with the motors as they are measured at its start.
unfoldable pub calibration_cycle : {D : Type 0} → List ℤ → ArmInfo D → List MotorInfo → ArmInfo D
calibration_cycle seeks arm measured = calibrate seeks (record arm { jnt_inf = measured })

unfoldable pub calibration_cycles :
    {D : Type 0} → List ℤ → ArmInfo D → List (List MotorInfo) → ArmInfo D
unfolding calibration_cycle
calibration_cycles seeks arm [] = arm
calibration_cycles seeks arm (r ∷ rs) = calibration_cycles seeks (calibration_cycle seeks arm r) rs

-- The joints that have reached their limits in one of the cycles or before.
unfoldable pub reached_during : List (List MotorInfo) → List Bool → List Bool
unfolding limits_reached
reached_during [] ats = ats
reached_during (r ∷ rs) ats = reached_during rs (limits_reached current_bounds r ats)

unfoldable pub five_each : List (List MotorInfo) → Bool
five_each [] = true
five_each (r ∷ rs) = length r == 5 && five_each rs

every-reached_during :
    (rounds : List (List MotorInfo))
    → (ats : List Bool) → every ats ≡ true
    → every (reached_during rounds ats) ≡ true
unfolding reached_during
every-reached_during [] ats e = e
every-reached_during (r ∷ rs) ats e =
    every-reached_during rs (limits_reached calib_cur_high r ats)
      (every-limits_reached calib_cur_high r ats e)

-- In each of the cycles the mode is VELOCITY, and the joints are told to move to their limits.
abbrev pub KeepsMoving : {D : Type 0} → List ℤ → ArmInfo D → List (List MotorInfo) → Type 0
KeepsMoving seeks arm [] = Unit {0}
KeepsMoving seeks arm (r ∷ rs) =
    ((calibration_cycle seeks arm r).calibrating ≡ 1)
    × ((calibration_cycle seeks arm r).control_mode ≡ cmode_velocity)
    × (map (λ w. w.cmd_val) (calibration_cycle seeks arm r).jnt_inf
        ≡ told current_bounds seeks r arm.axis_at_limit)
    × KeepsMoving seeks (calibration_cycle seeks arm r) rs

calibrate-told :
    {D : Type 0} (seeks : List ℤ) (arm : ArmInfo D)
    → arm.calibrating ≡ 1
    → length seeks ≡ 5
    → length arm.jnt_inf ≡ 5
    → length arm.axis_at_limit ≡ 5
    → map (λ w. w.cmd_val) (calibrate seeks arm).jnt_inf
      ≡ told current_bounds seeks arm.jnt_inf arm.axis_at_limit
unfolding calibrate arm_move_to_lim
calibrate-told seeks arm moving ls lw la =
    let r = move_joints calib_cur_high seeks arm.jnt_inf arm.axis_at_limit in
    elim (Bool-cases r.2) [
      | inl t ↦
          rw (moving, t)
            (move_joints-told calib_cur_high seeks arm.jnt_inf arm.axis_at_limit ls lw la)
      | inr t ↦
          rw (moving, t)
            (move_joints-told calib_cur_high seeks arm.jnt_inf arm.axis_at_limit ls lw la)
    ]

-- As long as not all joints have reached their limits, the arm keeps moving and remembers which have.
calibration_cycles_moving :
    {D : Type 0}
    → (seeks : List ℤ) → (arm : ArmInfo D) → (rounds : List (List MotorInfo)) → arm.calibrating ≡ 1
    → length seeks ≡ 5
    → length arm.axis_at_limit ≡ 5
    → five_each rounds ≡ true
    → every (reached_during rounds arm.axis_at_limit) ≡ false
    → ((calibration_cycles seeks arm rounds).calibrating ≡ 1)
      × ((calibration_cycles seeks arm rounds).axis_at_limit
          ≡ reached_during rounds arm.axis_at_limit)
      × (length (calibration_cycles seeks arm rounds).axis_at_limit ≡ 5)
      × KeepsMoving seeks arm rounds
unfolding calibration_cycles calibration_cycle reached_during five_each
calibration_cycles_moving seeks arm [] moving ls la fives e = (moving, refl, la, tt)
calibration_cycles_moving seeks arm (r ∷ rs) moving ls la fives e =
    let lr : length r ≡ 5 = ground arith in
    let fs : five_each rs ≡ true = ground arith in
    let ats = limits_reached calib_cur_high r arm.axis_at_limit in
    let c = calibrate_lem seeks (record arm { jnt_inf = r }) moving ls lr la in
    elim (Bool-cases (every ats)) [
      | inl t ↦ (let bad = every-reached_during rs ats t in ground arith)
      | inr t ↦
          let one : (calibration_cycle seeks arm r).calibrating ≡ 1 = c.0 ∙ rw t refl in
          let same : (calibration_cycle seeks arm r).axis_at_limit ≡ ats = c.2 ∙ rw t refl in
          let five =
            ap length same ∙ length-limits_reached calib_cur_high r arm.axis_at_limit lr la in
          let rest =
            calibration_cycles_moving seeks (calibration_cycle seeks arm r) rs one ls five fs
              (ap (λ x. every (reached_during rs x)) same ∙ e) in
          (
            rest.0,
            rest.1 ∙ ap (reached_during rs) same,
            rest.2,
            (
              one,
              c.1 ∙ rw t refl,
              calibrate-told seeks (record arm { jnt_inf = r }) moving ls lr la,
              rest.3,
            ),
          )
    ]

every_cleared : (ats : List Bool) → every (map not (map not_at_limit ats)) ≡ true
unfolding every
every_cleared [] = refl
every_cleared (a ∷ more) = every_cleared more

reference_lem :
    {D : Type 0}
    → (seeks : List ℤ) → (arm : ArmInfo D) → arm.calibrating ≡ 2
    → ((calibrate seeks arm).calibrating ≡ 0)
      × ((calibrate seeks arm).control_mode ≡ cmode_motorstop)
      × ((calibrate seeks arm).jntlim_safety_disabled ≡ false)
unfolding calibrate
reference_lem seeks arm two = rw two (refl, refl, refl)

-- An arm of five joints under calibration, in cycles without a new command to calibrate. In each
-- cycle up to the one in which the last of the joints reaches its limit the mode is VELOCITY, and a
-- joint is told to stop where its current is above its bound, told to move if it has not reached its
-- limit, and told what it was told before otherwise. In the first cycle in which all have, whichever
-- the cycles were in which the others had, the control mode becomes SET_POSITION_TO_REFERENCE, and no
-- joint counts as at its limit any more. The next cycle, whatever is measured in it, ends the
-- calibration: the mode is MOTORSTOP, and the limits of the joints are guarded again.
pub calibration_lem :
    {D : Type 0}
    → (seeks : List ℤ) → (arm : ArmInfo D) → (rounds : List (List MotorInfo))
    → (last next : List MotorInfo) → arm.calibrating ≡ 1
    → length seeks ≡ 5
    → length arm.axis_at_limit ≡ 5
    → five_each rounds ≡ true
    → length last ≡ 5
    → every (reached_during rounds arm.axis_at_limit) ≡ false
    → every (limits_reached current_bounds last (reached_during rounds arm.axis_at_limit)) ≡ true
    → let moving = calibration_cycles seeks arm rounds in
      let reached = calibration_cycle seeks moving last in
      let done = calibration_cycle seeks reached next in
      KeepsMoving seeks arm rounds
      × (moving.calibrating ≡ 1)
      × (moving.axis_at_limit ≡ reached_during rounds arm.axis_at_limit)
      × (reached.calibrating ≡ 2)
      × (reached.control_mode ≡ cmode_set_position_to_reference)
      × (every (map not reached.axis_at_limit) ≡ true)
      × (done.calibrating ≡ 0)
      × (done.control_mode ≡ cmode_motorstop)
      × (done.jntlim_safety_disabled ≡ false)
unfolding calibration_cycle
calibration_lem seeks arm rounds last next moving ls la fives l5 before after =
    let m = calibration_cycles_moving seeks arm rounds moving ls la fives before in
    let here = record (calibration_cycles seeks arm rounds) { jnt_inf = last } in
    let all = ap (λ x. every (limits_reached calib_cur_high last x)) m.1 ∙ after in
    let c = calibrate_lem seeks here m.0 ls l5 m.2 in
    let two : (calibrate seeks here).calibrating ≡ 2 = c.0 ∙ rw all refl in
    let four : (calibrate seeks here).control_mode ≡ 4 = c.1 ∙ rw all refl in
    let none_left =
      ap (λ x. every (map not x)) (c.2 ∙ rw all refl)
      ∙ every_cleared (limits_reached calib_cur_high last here.axis_at_limit) in
    let r = reference_lem seeks (record (calibrate seeks here) { jnt_inf = next }) two in
    (m.3, m.0, m.1, two, four, none_left, r.0, r.1, r.2)
