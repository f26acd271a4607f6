-- ===== src/Youbot/Detect.antt =====
-- The detection of the base and of the arms (`validate_base_slaves`, `validate_arm_slaves`, and the
-- part of `youbot_init` that calls them). A slave of the bus is seen by its name.
pub mod Layout
use collision_avoidance.Base.{
  ℕ, zero, suc, ◌+◌, ◌*◌, Bool, true, false, ◌&&◌, String, Option, none, some, List, [], ◌∷◌, leb,
  str_eq, if◌then◌else◌,
}
use collision_avoidance.Base.Int.{ℤ}
use collision_avoidance.Types.{ok, failed, is_ok}
use collision_avoidance.Youbot.{nr_of_wheels, nr_of_joints}

abbrev pub wheel_pwrb_name : String
wheel_pwrb_name = "KR-845"

abbrev pub wheel_ctrl_name : String
wheel_ctrl_name = "TMCM-174"

abbrev pub wheel_ctrl_name2 : String
wheel_ctrl_name2 = "TMCM-1632"

abbrev pub arm_pwrb_name : String
arm_pwrb_name = "KR-843"

abbrev pub arm_ctrl_name : String
arm_ctrl_name = "TMCM-KR-841"

abbrev pub arm_ctrl_name2 : String
arm_ctrl_name2 = "TMCM-1610"

-- The loop over `n` controllers from the slave `i` on, with the test of the code: a slave is refused
-- if it has both names.
pub check_ctrls : (ℕ → String) → String → String → ℕ → ℕ → ℤ
check_ctrls name ctrl ctrl2 i zero = ok
check_ctrls name ctrl ctrl2 i (suc n) =
    let rest = check_ctrls name ctrl ctrl2 (i + 1) n in
    if str_eq (name i) ctrl && str_eq (name i) ctrl2 then failed else rest

pub validate_base_slaves : (ℕ → String) → ℕ → ℤ
unfolding check_ctrls
validate_base_slaves name start_num =
    if str_eq (name start_num) wheel_pwrb_name
    then check_ctrls name wheel_ctrl_name wheel_ctrl_name2 (start_num + 1) nr_of_wheels
    else failed

pub validate_arm_slaves : (ℕ → String) → ℕ → ℤ
unfolding check_ctrls
validate_arm_slaves name start_num =
    if str_eq (name start_num) arm_pwrb_name
    then check_ctrls name arm_ctrl_name arm_ctrl_name2 (start_num + 1) nr_of_joints
    else failed

-- The indices that a loop gives to `n` motors, from `cur_slave` on.
pub indices : ℕ → ℕ → List ℕ
indices cur_slave zero = []
indices cur_slave (suc n) = cur_slave ∷ indices (cur_slave + 1) n

-- What was detected: the `slave_idx` of the motors of the base, and of those of each arm that is
-- there; the last is `*conf_nr_arms`, if it was written.
pub record Detected : Type 0 where
  pub base : List ℕ
  pub arm1 : Option (List ℕ)
  pub arm2 : Option (List ℕ)
  pub nr_arms : Option ℕ

-- Whether an arm is looked for and found from the slave `start_num` on.
pub has_arm : (ℕ → String) → ℕ → ℕ → ℕ → Bool
unfolding validate_arm_slaves
has_arm name slavecount arms start_num =
    leb (nr_of_wheels + 1 + arms * (nr_of_joints + 1)) slavecount
    && is_ok (validate_arm_slaves name start_num)

-- The second arm, after what was found before; `cur_slave` is the slave that the loops have reached.
pub detect_arm2 : (ℕ → String) → ℕ → ℕ → Detected → Detected
unfolding has_arm indices
detect_arm2 name slavecount cur_slave d =
    if has_arm name slavecount 2 (1 + (nr_of_wheels + 1) + (nr_of_joints + 1))
    then record d { arm2 = some (indices (cur_slave + 1) nr_of_joints); nr_arms = some 2 }
    else d

-- `none` is "no base detected".
unfoldable pub detect : (ℕ → String) → ℕ → Option Detected
unfolding validate_base_slaves indices has_arm detect_arm2
detect name slavecount =
    if leb (nr_of_wheels + 1) slavecount && is_ok (validate_base_slaves name 1)
    then some (
        let base : Detected = record {
          base = indices 2 nr_of_wheels;
          arm1 = none;
          arm2 = none;
          nr_arms = none;
        } in
        let cur_slave = 2 + nr_of_wheels in
        if has_arm name slavecount 1 (1 + (nr_of_wheels + 1))
        then detect_arm2 name slavecount (cur_slave + 1 + nr_of_joints)
            (record base { arm1 = some (indices (cur_slave + 1) nr_of_joints); nr_arms = some 1 })
        else detect_arm2 name slavecount cur_slave base)
    else none
