-- ===== src/Youbot/Detect/Layout.antt =====
-- What the detection finds.
use collision_avoidance.Base.{
  ℕ, zero, suc, ◌+◌, ◌*◌, ◌≡◌, refl, ◌∙◌, ap, Bool, true, false, ◌&&◌, String, none, some, List, [],
  ◌∷◌, leb, inl, inr, Bool-cases, str_eq, str_eq_iff, if◌then◌else◌,
}
use collision_avoidance.Types.{ok, failed, is_ok}
use collision_avoidance.Youbot.{nr_of_wheels, nr_of_joints}
use collision_avoidance.Youbot.Detect.{
  check_ctrls, validate_base_slaves, validate_arm_slaves, wheel_pwrb_name, arm_pwrb_name, detect,
  has_arm, detect_arm2, indices, wheel_ctrl_name, wheel_ctrl_name2, arm_ctrl_name, arm_ctrl_name2,
}

-- No name is two different names.
both_names : (s a b : String) → str_eq a b ≡ false → (str_eq s a && str_eq s b) ≡ false
both_names s a b h = elim (Bool-cases (str_eq s a)) [
  | inr t ↦ rw t refl
  | inl t ↦ rw t (rw ((str_eq_iff s a).0 t) h)
]

check_ctrls_lem :
    (name : ℕ → String) (a b : String) (i n : ℕ)
    → str_eq a b ≡ false
    → check_ctrls name a b i n ≡ ok
unfolding check_ctrls
check_ctrls_lem name a b i zero h = refl
check_ctrls_lem name a b i (suc n) h =
    rw (both_names (name i) a b h) (check_ctrls_lem name a b (i + 1) n h)

-- The controllers are never refused: whether a base or an arm is valid depends on the name of its
-- power board alone.
pub validate_slaves_lem :
    (name : ℕ → String) (start_num : ℕ)
    → (validate_base_slaves name start_num
        ≡ (if str_eq (name start_num) wheel_pwrb_name then ok else failed))
      × (validate_arm_slaves name start_num
          ≡ (if str_eq (name start_num) arm_pwrb_name then ok else failed))
unfolding validate_base_slaves validate_arm_slaves str_eq
validate_slaves_lem name start_num = (
  rw (check_ctrls_lem name wheel_ctrl_name wheel_ctrl_name2 (start_num + 1) nr_of_wheels refl) refl,
  rw (check_ctrls_lem name arm_ctrl_name arm_ctrl_name2 (start_num + 1) nr_of_joints refl) refl,
)

-- The power boards that stand where the code looks for them.
abbrev pub base_board : (ℕ → String) → ℕ → Bool
base_board name count = leb 5 count && str_eq (name 1) wheel_pwrb_name

abbrev pub arm_board1 : (ℕ → String) → ℕ → Bool
arm_board1 name count = leb 11 count && str_eq (name 6) arm_pwrb_name

abbrev pub arm_board2 : (ℕ → String) → ℕ → Bool
arm_board2 name count = leb 17 count && str_eq (name 12) arm_pwrb_name

abbrev pub joints1 : List ℕ
joints1 = 7 ∷ 8 ∷ 9 ∷ 10 ∷ 11 ∷ []

abbrev pub joints2 : List ℕ
joints2 = 13 ∷ 14 ∷ 15 ∷ 16 ∷ 17 ∷ []

is_ok_if : (b c : Bool) → (c && is_ok (if b then ok else failed)) ≡ (c && b)
is_ok_if true c = refl
is_ok_if false c = refl

has_arm_lem :
    (name : ℕ → String) (count arms start : ℕ)
    → has_arm name count arms start
      ≡ (leb (5 + arms * 6) count && str_eq (name start) arm_pwrb_name)
unfolding has_arm
has_arm_lem name count arms start =
    ap (λ v. leb (5 + arms * 6) count && is_ok v) (validate_slaves_lem name start).1
    ∙ is_ok_if (str_eq (name start) arm_pwrb_name) (leb (5 + arms * 6) count)

-- What the detection gives, from the number of slaves and the names of the three boards: the wheels
-- are the slaves 2 to 5 and the joints of the first arm 7 to 11; those of the second arm are 13 to 17
-- if there is a first arm, and if there is none, they are 7 to 11.
pub detect_lem :
    (name : ℕ → String) (count : ℕ)
    → detect name count ≡ (
        if base_board name count
        then some (record {
          base = 2 ∷ 3 ∷ 4 ∷ 5 ∷ [];
          arm1 = if arm_board1 name count then some joints1 else none;
          arm2 =
              if arm_board2 name count
              then some (if arm_board1 name count then joints2 else joints1)
              else none;
          nr_arms =
              if arm_board2 name count
              then some 2
              else if arm_board1 name count
              then some 1
              else none;
        })
        else none)
unfolding detect detect_arm2 indices
detect_lem name count =
    let b : (leb 5 count && is_ok (validate_base_slaves name 1)) ≡ base_board name count =
      ap (λ v. leb 5 count && is_ok v) (validate_slaves_lem name 1).0
      ∙ is_ok_if (str_eq (name 1) wheel_pwrb_name) (leb 5 count) in
    let a1 : has_arm name count 1 6 ≡ arm_board1 name count = has_arm_lem name count 1 6 in
    let a2 : has_arm name count 2 12 ≡ arm_board2 name count = has_arm_lem name count 2 12 in
    rw (b, a1, a2)
      (elim (Bool-cases (base_board name count)) [
        | inr t ↦ rw t refl
        | inl t ↦ rw t (elim (Bool-cases (arm_board1 name count)) [
          | inl u ↦
              rw u (elim (Bool-cases (arm_board2 name count)) [
                | inl v ↦ rw v refl
                | inr v ↦ rw v refl
              ])
          | inr u ↦
              rw u (elim (Bool-cases (arm_board2 name count)) [
                | inl v ↦ rw v refl
                | inr v ↦ rw v refl
              ])
        ])
      ])
