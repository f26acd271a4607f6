-- ===== src/Youbot/Arm/Joints.antt =====
-- The joints of an arm in one cycle of its calibration (the loop of `arm_move_to_lim`).
use collision_avoidance.Base.{
  Bool, true, false, ◌&&◌, ◌||◌, List, [], ◌∷◌, map, length, if◌then◌else◌, refl, ap₂, ◌≡◌,
  Bool-cases, inl, inr,
}
use native.Mathlib.Omega.{arith}
use collision_avoidance.Base.Int.{ℤ, pos, ltb_ℤ}
use collision_avoidance.Youbot.{MotorInfo}
use collision_avoidance.Youbot.Arm.{move_joint, move_joints}

-- The joints that have been at their limits before, or whose current is above the bound now.
unfoldable pub limits_reached : List ℤ → List MotorInfo → List Bool → List Bool
limits_reached [] ws ats = []
limits_reached (h ∷ highs) [] ats = []
limits_reached (h ∷ highs) (w ∷ ws) [] = []
limits_reached (h ∷ highs) (w ∷ ws) (a ∷ more) =
    (ltb_ℤ h w.msr_cur || a) ∷ limits_reached highs ws more

-- What the joints are told while they move: 0 above the bound, the commanded value for those that have
-- not reached their limits, and what it was for the others.
unfoldable pub told : List ℤ → List ℤ → List MotorInfo → List Bool → List ℤ
told [] seeks ws ats = []
told (h ∷ highs) [] ws ats = []
told (h ∷ highs) (s ∷ seeks) [] ats = []
told (h ∷ highs) (s ∷ seeks) (w ∷ ws) [] = []
told (h ∷ highs) (s ∷ seeks) (w ∷ ws) (a ∷ more) =
    (if ltb_ℤ h w.msr_cur then pos 0 else (if a then w.cmd_val else s)) ∷ told highs seeks ws more

-- The bounds on the currents at the limits, in mA.
abbrev pub current_bounds : List ℤ
current_bounds = pos 1000 ∷ pos 1500 ∷ pos 1000 ∷ pos 500 ∷ pos 400 ∷ []

unfoldable pub every : List Bool → Bool
every [] = true
every (b ∷ bs) = b && every bs

move_joint-reached :
    (h s : ℤ) → (w : MotorInfo) → (a : Bool) → (move_joint h s w a).1 ≡ ltb_ℤ h w.msr_cur || a
unfolding move_joint
move_joint-reached h s w a = ground arith

move_joint-told :
    (h s : ℤ) (w : MotorInfo) (a : Bool)
    → (move_joint h s w a).0.cmd_val
      ≡ (if ltb_ℤ h w.msr_cur then pos 0 else (if a then w.cmd_val else s))
unfolding move_joint
move_joint-told h s w true = elim (Bool-cases (ltb_ℤ h w.msr_cur)) [
  | inl t ↦ rw t refl
  | inr t ↦ rw t refl
]
move_joint-told h s w false = elim (Bool-cases (ltb_ℤ h w.msr_cur)) [
  | inl t ↦ rw t refl
  | inr t ↦ rw t refl
]

pub move_joints-told :
    (highs seeks : List ℤ) (ws : List MotorInfo) (ats : List Bool)
    → length seeks ≡ length highs
    → length ws ≡ length highs
    → length ats ≡ length highs
    → map (λ w. w.cmd_val) (move_joints highs seeks ws ats).0 ≡ told highs seeks ws ats
unfolding move_joints told
move_joints-told [] seeks [] [] ls lw la = refl
move_joints-told [] seeks (w ∷ ws) ats ls lw la = ground arith
move_joints-told [] seeks [] (a ∷ more) ls lw la = ground arith
move_joints-told (h ∷ highs) seeks [] ats ls lw la = ground arith
move_joints-told (h ∷ highs) seeks (w ∷ ws) [] ls lw la = ground arith
move_joints-told (h ∷ highs) [] (w ∷ ws) (a ∷ more) ls lw la = ground arith
move_joints-told (h ∷ highs) (s ∷ seeks) (w ∷ ws) (a ∷ more) ls lw la =
    ap₂ ◌∷◌ (move_joint-told h s w a)
      (move_joints-told highs seeks ws more (omega arith) (omega arith) (omega arith))

-- The loop over the joints marks those that have reached their limits.
pub move_joints-limits_reached :
    (highs seeks : List ℤ)
    → (ws : List MotorInfo) → (ats : List Bool) → length seeks ≡ length highs
    → length ws ≡ length highs
    → length ats ≡ length highs
    → ((move_joints highs seeks ws ats).1 ≡ limits_reached highs ws ats)
      × ((move_joints highs seeks ws ats).2 ≡ every (limits_reached highs ws ats))
unfolding move_joints limits_reached every
move_joints-limits_reached [] seeks [] [] ls lw la = (refl, refl)
move_joints-limits_reached [] seeks (w ∷ ws) ats ls lw la = (ground arith, ground arith)
move_joints-limits_reached [] seeks [] (a ∷ more) ls lw la = (ground arith, ground arith)
move_joints-limits_reached (h ∷ highs) seeks [] ats ls lw la = (ground arith, ground arith)
move_joints-limits_reached (h ∷ highs) seeks (w ∷ ws) [] ls lw la = (ground arith, ground arith)
move_joints-limits_reached (h ∷ highs) [] (w ∷ ws) (a ∷ more) ls lw la =
    (ground arith, ground arith)
move_joints-limits_reached (h ∷ highs) (s ∷ seeks) (w ∷ ws) (a ∷ more) ls lw la =
    let rest =
      move_joints-limits_reached highs seeks ws more (omega arith) (omega arith) (omega arith) in
    let first = move_joint-reached h s w a in (rw (first, rest.0) refl, rw (first, rest.1) refl)

pub length-limits_reached :
    (highs : List ℤ)
    → (ws : List MotorInfo) → (ats : List Bool) → length ws ≡ length highs
    → length ats ≡ length highs
    → length (limits_reached highs ws ats) ≡ length highs
unfolding limits_reached
length-limits_reached [] ws ats lw la = refl
length-limits_reached (h ∷ highs) [] ats lw la = ground arith
length-limits_reached (h ∷ highs) (w ∷ ws) [] lw la = ground arith
length-limits_reached (h ∷ highs) (w ∷ ws) (a ∷ more) lw la =
    let rest = length-limits_reached highs ws more (omega arith) (omega arith) in omega arith

-- What has been reached stays reached.
pub every-limits_reached :
    (highs : List ℤ)
    → (ws : List MotorInfo) → (ats : List Bool) → every ats ≡ true
    → every (limits_reached highs ws ats) ≡ true
unfolding limits_reached every
every-limits_reached [] ws ats e = refl
every-limits_reached (h ∷ highs) [] ats e = refl
every-limits_reached (h ∷ highs) (w ∷ ws) [] e = refl
every-limits_reached (h ∷ highs) (w ∷ ws) (false ∷ more) e = ground arith
every-limits_reached (h ∷ highs) (w ∷ ws) (true ∷ more) e =
    let rest = every-limits_reached highs ws more e in
    elim (Bool-cases (ltb_ℤ h w.msr_cur)) [ inl t ↦ rw (t, rest) refl | inr t ↦ rw (t, rest) refl ]
