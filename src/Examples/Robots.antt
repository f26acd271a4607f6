-- ===== src/Examples/Robots.antt =====
-- A bus of controllers, and the base of a robot on it.
use collision_avoidance.Base.{
  ℕ, ◌≡◌, refl, ap, ◌+◌, ◌*◌, ◌/◌, ◌%◌, ◌^◌, inl, inr, ◌&&◌, String, none, some, List, [], ◌∷◌,
  ◌==◌, ltb, ◌-◌, Bool-cases, get_or, if◌then◌else◌, arith,
}
use collision_avoidance.Base.Int.{ℤ, pos, negsuc}
use collision_avoidance.Types.{ok}
use collision_avoidance.Boxed.{to_i32}
use collision_avoidance.Youbot.Mailbox.{Master, set_param, value_of, gap, sap}
use collision_avoidance.Youbot.Mailbox.Device.{IsDevice, set_param_lem}
use collision_avoidance.Youbot.Detect.{detect, wheel_pwrb_name, arm_pwrb_name}
use collision_avoidance.Youbot.Detect.Layout.{
  base_board, arm_board1, arm_board2, joints1, joints2, detect_lem,
}

-- The parameters of the controllers as unsigned words, and the reply that waits.
abbrev pub Wire : Type 0
Wire = (ℕ → ℕ → ℕ) × (ℕ → ℕ)

-- A reply of status 100 with a value.
abbrev reply : ℕ → ℕ → ℕ
reply n k =
    get_or (0 ∷ 0 ∷ 100 ∷ 0 ∷ n / 2 ^ 24 % 256 ∷ n / 2 ^ 16 % 256 ∷ n / 2 ^ 8 % 256 ∷ n % 256 ∷ [])
      k 0

abbrev sent_word : List ℕ → ℕ
sent_word msg =
    get_or msg 4 0 % 256 * 2 ^ 24
    + get_or msg 5 0 % 256 * 2 ^ 16
    + get_or msg 6 0 % 256 * 2 ^ 8
    + get_or msg 7 0 % 256

abbrev deliver : ℕ → List ℕ → Wire → ℤ × Wire
deliver s msg w =
    if get_or msg 1 0 == gap then (pos 8, (w.0, reply (w.0 s (get_or msg 2 0)))) else (
      pos 8,
      (
        (λ t q. if s == t && get_or msg 2 0 == q then sent_word msg else w.0 t q),
        reply (sent_word msg),
      ),
    )

abbrev pub bus : Master Wire
bus = record { mbxsend = deliver; mbxreceive = λ s w. (pos 8, w.1, w) }

abbrev param : Wire → ℕ → ℕ → ℤ
param w s p = to_i32 (w.0 s p)

reply-value : (n : ℕ) → value_of (reply n) ≡ to_i32 n
reply-value n =
    let e : (n / 2 ^ 24 % 256 % 256 * 2 ^ 24
            + n / 2 ^ 16 % 256 % 256 * 2 ^ 16
            + n / 2 ^ 8 % 256 % 256 * 2 ^ 8
            + n % 256 % 256)
          % 2 ^ 32
        ≡ n % 2 ^ 32 =
      omega arith in
    ap (λ u. if ltb u (2 ^ 31) then pos u else negsuc (2 ^ 32 - 1 - u)) e

abbrev after_sap : ℕ → ℕ → ℕ → ℕ → ℕ → ℕ → Wire → Wire
after_sap s p b4 b5 b6 b7 w = (deliver s (0 ∷ sap ∷ p ∷ 0 ∷ b4 ∷ b5 ∷ b6 ∷ b7 ∷ []) w).1

bus-IsDevice : IsDevice bus param
bus-IsDevice = record {
  answer_gap = λ s p b4 b5 b6 b7 w.
      ((w.0, reply (w.0 s p)), (refl, refl, refl, reply-value (w.0 s p), refl), λ t q. refl);
  answer_sap = λ s p b4 b5 b6 b7 w. (
    after_sap s p b4 b5 b6 b7 w,
    (
      refl,
      refl,
      refl,
      reply-value (b4 % 256 * 2 ^ 24 + b5 % 256 * 2 ^ 16 + b6 % 256 * 2 ^ 8 + b7 % 256),
      refl,
    ),
    λ t q. elim (Bool-cases (s == t && p == q)) [ inl e ↦ rw e refl | inr e ↦ rw e refl ],
  );
}

abbrev pub empty_bus : Wire
empty_bus = ((λ s p. 0), λ k. 0)

set_param_lem_example :
    (w' : Wire) × (set_param bus 3 158 (negsuc 6) (pos 0) empty_bus ≡ (ok, w'))
    × (param w' 3 158 ≡ negsuc 6)
    × ((t q : ℕ) → param w' t q ≡ (if 3 == t && 158 == q then negsuc 6 else param empty_bus t q))
set_param_lem_example =
    set_param_lem bus param 3 158 (negsuc 6) (pos 0) empty_bus bus-IsDevice
      (omega arith, omega arith) (omega arith)

-- A bus on which another board stands where the one of the first arm should be.
abbrev names : ℕ → String
names k = if k == 1 then wheel_pwrb_name else if k == 12 then arm_pwrb_name else "other"

detect_lem_example : detect names 17 ≡ (
    if base_board names 17
    then some (record {
      base = 2 ∷ 3 ∷ 4 ∷ 5 ∷ [];
      arm1 = if arm_board1 names 17 then some joints1 else none;
      arm2 =
          if arm_board2 names 17
          then some (if arm_board1 names 17 then joints2 else joints1)
          else none;
      nr_arms =
          if arm_board2 names 17 then some 2 else if arm_board1 names 17 then some 1 else none;
    })
    else none)
detect_lem_example = detect_lem names 17
