-- ===== src/Youbot/Mailbox/Device.antt =====
-- Setting a parameter of a controller that answers as its manual says.
use collision_avoidance.Base.{
  ℕ, ◌+◌, ◌*◌, ◌/◌, ◌%◌, ◌^◌, ◌≤◌, ◌<◌, ◌≡◌, refl, ◌∙◌, ap, ap₂, true, false, ◌&&◌, List, [], ◌∷◌,
  ◌==◌, if◌then◌else◌, arith,
}
use collision_avoidance.Base.Int.{ℤ, pos, negsuc, pos_part, neg_part}
use collision_avoidance.Types.{ok}
use collision_avoidance.Time.{leb_ℤ}
use collision_avoidance.Comm.{to_u32}
use collision_avoidance.Boxed.{to_i32}
use collision_avoidance.Youbot.Mailbox.{
  Master, send_mbx, set_param, message, value_of, byte_of, eq_ℤ, mbx_stat_ok, sap, gap,
}

-- The values of an `int32_t`.
abbrev pub IsInt32 : ℤ → Type 0
IsInt32 v = (pos_part v < 2 ^ 31) × (neg_part v ≤ 2 ^ 31)

-- The value in the last four bytes of a message.
abbrev pub word : ℕ → ℕ → ℕ → ℕ → ℤ
word b4 b5 b6 b7 = to_i32 (b4 % 256 * 2 ^ 24 + b5 % 256 * 2 ^ 16 + b6 % 256 * 2 ^ 8 + b7 % 256)

bytes_sum :
    (u : ℕ)
    → u < 2 ^ 32
    → u / 2 ^ 24 % 256 % 256 * 2 ^ 24
        + u / 2 ^ 16 % 256 % 256 * 2 ^ 16
        + u / 2 ^ 8 % 256 % 256 * 2 ^ 8
        + u / 2 ^ 0 % 256 % 256
      ≡ u
bytes_sum u h = omega arith

to_u32-bound : (v : ℤ) → to_u32 v < 2 ^ 32
to_u32-bound (pos n) = omega arith
to_u32-bound (negsuc n) = omega arith

to_i32-to_u32 : (v : ℤ) → IsInt32 v → to_i32 (to_u32 v) ≡ v
to_i32-to_u32 (pos n) h = ground arith
to_i32-to_u32 (negsuc n) h = ground arith

-- What is written to a message is read from it.
word-byte_of :
    (v : ℤ) → IsInt32 v → word (byte_of v 24) (byte_of v 16) (byte_of v 8) (byte_of v 0) ≡ v
word-byte_of v h = ap to_i32 (bytes_sum (to_u32 v) (to_u32-bound v)) ∙ to_i32-to_u32 v h

-- A call that the bus delivers and that the controller accepts, and its answer.
abbrev pub Accepts : {Wire : Type 0} → Master Wire → ℕ → List ℕ → Wire → ℤ → Wire → Type 0
Accepts master slave msg w answer w' =
    let sent = master.mbxsend slave msg w in
    let got = master.mbxreceive slave sent.1 in
    (leb_ℤ sent.0 (pos 0) ≡ false)
    × (leb_ℤ got.0 (pos 0) ≡ false)
    × (got.1 2 % 256 ≡ mbx_stat_ok)
    × (value_of got.1 ≡ answer)
    × (got.2 ≡ w')

-- Controllers with parameters, which answer a GAP with the value of a parameter, and store the value
-- of a SAP, which they answer with the value.
pub record IsDevice {Wire : Type 0} (master : Master Wire) (param : Wire → ℕ → ℕ → ℤ) : Type 0 where
  pub answer_gap :
      (s p b4 b5 b6 b7 : ℕ) (w : Wire)
      → (w' : Wire) × Accepts master s (0 ∷ gap ∷ p ∷ 0 ∷ b4 ∷ b5 ∷ b6 ∷ b7 ∷ []) w (param w s p) w'
        × ((t q : ℕ) → param w' t q ≡ param w t q)
  pub answer_sap :
      (s p b4 b5 b6 b7 : ℕ) (w : Wire)
      → (w' : Wire) × Accepts master s
          (0 ∷ sap ∷ p ∷ 0 ∷ b4 ∷ b5 ∷ b6 ∷ b7 ∷ [])
          w
          (word b4 b5 b6 b7)
          w'
        × ((t q : ℕ) → param w' t q ≡ (if s == t && p == q then word b4 b5 b6 b7 else param w t q))

module _ {Wire : Type 0} (master : Master Wire) where
  send_mbx-Accepts :
      (instr param slave : ℕ) (value answer : ℤ) (w w' : Wire)
      → Accepts master slave (message false instr param 0 value) w answer w'
      → send_mbx master false instr param slave 0 value w ≡ (ok, answer, w')
  unfolding send_mbx
  send_mbx-Accepts instr param slave value answer w w' (a, b, c, d, e) =
      rw (a, b, c) (ap₂ (λ v x. (ok, v, x)) d e)

eq_ℤ-refl : (v : ℤ) → eq_ℤ v v ≡ true
eq_ℤ-refl v = ground arith

set_param-calls :
    {Wire : Type 0} (master : Master Wire) (slave p : ℕ) (v rdval r : ℤ) (w w1 w2 w3 : Wire)
    → send_mbx master false gap p (slave % 2 ^ 16) 0 rdval w ≡ (ok, r, w1)
    → send_mbx master false sap p (slave % 2 ^ 16) 0 v w1 ≡ (ok, v, w2)
    → send_mbx master false gap p (slave % 2 ^ 16) 0 r w2 ≡ (ok, v, w3)
    → set_param master slave p v rdval w ≡ (ok, w3)
unfolding set_param
set_param-calls master slave p v rdval r w w1 w2 w3 a b c = rw (a, b, c, eq_ℤ-refl v) refl

-- On controllers that answer as they should, `set_param` of a value of 32 bits returns 0, and then
-- the parameter of the controller has the value and no other parameter has changed.
pub set_param_lem :
    {Wire : Type 0} (master : Master Wire) (param : Wire → ℕ → ℕ → ℤ) (slave p : ℕ) (v rdval : ℤ)
    (w : Wire)
    → IsDevice master param
    → IsInt32 v
    → slave < 2 ^ 16
    → (w' : Wire) × (set_param master slave p v rdval w ≡ (ok, w'))
      × (param w' slave p ≡ v)
      × ((t q : ℕ) → param w' t q ≡ (if slave == t && p == q then v else param w t q))
unfolding set_param
set_param_lem master param slave p v rdval w device fits small =
    let k : slave % 2 ^ 16 ≡ slave = omega arith in
    let (w1, a1, s1) =
      device.answer_gap slave p (byte_of rdval 24) (byte_of rdval 16) (byte_of rdval 8)
        (byte_of rdval 0) w in
    let e1 = send_mbx-Accepts master gap p slave rdval (param w slave p) w w1 a1 in
    let (w2, a2, s2) =
      device.answer_sap slave p (byte_of v 24) (byte_of v 16) (byte_of v 8) (byte_of v 0) w1 in
    let e2 =
      send_mbx-Accepts master sap p slave v
        (word (byte_of v 24) (byte_of v 16) (byte_of v 8) (byte_of v 0)) w1 w2 a2 in
    let r = param w slave p in
    let (w3, a3, s3) =
      device.answer_gap slave p (byte_of r 24) (byte_of r 16) (byte_of r 8) (byte_of r 0) w2 in
    let e3 = send_mbx-Accepts master gap p slave r (param w2 slave p) w2 w3 a3 in
    let u = word-byte_of v fits in
    let here : (slave == slave && p == p) ≡ true = ground arith in
    let now : param w2 slave p ≡ v = s2 slave p ∙ rw here u in
    let e2' = e2 ∙ ap (λ x. (ok, x, w2)) u in
    let e3' = e3 ∙ ap (λ x. (ok, x, w3)) now in
    (
      w3,
      set_param-calls master slave p v rdval r w w1 w2 w3 (rw k e1) (rw k e2') (rw k e3'),
      s3 slave p ∙ now,
      λ t q. s3 t q ∙ s2 t q ∙ rw u (ap (λ x. if slave == t && p == q then v else x) (s1 t q)),
    )
