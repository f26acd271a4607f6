-- ===== src/Random/Range.antt =====
-- The range of the numbers that the random block writes.
use collision_avoidance.Base.{
  ℕ, ◌+◌, ◌*◌, ◌%◌, ◌^◌, ◌≤◌, ◌<◌, ◌≡◌, refl, some, inl, inr, Bool-cases, ltb, ◌==◌, if◌then◌else◌,
  false, arith,
}
use native.Mathlib.Nat.{mod-lt, mod-eq_of_lt}
use collision_avoidance.Base.Int.{pos}
use collision_avoidance.Random.{int_max, rnd_value}

-- The same in numbers that no conversion changes.
in_range :
    (low high r r' : ℕ)
    → 0 < high
    → high ≤ int_max
    → 2 * low ≤ high
    → r' ≡ (if ltb high r then r % high else r)
    → let v = if ltb r' low then (low + r') % 2 ^ 32 % high else r' in (low ≤ v) × (v ≤ high)
in_range low high r r' positive fits half e =
    let m = mod-lt r positive in
    let small : r' ≤ high = ground arith in
    elim (Bool-cases (ltb r' low)) [
      | inr t ↦ rw t (ground arith, small)
      | inl t ↦
          let w : (low + r') % 2 ^ 32 ≡ low + r' = ground arith in
          let k : (low + r') % high ≡ low + r' = mod-eq_of_lt (ground arith) in
          rw (t, w, k) (omega arith, ground arith)
    ]

-- With a lower limit that is at most half of the upper one, which is not 0 and fits in an `int`,
-- every number that `random` may give becomes one between the limits.
pub rnd_value-InRange :
    (low high random : ℕ)
    → 0 < high
    → high ≤ int_max
    → 2 * low ≤ high
    → random ≤ int_max
    → (v : ℕ) × (rnd_value (record { min = pos low; max = pos high }) random ≡ some v)
      × (low ≤ v)
      × (v ≤ high)
unfolding rnd_value
rnd_value-InRange low high random positive fits half small =
    let l : low % 2 ^ 32 ≡ low = omega arith in
    let h : high % 2 ^ 32 ≡ high = omega arith in
    let r : random % 2 ^ 32 ≡ random = omega arith in
    let z : (high == 0) ≡ false = ground arith in
    let i = in_range low high random _ positive fits half refl in
    rw (l, h, r, z) (_, refl, i.0, i.1)
