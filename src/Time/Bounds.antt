-- ===== src/Time/Bounds.antt =====
-- Ranges in which the arithmetic of `ubx_ts_norm` does not overflow a 64-bit `long`.
use collision_avoidance.Base.{ℕ, ◌⊎◌, ◌+◌, ◌^◌, ◌<◌, ◌≤◌, ◌≡◌, arith}
use collision_avoidance.Base.Int.{ℤ, pos_part, neg_part, ◌+ℤ◌, ◌-ℤ◌, +ℤ_parts}
use collision_avoidance.Time.{
  Timespec, nsec_per_sec, div_trunc, split_high, split_low, borrow, carry, spread, ts_norm,
}
use collision_avoidance.Time.Norm.{div_mod_parts}

-- The values of a `long`.
abbrev pub IsLong : ℤ → Type 0
IsLong x = (pos_part x < 2 ^ 63) × (neg_part x ≤ 2 ^ 63)

pub record AreLong (ts : Timespec) : Type 0 where
  pub sec_fits : IsLong ts.sec
  pub nsec_fits : IsLong ts.nsec

-- At most 2 ^ 62 on either side of zero, and `n` seconds more.
abbrev Within : ℕ → Timespec → Type 0
Within n ts =
    (pos_part ts.sec + neg_part ts.sec ≤ 2 ^ 62 + n)
    × (pos_part ts.nsec + neg_part ts.nsec ≤ 2 ^ 62)

one_sided : (x : ℤ) → (pos_part x ≡ 0) ⊎ (neg_part x ≡ 0)
one_sided x = ground arith

spread-Within : (n : ℕ) (ts : Timespec) → Within n ts → Within (n + 2 ^ 33) (spread ts)
unfolding spread
spread-Within n ts h = omega (
  arith,
  div_mod_parts ts.nsec,
  +ℤ_parts ts.sec (div_trunc ts.nsec nsec_per_sec),
  one_sided (ts.sec +ℤ div_trunc ts.nsec nsec_per_sec),
)

split_high-Within : (n : ℕ) (ts : Timespec) → Within n ts → Within (n + 2 ^ 33) (split_high ts)
unfolding split_high
split_high-Within n ts h = ground (arith, spread-Within n ts h)

split_low-Within : (n : ℕ) (ts : Timespec) → Within n ts → Within (n + 2 ^ 33) (split_low ts)
unfolding split_low
split_low-Within n ts h = ground (arith, spread-Within n ts h)

borrow-Within : (n : ℕ) (ts : Timespec) → Within n ts → Within n (borrow ts)
unfolding borrow ◌+ℤ◌ ◌-ℤ◌
borrow-Within n ts h = ground arith

carry-Within : (n : ℕ) (ts : Timespec) → Within n ts → Within n (carry ts)
unfolding carry ◌+ℤ◌ ◌-ℤ◌
carry-Within n ts h = ground arith

Within-AreLong : (n : ℕ) (ts : Timespec) → n ≤ 2 ^ 35 → Within n ts → AreLong ts
Within-AreLong n ts small h = omega arith

-- If both fields are at most 2 ^ 62 on either side of zero, then the fields are values of a `long`
-- after each of the four steps of `ubx_ts_norm`.
pub ts_norm-AreLong :
    (ts : Timespec)
    → pos_part ts.sec + neg_part ts.sec ≤ 2 ^ 62
    → pos_part ts.nsec + neg_part ts.nsec ≤ 2 ^ 62
    → AreLong (split_high ts)
      × AreLong (split_low (split_high ts))
      × AreLong (borrow (split_low (split_high ts)))
      × AreLong (ts_norm ts)
unfolding ts_norm
ts_norm-AreLong ts hs hn =
    let h0 : Within 0 ts = (omega arith, hn) in
    let h1 = split_high-Within 0 ts h0 in
    let h2 = split_low-Within (0 + 2 ^ 33) (split_high ts) h1 in
    let h3 = borrow-Within (0 + 2 ^ 33 + 2 ^ 33) (split_low (split_high ts)) h2 in
    let h4 = carry-Within (0 + 2 ^ 33 + 2 ^ 33) (borrow (split_low (split_high ts))) h3 in
    (
      Within-AreLong (0 + 2 ^ 33) (split_high ts) (omega arith) h1,
      Within-AreLong (0 + 2 ^ 33 + 2 ^ 33) (split_low (split_high ts)) (omega arith) h2,
      Within-AreLong (0 + 2 ^ 33 + 2 ^ 33) (borrow (split_low (split_high ts))) (omega arith) h3,
      Within-AreLong (0 + 2 ^ 33 + 2 ^ 33) (ts_norm ts) (omega arith) h4,
    )
