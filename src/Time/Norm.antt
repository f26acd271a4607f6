-- ===== src/Time/Norm.antt =====
-- Normalisation keeps the value and makes the fields canonical.
use collision_avoidance.Base.{ℕ, ◌+◌, ◌*◌, ◌<◌, ◌≡◌, ◌⊎◌, arith}
use collision_avoidance.Base.Int.{
  ℤ, pos, negsuc, pos_part, neg_part, ◌+ℤ◌, ◌-ℤ◌, +ℤ_parts, -ℤ_parts, sub_ℕ, eq_of_parts,
}
use collision_avoidance.Time.{
  Timespec, nsec_per_sec, div_trunc, mod_trunc, split_high, split_low, borrow, carry, ts_norm,
  ts_sub, ts_add, tsnorm, spread,
}

-- The value in nanoseconds, as a difference of two numbers.
abbrev pub above : Timespec → ℕ
above ts = pos_part ts.sec * nsec_per_sec + pos_part ts.nsec

abbrev pub below : Timespec → ℕ
below ts = neg_part ts.sec * nsec_per_sec + neg_part ts.nsec

-- The value in nanoseconds.
abbrev pub total : Timespec → ℤ
total ts = sub_ℕ (above ts) (below ts)

abbrev SameTotal : Timespec → Timespec → Type 0
SameTotal a b = above a + below b ≡ above b + below a

pub total_parts : (ts : Timespec) → pos_part (total ts) + below ts ≡ neg_part (total ts) + above ts
total_parts ts = ground arith

-- Less than a second of nanoseconds, of the sign of the seconds.
pub record IsNormal (ts : Timespec) : Type 0 where
  pub small : pos_part ts.nsec + neg_part ts.nsec < nsec_per_sec
  pub after_zero : (pos_part ts.sec ≡ 0) ⊎ (neg_part ts.nsec ≡ 0)
  pub before_zero : (neg_part ts.sec ≡ 0) ⊎ (pos_part ts.nsec ≡ 0)

abbrev Small : Timespec → Type 0
Small ts = pos_part ts.nsec + neg_part ts.nsec < nsec_per_sec

pub div_mod_parts :
    (a : ℤ)
    → (pos_part a
        ≡ pos_part (div_trunc a nsec_per_sec) * nsec_per_sec + pos_part (mod_trunc a nsec_per_sec))
      × (neg_part a
          ≡ neg_part (div_trunc a nsec_per_sec) * nsec_per_sec
            + neg_part (mod_trunc a nsec_per_sec))
      × (pos_part (mod_trunc a nsec_per_sec) + neg_part (mod_trunc a nsec_per_sec) < nsec_per_sec)
div_mod_parts (pos n) = ground arith
div_mod_parts (negsuc n) = ground arith

spread_lem : (ts : Timespec) → SameTotal (spread ts) ts × Small (spread ts)
unfolding spread
spread_lem ts =
    omega (arith, div_mod_parts ts.nsec, +ℤ_parts ts.sec (div_trunc ts.nsec nsec_per_sec))

split_high_lem :
    (ts : Timespec) → SameTotal (split_high ts) ts × (pos_part (split_high ts).nsec < nsec_per_sec)
unfolding split_high
split_high_lem ts = ground (arith, spread_lem ts)

split_low_lem :
    (ts : Timespec)
    → pos_part ts.nsec < nsec_per_sec
    → SameTotal (split_low ts) ts × Small (split_low ts)
unfolding split_low
split_low_lem ts h = ground (arith, spread_lem ts)

borrow_lem :
    (ts : Timespec)
    → Small ts
    → SameTotal (borrow ts) ts
      × Small (borrow ts)
      × ((pos_part (borrow ts).sec ≡ 0) ⊎ (neg_part (borrow ts).nsec ≡ 0))
unfolding borrow ◌+ℤ◌ ◌-ℤ◌
borrow_lem ts h = ground arith

carry_lem :
    (ts : Timespec)
    → Small ts
    → (pos_part ts.sec ≡ 0) ⊎ (neg_part ts.nsec ≡ 0)
    → SameTotal (carry ts) ts × IsNormal (carry ts)
unfolding carry ◌+ℤ◌ ◌-ℤ◌
carry_lem ts h k = ground arith

norm_parts : (ts : Timespec) → SameTotal (ts_norm ts) ts × IsNormal (ts_norm ts)
unfolding ts_norm
norm_parts ts =
    let t1 = split_high ts in
    let t2 = split_low t1 in
    let t3 = borrow t2 in
    let high = split_high_lem ts in
    let low = split_low_lem t1 high.1 in
    let up = borrow_lem t2 low.1 in
    let down = carry_lem t3 up.1 up.2 in (omega (arith, high.0, low.0, up.0, down.0), down.1)

SameTotal-total : (a b : Timespec) → SameTotal a b → total a ≡ total b
SameTotal-total a b h = ground arith

-- Normalising keeps the time and gives less than a second of nanoseconds, of the sign of the
-- seconds.
pub ts_norm_lem : (ts : Timespec) → (total (ts_norm ts) ≡ total ts) × IsNormal (ts_norm ts)
ts_norm_lem ts = let n = norm_parts ts in (SameTotal-total (ts_norm ts) ts n.0, n.1)

-- The sum of two times is exact and normal, also of times that are not normal.
pub ts_add_lem :
    (a b : Timespec) → (total (ts_add a b) ≡ total a +ℤ total b) × IsNormal (ts_add a b)
unfolding ts_add
ts_add_lem a b =
    let raw : Timespec = record { sec = a.sec +ℤ b.sec; nsec = a.nsec +ℤ b.nsec } in
    let n = norm_parts raw in
    (
      eq_of_parts _ _ (
          omega (
            arith,
            n.0,
            +ℤ_parts a.sec b.sec,
            +ℤ_parts a.nsec b.nsec,
            +ℤ_parts (total a) (total b),
            total_parts a,
            total_parts b,
            total_parts (ts_norm raw),
          )),
      n.1,
    )

-- The difference of two times is exact and normal, also of times that are not normal.
pub ts_sub_lem :
    (a b : Timespec) → (total (ts_sub a b) ≡ total a -ℤ total b) × IsNormal (ts_sub a b)
unfolding ts_sub
ts_sub_lem a b =
    let raw : Timespec = record { sec = a.sec -ℤ b.sec; nsec = a.nsec -ℤ b.nsec } in
    let n = norm_parts raw in
    (
      eq_of_parts _ _ (
          omega (
            arith,
            n.0,
            -ℤ_parts a.sec b.sec,
            -ℤ_parts a.nsec b.nsec,
            -ℤ_parts (total a) (total b),
            total_parts a,
            total_parts b,
            total_parts (ts_norm raw),
          )),
      n.1,
    )

tsnorm_parts :
    (ts : Timespec)
    → neg_part ts.nsec ≡ 0
    → SameTotal (tsnorm ts) ts
      × (neg_part (tsnorm ts).nsec ≡ 0)
      × (pos_part (tsnorm ts).nsec < nsec_per_sec)
unfolding tsnorm spread
tsnorm_parts ts h = ground (arith, spread_lem ts, div_mod_parts ts.nsec)

-- The triggers' `tsnorm` keeps the time, and for no negative nanoseconds gives less than a second
-- of them.
pub tsnorm_lem :
    (ts : Timespec)
    → neg_part ts.nsec ≡ 0
    → (total (tsnorm ts) ≡ total ts)
      × (neg_part (tsnorm ts).nsec ≡ 0)
      × (pos_part (tsnorm ts).nsec < nsec_per_sec)
tsnorm_lem ts h = let n = tsnorm_parts ts h in (SameTotal-total (tsnorm ts) ts n.0, n.1, n.2)
