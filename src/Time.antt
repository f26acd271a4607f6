-- ===== src/Time.antt =====
-- Time values (src/ubx.c: `ubx_ts_cmp` to `ubx_ts_div`; `tsnorm` of std_blocks/trig/trig.c). A
-- `long` is an integer without bounds: an overflow of one is undefined in C, and Time.Bounds gives
-- ranges in which there is none. `/` and `%` round towards zero.
pub mod Norm
pub mod Order
pub mod Bounds
use collision_avoidance.Base.{
  ℕ, zero, suc, ◌+◌, ◌/◌, ◌%◌, ◌*◌, Bool, true, false, ◌&&◌, Option, none, some, if◌then◌else◌, leb,
}
use collision_avoidance.Base.Int.{ℤ, pos, negsuc, pos_part, neg_part, ◌+ℤ◌, ◌-ℤ◌, ltb_ℤ, sub_ℕ}

abbrev pub nsec_per_sec : ℕ
nsec_per_sec = 1_000_000_000

-- `struct ubx_timespec`
pub record Timespec : Type 0 where
  pub sec : ℤ
  pub nsec : ℤ

abbrev pub neg : ℕ → ℤ
neg zero = pos zero
neg (suc n) = negsuc n

-- `a / n` and `a % n` for n > 0, truncated as in C.
abbrev pub div_trunc : ℤ → ℕ → ℤ
div_trunc (pos a) n = pos (a / n)
div_trunc (negsuc a) n = neg (suc a / n)

abbrev pub mod_trunc : ℤ → ℕ → ℤ
mod_trunc (pos a) n = pos (a % n)
mod_trunc (negsuc a) n = neg (suc a % n)

abbrev pub leb_ℤ : ℤ → ℤ → Bool
leb_ℤ a b = leb (pos_part a + neg_part b) (pos_part b + neg_part a)

pub ts_cmp : Timespec → Timespec → ℤ
ts_cmp a b =
    if ltb_ℤ b.sec a.sec
    then pos 1
    else if ltb_ℤ a.sec b.sec
    then negsuc 0
    else if ltb_ℤ b.nsec a.nsec
    then pos 1
    else if ltb_ℤ a.nsec b.nsec
    then negsuc 0
    else pos 0

-- `ts->sec += ts->nsec / NSEC_PER_SEC; ts->nsec = ts->nsec % NSEC_PER_SEC`
pub spread : Timespec → Timespec
spread ts = record {
  sec = ts.sec +ℤ div_trunc ts.nsec nsec_per_sec;
  nsec = mod_trunc ts.nsec nsec_per_sec;
}

-- The four conditional steps of `ubx_ts_norm`. C's `% -n` is `% n`.
pub split_high : Timespec → Timespec
split_high ts = if leb_ℤ (pos nsec_per_sec) ts.nsec then spread ts else ts

pub split_low : Timespec → Timespec
split_low ts = if leb_ℤ ts.nsec (neg nsec_per_sec) then spread ts else ts

pub borrow : Timespec → Timespec
borrow ts =
    if ltb_ℤ (pos 0) ts.sec && ltb_ℤ ts.nsec (pos 0)
    then record { sec = ts.sec -ℤ pos 1; nsec = ts.nsec +ℤ pos nsec_per_sec }
    else ts

pub carry : Timespec → Timespec
carry ts =
    if ltb_ℤ ts.sec (pos 0) && ltb_ℤ (pos 0) ts.nsec
    then record { sec = ts.sec +ℤ pos 1; nsec = ts.nsec -ℤ pos nsec_per_sec }
    else ts

pub ts_norm : Timespec → Timespec
unfolding split_high split_low borrow carry spread
ts_norm ts = carry (borrow (split_low (split_high ts)))

pub ts_sub : Timespec → Timespec → Timespec
unfolding ts_norm
ts_sub a b = ts_norm (record { sec = a.sec -ℤ b.sec; nsec = a.nsec -ℤ b.nsec })

pub ts_add : Timespec → Timespec → Timespec
unfolding ts_norm
ts_add a b = ts_norm (record { sec = a.sec +ℤ b.sec; nsec = a.nsec +ℤ b.nsec })

-- The quotient by any divisor; a division by 0 is a fault.
pub quotient : ℤ → ℤ → Option ℤ
quotient a (pos zero) = none
quotient a (pos (suc n)) = some (div_trunc a (suc n))
quotient (pos a) (negsuc n) = some (neg (a / suc n))
quotient (negsuc a) (negsuc n) = some (pos (suc a / suc n))

-- Both fields of the result are computed from `sec`.
pub ts_div : Timespec → ℤ → Option Timespec
unfolding quotient
ts_div ts div = elim (quotient ts.sec div) [
  | none ↦ none
  | some q ↦ some (record { sec = q; nsec = q })
]

-- `tsnorm` of the triggers, on a `struct timespec`.
pub tsnorm : Timespec → Timespec
unfolding spread
tsnorm ts = if leb_ℤ (pos nsec_per_sec) ts.nsec then spread ts else ts
