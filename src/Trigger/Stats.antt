-- ===== src/Trigger/Stats.antt =====
-- The statistics on the durations of runs.
use collision_avoidance.Base.{
  ℕ, zero, suc, ◌+◌, ◌-◌, ◌*◌, ◌^◌, ◌≤◌, ◌<◌, ◌≡◌, refl, ◌∙◌, ap, sym, subst, inl, inr, List, [],
  ◌∷◌, length, All, arith,
}
use Prim.Native.Nat.{min, max}
use collision_avoidance.Base.Int.{pos, negsuc, pos_part, neg_part, +ℤ_parts, -ℤ_parts}
use native.Mathlib.Nat.{mul-le-mul_left}
use collision_avoidance.Types.{increment}
use collision_avoidance.Time.{Timespec, nsec_per_sec, ts_cmp, ts_add, ts_sub}
use collision_avoidance.Time.Norm.{
  above, below, total, total_parts, IsNormal, ts_add_lem, ts_sub_lem,
}
use collision_avoidance.Time.Order.{compare_parts}
use collision_avoidance.Trigger.{Tstat, first_tstats, add_run}

-- A normal time that is not negative.
pub record IsTime (ts : Timespec) : Type 0 where
  pub normal : IsNormal ts
  pub sec_nonneg : neg_part ts.sec ≡ 0
  pub nsec_nonneg : neg_part ts.nsec ≡ 0

IsTime-below : (ts : Timespec) → IsNormal ts → below ts ≤ above ts → IsTime ts
IsTime-below ts n h =
    let a = n.after_zero in
    let b = n.before_zero in
    let s = n.small in record { normal = n; sec_nonneg = ground arith; nsec_nonneg = ground arith }

-- The smallest and the largest bound the average from both sides.
pub record IsTstat (s : Tstat) : Type 0 where
  pub min_time : IsTime s.min
  pub max_time : IsTime s.max
  pub total_time : IsTime s.total
  pub low : s.cnt * above s.min ≤ above s.total
  pub high : above s.total ≤ s.cnt * above s.max

ts_sub-IsTime :
    (a b : Timespec)
    → IsTime a
    → IsTime b
    → above b ≤ above a
    → IsTime (ts_sub a b) × (above (ts_sub a b) + above b ≡ above a)
ts_sub-IsTime a b ta tb h =
    let (e, n) = ts_sub_lem a b in
    let pa = total_parts a in
    let pb = total_parts b in
    let p = total_parts (ts_sub a b) in
    let q = -ℤ_parts (total a) (total b) in
    let ep = ap pos_part e in
    let en = ap neg_part e in
    let u : above (ts_sub a b) + above b ≡ above a + below (ts_sub a b) = ground arith in
    let t : IsTime (ts_sub a b) = IsTime-below (ts_sub a b) n (omega arith) in
    let s = t.sec_nonneg in let r = t.nsec_nonneg in (t, omega arith)

ts_add-IsTime :
    (a b : Timespec)
    → IsTime a
    → IsTime b
    → IsTime (ts_add a b) × (above (ts_add a b) ≡ above a + above b)
ts_add-IsTime a b ta tb =
    let (e, n) = ts_add_lem a b in
    let pa = total_parts a in
    let pb = total_parts b in
    let p = total_parts (ts_add a b) in
    let q = +ℤ_parts (total a) (total b) in
    let ep = ap pos_part e in
    let en = ap neg_part e in
    let u : above (ts_add a b) ≡ above a + above b + below (ts_add a b) = ground arith in
    let t : IsTime (ts_add a b) = IsTime-below (ts_add a b) n (omega arith) in
    let s = t.sec_nonneg in let r = t.nsec_nonneg in (t, omega arith)

-- The choice of the earlier and of the later of two times.
earlier : Timespec → Timespec → Timespec
earlier d m = elim (ts_cmp d m) [ negsuc zero ↦ d | _ ↦ m ]

later : Timespec → Timespec → Timespec
later d m = elim (ts_cmp d m) [ pos (suc zero) ↦ d | _ ↦ m ]

earlier_lem :
    (d m : Timespec)
    → IsTime d
    → IsTime m
    → IsTime (earlier d m) × (above (earlier d m) ≡ min (above d) (above m))
unfolding earlier
earlier_lem d m td tm =
    let ds = td.sec_nonneg in
    let dn = td.nsec_nonneg in
    let ms = tm.sec_nonneg in
    let mn = tm.nsec_nonneg in
    elim (compare_parts d m td.normal tm.normal) [
      | inl (h, e) ↦ rw (earlier, e) (tm, omega arith)
      | inr (inl (h, e)) ↦ rw (earlier, e) (td, omega arith)
      | inr (inr (h, e, same)) ↦ rw (earlier, e) (tm, omega arith)
    ]

later_lem :
    (d m : Timespec)
    → IsTime d
    → IsTime m
    → IsTime (later d m) × (above (later d m) ≡ max (above d) (above m))
unfolding later
later_lem d m td tm =
    let ds = td.sec_nonneg in
    let dn = td.nsec_nonneg in
    let ms = tm.sec_nonneg in
    let mn = tm.nsec_nonneg in
    elim (compare_parts d m td.normal tm.normal) [
      | inl (h, e) ↦ rw (later, e) (td, omega arith)
      | inr (inl (h, e)) ↦ rw (later, e) (tm, omega arith)
      | inr (inr (h, e, same)) ↦ rw (later, e) (tm, omega arith)
    ]

-- A bound of an average stays one with one more value.
average_low : (n a t d x : ℕ) → n * a ≤ t → x ≤ a → x ≤ d → (n + 1) * x ≤ t + d
average_low n a t d x h xa xd = let m = mul-le-mul_left n xa in omega arith

average_high : (n a t d x : ℕ) → t ≤ n * a → a ≤ x → d ≤ x → t + d ≤ (n + 1) * x
average_high n a t d x h ax dx = let m = mul-le-mul_left n ax in omega arith

-- One more run, of two times in order.
add_run_lem :
    (s : Tstat) (start stop : Timespec)
    → IsTstat s
    → IsTime start
    → IsTime stop
    → above start ≤ above stop
    → s.cnt + 1 < 2 ^ 64
    → let s' = add_run s start stop in
      let dur = above stop - above start in
      IsTstat s'
      × (s'.cnt ≡ s.cnt + 1)
      × (above s'.total ≡ above s.total + dur)
      × (above s'.min ≡ min dur (above s.min))
      × (above s'.max ≡ max dur (above s.max))
unfolding add_run earlier later
add_run_lem s start stop valid ta tb h room =
    let dur = ts_sub stop start in
    let (td, ed) = ts_sub-IsTime stop start tb ta h in
    let (tt, et) = ts_add-IsTime s.total dur valid.total_time td in
    let (tl, el) = earlier_lem dur s.min td valid.min_time in
    let (tm, em) = later_lem dur s.max td valid.max_time in
    let c : increment s.cnt ≡ s.cnt + 1 = ground arith in
    let low = valid.low in
    let high = valid.high in
    (
      record {
        min_time = tl;
        max_time = tm;
        total_time = tt;
        low = rw c (
            subst (λ t. (s.cnt + 1) * above (earlier dur s.min) ≤ t) (sym et)
              (average_low s.cnt (above s.min) (above s.total) (above dur)
                (above (earlier dur s.min)) low (omega arith) (omega arith)));
        high = rw c (
            subst (λ t. t ≤ (s.cnt + 1) * above (later dur s.max)) (sym et)
              (average_high s.cnt (above s.max) (above s.total) (above dur)
                (above (later dur s.max)) high (omega arith) (omega arith)));
      },
      c,
      omega arith,
      el ∙ omega arith,
      em ∙ omega arith,
    )

-- The statistics after a list of runs, each with its start and its end, and the time spent in them.
unfoldable pub all_runs : Tstat → List (Timespec × Timespec) → Tstat
all_runs s [] = s
all_runs s (r ∷ rs) = all_runs (add_run s r.0 r.1) rs

unfoldable pub spent : List (Timespec × Timespec) → ℕ
spent [] = 0
spent (r ∷ rs) = (above r.1 - above r.0) + spent rs

abbrev pub IsRun : Timespec × Timespec → Type 0
IsRun r = IsTime r.0 × IsTime r.1 × (above r.0 ≤ above r.1)

all_runs_grow :
    (rs : List (Timespec × Timespec)) (s : Tstat)
    → IsTstat s
    → All IsRun rs
    → s.cnt + length rs < 2 ^ 64
    → let s' = all_runs s rs in
      IsTstat s' × (s'.cnt ≡ s.cnt + length rs) × (above s'.total ≡ above s.total + spent rs)
unfolding all_runs spent
all_runs_grow [] s valid all room = (valid, omega arith, omega arith)
all_runs_grow (r ∷ rs) s valid ((ta, tb, h), all) room =
    let (valid', c, t, lo, hi) = add_run_lem s r.0 r.1 valid ta tb h (omega arith) in
    let (v, n, e) = all_runs_grow rs (add_run s r.0 r.1) valid' all (omega arith) in
    (v, omega arith, omega arith)

IsTime-pos : (s n : ℕ) → n < nsec_per_sec → IsTime (record { sec = pos s; nsec = pos n })
IsTime-pos s n h = record {
  normal = record { small = omega arith; after_zero = inr refl; before_zero = inl refl };
  sec_nonneg = refl;
  nsec_nonneg = refl;
}

-- The statistics of fewer than 2 ^ 64 runs, from those that the trigger starts with, where each run
-- ends no earlier than it starts: the counter is the number of runs and the total is exactly the
-- time spent in them; smallest, largest and total are normal times, and the total is at least the
-- counter times the smallest and at most the counter times the largest.
pub all_runs_lem :
    (rs : List (Timespec × Timespec))
    → All IsRun rs
    → length rs < 2 ^ 64
    → let s = all_runs first_tstats rs in
      IsTstat s × (s.cnt ≡ length rs) × (above s.total ≡ spent rs)
all_runs_lem rs all room =
    let first : IsTstat first_tstats = record {
      min_time = IsTime-pos 999_999_999 999_999_999 (omega arith);
      max_time = IsTime-pos 0 0 (omega arith);
      total_time = IsTime-pos 0 0 (omega arith);
      low = omega arith;
      high = omega arith;
    } in
    let (v, n, e) = all_runs_grow rs first_tstats first all (omega arith) in
    (v, n ∙ omega arith, e ∙ omega arith)
