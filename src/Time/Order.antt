-- ===== src/Time/Order.antt =====
-- The order of times, and what the division computes.
use collision_avoidance.Base.{
  ℕ, ◌+◌, ◌/◌, ◌<◌, ◌≡◌, ◌≢◌, ◌↔◌, ◌⊎◌, refl, inl, inr, some, arith, subst, sym,
}
use collision_avoidance.Base.Int.{ℤ, pos, negsuc, pos_part, neg_part}
use native.Mathlib.Decide.{dec_lt}
use collision_avoidance.Time.{Timespec, ts_cmp, ts_div, quotient}
use collision_avoidance.Time.Norm.{above, below, total, total_parts, IsNormal}

infix 50 ◌<ℤ◌
abbrev pub ◌<ℤ◌ : ℤ → ℤ → Type 0
x <ℤ y = pos_part x + neg_part y < pos_part y + neg_part x

parts_greater :
    (a b : Timespec)
    → IsNormal a
    → IsNormal b
    → above b + below a < above a + below b
    → ts_cmp a b ≡ pos 1
unfolding ts_cmp
parts_greater a b na nb h = ground arith

parts_less :
    (a b : Timespec)
    → IsNormal a
    → IsNormal b
    → above a + below b < above b + below a
    → ts_cmp a b ≡ negsuc 0
unfolding ts_cmp
parts_less a b na nb h = ground arith

sec_equal :
    (a b : Timespec)
    → IsNormal a
    → IsNormal b
    → above a + below b ≡ above b + below a
    → (a.sec ≡ b.sec) × (a.nsec ≡ b.nsec)
sec_equal a b na nb h = ground arith

cmp_self : (a : Timespec) → ts_cmp a a ≡ pos 0
unfolding ts_cmp
cmp_self a = ground arith

equal_of_parts :
    (a b : Timespec) → IsNormal a → IsNormal b → above a + below b ≡ above b + below a → a ≡ b
equal_of_parts a b na nb h = let e = sec_equal a b na nb h in ground (arith, e)

irrefl : (a b : Timespec) → a ≡ b → ¬ (above b + below a < above a + below b)
irrefl a b e h = absurd (ground arith)

pub compare_parts :
    (a b : Timespec)
    → IsNormal a
    → IsNormal b
    → ((above b + below a < above a + below b) × (ts_cmp a b ≡ pos 1))
      ⊎ ((above a + below b < above b + below a) × (ts_cmp a b ≡ negsuc 0))
      ⊎ ((above a + below b ≡ above b + below a) × (ts_cmp a b ≡ pos 0) × (a ≡ b))
compare_parts a b na nb = elim (dec_lt (above b + below a) (above a + below b)) [
  | yes h ↦ inl (h, parts_greater a b na nb h)
  | no g ↦ elim (dec_lt (above a + below b) (above b + below a)) [
    | yes h ↦ inr (inl (h, parts_less a b na nb h))
    | no l ↦
        let e : above a + below b ≡ above b + below a = omega arith in
        let same = equal_of_parts a b na nb e in
        inr (inr (e, subst (λ x. ts_cmp a x ≡ pos 0) same (cmp_self a), same))
  ]
]

-- On normal times the comparison decides the order of the values: 1 exactly when the first is
-- later, -1 exactly when it is earlier, 0 exactly when the two are the same time, which then has the
-- same two fields.
pub ts_cmp_lem :
    (a b : Timespec)
    → IsNormal a
    → IsNormal b
    → ((ts_cmp a b ≡ pos 1) ↔ (total b <ℤ total a))
      × ((ts_cmp a b ≡ negsuc 0) ↔ (total a <ℤ total b))
      × ((ts_cmp a b ≡ pos 0) ↔ (a ≡ b))
ts_cmp_lem a b na nb = decided (compare_parts a b na nb)
  where
    decided :
        ((above b + below a < above a + below b) × (ts_cmp a b ≡ pos 1))
          ⊎ ((above a + below b < above b + below a) × (ts_cmp a b ≡ negsuc 0))
          ⊎ ((above a + below b ≡ above b + below a) × (ts_cmp a b ≡ pos 0) × (a ≡ b))
        → ((ts_cmp a b ≡ pos 1) ↔ (total b <ℤ total a))
          × ((ts_cmp a b ≡ negsuc 0) ↔ (total a <ℤ total b))
          × ((ts_cmp a b ≡ pos 0) ↔ (a ≡ b))
    decided (inl (h, e)) = (
      ((λ _. omega (arith, total_parts a, total_parts b)), λ _. e),
      ((λ f. cc), λ l. absurd (omega (arith, total_parts a, total_parts b))),
      ((λ f. cc), λ same. absurd (irrefl a b same h)),
    )
    decided (inr (inl (h, e))) = (
      ((λ f. cc), λ l. absurd (omega (arith, total_parts a, total_parts b))),
      ((λ _. omega (arith, total_parts a, total_parts b)), λ _. e),
      ((λ f. cc), λ same. absurd (irrefl b a (sym same) (omega arith))),
    )
    decided (inr (inr (h, e, same))) = (
      ((λ f. cc), λ l. absurd (omega (arith, total_parts a, total_parts b))),
      ((λ f. cc), λ l. absurd (omega (arith, total_parts a, total_parts b))),
      ((λ _. same), λ _. e),
    )

-- Dividing a time by 1 gives back the time only if its two fields are equal: the nanoseconds of the
-- result are computed from the seconds.
pub ts_div_one :
    (s n : ℕ)
    → s ≢ n
    → (r : Timespec) × (ts_div (record { sec = pos s; nsec = pos n }) (pos 1) ≡ some r)
      × (r.sec ≡ pos s)
      × (r.nsec ≢ pos n)
unfolding ts_div quotient
ts_div_one s n h =
    (record { sec = pos (s / 1); nsec = pos (s / 1) }, refl, ground arith, λ e. h (ground arith))
