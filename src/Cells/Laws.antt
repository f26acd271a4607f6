-- ===== src/Cells/Laws.antt =====
-- What appending and removing cells does to the elements of a marked array.
use collision_avoidance.Base.{
  ℕ, zero, suc, ◌-◌, ◌<◌, ◌≡◌, refl, ap, sym, ◌∙◌, inl, inr, Bool, true, false, List, [], ◌∷◌, ◌++◌,
  set, take, get_or, length, length-set, swap_remove, swap_remove-take_of, swap_remove_last,
  Bool-cases, ◌==◌, arith,
}
use collision_avoidance.Cells.Defs.{resize, count, elems, has_mark, IsTerminated, take_out}

module _ {ℓ} {A : Type ℓ} (stop : A → Bool) where
  pub length-elems : (xs : List A) → length (elems stop xs) ≡ count stop xs
  unfolding elems count
  length-elems [] = refl
  length-elems (x ∷ xs) = ground (arith, length-elems xs)

  elems-mark_first :
      (fill : ℕ → A) (xs : List A) (z : A)
      → stop z ≡ true
      → elems stop (set (resize fill 1 xs) 0 z) ≡ []
  unfolding elems resize
  elems-mark_first fill [] z hz = rw hz
  elems-mark_first fill (x ∷ xs) z hz = rw hz

  mark_first-IsTerminated :
      (fill : ℕ → A) (xs : List A) (z : A)
      → stop z ≡ true
      → IsTerminated stop (set (resize fill 1 xs) 0 z)
  unfolding has_mark resize
  mark_first-IsTerminated fill [] z hz = rw hz
  mark_first-IsTerminated fill (x ∷ xs) z hz = rw hz

  -- Writing `v` and a mark after the elements appends `v`.
  pub elems-append_cell :
      (fill : ℕ → A) (xs : List A) (k : ℕ) (v z : A)
      → stop v ≡ false
      → stop z ≡ true
      → k ≡ count stop xs
      → elems stop (set (set (resize fill (suc (suc k)) xs) k v) (suc k) z)
        ≡ elems stop xs ++ v ∷ []
  unfolding elems count resize
  elems-append_cell fill [] zero v z hv hz e = rw (hv, hz)
  elems-append_cell fill [] (suc k) v z hv hz e = absurd (omega arith)
  elems-append_cell fill (x ∷ xs) zero v z hv hz e = ground (arith, elems-mark_first fill xs z hz)
  elems-append_cell fill (x ∷ xs) (suc k) v z hv hz e = elim (Bool-cases (stop x)) [
    | inl t ↦ absurd (ground arith)
    | inr t ↦ rw t (ap (λ l. x ∷ l) (elems-append_cell fill xs k v z hv hz (ground arith)))
  ]

  pub append_cell-IsTerminated :
      (fill : ℕ → A) (xs : List A) (k : ℕ) (v z : A)
      → stop z ≡ true
      → k ≡ count stop xs
      → IsTerminated stop (set (set (resize fill (suc (suc k)) xs) k v) (suc k) z)
  unfolding has_mark count resize
  append_cell-IsTerminated fill [] zero v z hz e = ground arith
  append_cell-IsTerminated fill [] (suc k) v z hz e = absurd (omega arith)
  append_cell-IsTerminated fill (x ∷ xs) zero v z hz e =
      ground (arith, mark_first-IsTerminated fill xs z hz)
  append_cell-IsTerminated fill (x ∷ xs) (suc k) v z hz e = elim (Bool-cases (stop x)) [
    | inl t ↦ absurd (ground arith)
    | inr t ↦ ground (arith, append_cell-IsTerminated fill xs k v z hz)
  ]

  -- A mark at `i` cuts the elements there.
  pub elems-set_mark :
      (xs : List A) (i : ℕ) (z : A)
      → stop z ≡ true
      → i < count stop xs
      → elems stop (set xs i z) ≡ take i (elems stop xs)
  unfolding elems count
  elems-set_mark [] i z hz h = absurd (omega arith)
  elems-set_mark (x ∷ xs) zero z hz h = rw hz
  elems-set_mark (x ∷ xs) (suc i) z hz h = elim (Bool-cases (stop x)) [
    | inl e ↦ absurd (ground arith)
    | inr e ↦ rw e (ap (λ l. x ∷ l) (elems-set_mark xs i z hz (ground arith)))
  ]

  -- Any other write among the elements is a write to them.
  pub elems-set :
      (xs : List A) (i : ℕ) (v : A)
      → stop v ≡ false
      → i < count stop xs
      → elems stop (set xs i v) ≡ set (elems stop xs) i v
  unfolding elems count
  elems-set [] i v hv h = absurd (omega arith)
  elems-set (x ∷ xs) zero v hv h = ground arith
  elems-set (x ∷ xs) (suc i) v hv h = elim (Bool-cases (stop x)) [
    | inl e ↦ absurd (ground arith)
    | inr e ↦ rw e (ap (λ l. x ∷ l) (elems-set xs i v hv (ground arith)))
  ]

  -- A write of a mark, or among the elements, leaves a mark.
  pub set-IsTerminated :
      (xs : List A) (i : ℕ) (v : A)
      → i < count stop xs
      → IsTerminated stop xs
      → IsTerminated stop (set xs i v)
  unfolding has_mark count
  set-IsTerminated [] i v h t = cc
  set-IsTerminated (x ∷ xs) zero v h t = ground arith
  set-IsTerminated (x ∷ xs) (suc i) v h t = ground (arith, set-IsTerminated xs i v)

  get_or-elems :
      (xs : List A) (i : ℕ) (d : A) → i < count stop xs → get_or xs i d ≡ get_or (elems stop xs) i d
  unfolding elems count
  get_or-elems [] i d h = refl
  get_or-elems (x ∷ xs) zero d h = ground arith
  get_or-elems (x ∷ xs) (suc i) d h = ground (arith, get_or-elems xs i d)

  pub get_or_running :
      (xs : List A) (i : ℕ) (d : A) → i < count stop xs → stop (get_or xs i d) ≡ false
  unfolding count
  get_or_running [] i d h = absurd (omega arith)
  get_or_running (x ∷ xs) zero d h = ground arith
  get_or_running (x ∷ xs) (suc i) d h = ground (arith, get_or_running xs i d)

  pub count-set :
      (xs : List A) (i : ℕ) (v : A)
      → stop v ≡ false
      → i < count stop xs
      → count stop (set xs i v) ≡ count stop xs
  count-set xs i v hv h =
      sym (length-elems (set xs i v))
      ∙ ap length (elems-set xs i v hv h)
      ∙ length-set (elems stop xs) i v
      ∙ length-elems xs

  elems-overwrite :
      (z : A) (xs : List A) (i n : ℕ)
      → stop z ≡ true
      → i < suc n
      → suc n ≡ count stop xs
      → elems stop (set (set xs i (get_or xs n z)) n z) ≡ swap_remove (elems stop xs) i
  elems-overwrite z xs i n hz h e =
      elems-set_mark (set xs i v) n z hz (omega (arith, count-set xs i v running at_i))
      ∙ ap (take n) (elems-set xs i v running at_i)
      ∙ sym (
          swap_remove-take_of n (elems stop xs) i z (omega (arith, length-elems xs)) h
          ∙ ap (λ w. take n (set (elems stop xs) i w)) (sym (get_or-elems xs n z (omega arith))))
    where
      v : A
      v = get_or xs n z

      running : stop v ≡ false
      running = get_or_running xs n z (omega arith)

      at_i : i < count stop xs
      at_i = omega arith

  -- `take_out` removes one element, and puts the last one in its place.
  pub elems-take_out :
      (z : A) (xs : List A) (i : ℕ)
      → stop z ≡ true
      → i < count stop xs
      → elems stop (take_out stop z xs i) ≡ swap_remove (elems stop xs) i
  unfolding take_out
  elems-take_out z xs i hz h = elim (Bool-cases (i == count stop xs - 1)) [
    | inl e ↦ rw e (
        elems-set_mark xs i z hz h
        ∙ sym (swap_remove_last (elems stop xs) i (ground (arith, length-elems xs))))
    | inr e ↦ rw e (elems-overwrite z xs i (count stop xs - 1) hz (omega arith) (omega arith))
  ]

  pub take_out-IsTerminated :
      (z : A) (xs : List A) (i : ℕ)
      → i < count stop xs
      → IsTerminated stop xs
      → IsTerminated stop (take_out stop z xs i)
  unfolding take_out
  take_out-IsTerminated z xs i h t = elim (Bool-cases (i == count stop xs - 1)) [
    | inl e ↦ rw e (set-IsTerminated xs i z h t)
    | inr e ↦ rw e (set-IsTerminated (set xs i v) n z at_n (set-IsTerminated xs i v h t))
  ]
    where
      n : ℕ
      n = count stop xs - 1

      v : A
      v = get_or xs n z

      at_n : n < count stop (set xs i v)
      at_n = omega (arith, count-set xs i v (get_or_running xs n z (omega arith)) h)
