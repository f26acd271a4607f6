-- ===== src/Entries/Laws.antt =====
-- Lookup, addition and removal of entries.
use collision_avoidance.Base.{
  ℕ, suc, ◌<◌, ◌≡◌, refl, ◌∙◌, ap, false, String, Option, none, some, List, [], ◌∷◌, ◌++◌, str_eq,
  get_elem?, Perm, ◌⊎◌, inl, inr, Bool-cases, Option-cases, swap_remove-perm, arith,
}
use collision_avoidance.Cells.{
  count, elems, IsTerminated, elems-append_cell, append_cell-IsTerminated, elems-take_out,
  take_out-IsTerminated, take_out,
}
use collision_avoidance.Entries.{is_end, find_entry, index_of, remove_entry, append_entry}

-- The first of two that there is.
unfoldable pub or_else : {A : Type 0} → Option A → Option A → Option A
or_else none y = y
or_else (some x) y = some x

module _ {A : Type 0} (name_of : A → Option String) where
  find_entry-append :
      (name : String) (xs : List A) (x : A)
      → find_entry name_of name (elems (is_end name_of) xs ++ x ∷ [])
        ≡ or_else (find_entry name_of name xs) (find_entry name_of name (x ∷ []))
  unfolding find_entry elems or_else
  find_entry-append name [] x = refl
  find_entry-append name (y ∷ ys) x = elim (Option-cases (name_of y)) [
    | inl e ↦ rw (e, find_entry) refl
    | inr (s, e) ↦ ground (arith, find_entry-append name ys x)
  ]

  find_entry-elems :
      (name : String) (xs : List A)
      → find_entry name_of name xs ≡ find_entry name_of name (elems (is_end name_of) xs)
  unfolding find_entry elems
  find_entry-elems name [] = refl
  find_entry-elems name (y ∷ ys) = elim (Option-cases (name_of y)) [
    | inl e ↦ rw (e, find_entry) refl
    | inr (s, e) ↦ ground (arith, find_entry-elems name ys)
  ]

  -- A new entry stands after the others.
  pub elems-append_entry :
      (fill : ℕ → A) (z x : A) (xs : List A)
      → name_of z ≡ none
      → is_end name_of x ≡ false
      → elems (is_end name_of) (append_entry name_of fill z x xs)
        ≡ elems (is_end name_of) xs ++ x ∷ []
  unfolding append_entry
  elems-append_entry fill z x xs hz hx =
      elems-append_cell (is_end name_of) fill xs (count (is_end name_of) xs) x z hx (rw hz refl)
        refl

  pub append_entry-IsTerminated :
      (fill : ℕ → A) (z x : A) (xs : List A)
      → name_of z ≡ none
      → IsTerminated (is_end name_of) (append_entry name_of fill z x xs)
  unfolding append_entry
  append_entry-IsTerminated fill z x xs hz =
      append_cell-IsTerminated (is_end name_of) fill xs (count (is_end name_of) xs) x z (rw hz refl)
        refl

  -- Lookups find a new entry after all the old ones.
  pub find_entry-append_entry :
      (fill : ℕ → A) (z x : A) (xs : List A) (name : String)
      → name_of z ≡ none
      → is_end name_of x ≡ false
      → find_entry name_of name (append_entry name_of fill z x xs)
        ≡ or_else (find_entry name_of name xs) (find_entry name_of name (x ∷ []))
  find_entry-append_entry fill z x xs name hz hx =
      find_entry-elems name (append_entry name_of fill z x xs)
      ∙ ap (find_entry name_of name) (elems-append_entry fill z x xs hz hx)
      ∙ find_entry-append name xs x

  index_of_lem :
      (name : String) (xs : List A) (i : ℕ)
      → index_of name_of name xs ≡ some i
      → (i < count (is_end name_of) xs)
        × (x : A) × (find_entry name_of name xs ≡ some x)
        × (get_elem? (elems (is_end name_of) xs) i ≡ some x)
  unfolding index_of find_entry elems count
  index_of_lem name [] i e = cc
  index_of_lem name (y ∷ ys) i e = elim (Option-cases (name_of y)) [
    | inl u ↦ absurd (ground arith)
    | inr (s, u) ↦ elim (Bool-cases (str_eq s name)) [
      | inl t ↦
          let g : i ≡ 0 = ground arith in
          (ground arith, y, rw (u, t, find_entry) refl, ground arith)
      | inr f ↦ elim (Option-cases (index_of name_of name ys)) [
        | inl v ↦ absurd (ground arith)
        | inr (j, v) ↦
            let g : i ≡ suc j = ground arith in
            let (below, x, found, at_j) = index_of_lem name ys j v in
            (ground arith, x, rw (u, f, find_entry) found, ground arith)
      ]
    ]
  ]

  index_of-none :
      (name : String) (xs : List A)
      → index_of name_of name xs ≡ none
      → find_entry name_of name xs ≡ none
  unfolding index_of find_entry
  index_of-none name [] e = refl
  index_of-none name (y ∷ ys) e = elim (Option-cases (name_of y)) [
    | inl u ↦ rw (u, find_entry) refl
    | inr (s, u) ↦ elim (Bool-cases (str_eq s name)) [
      | inl t ↦ absurd (ground arith)
      | inr f ↦ elim (Option-cases (index_of name_of name ys)) [
        | inl v ↦ rw (u, f, find_entry) (index_of-none name ys v)
        | inr (j, v) ↦ absurd (ground arith)
      ]
    ]
  ]

  -- The two outcomes of a removal: the entry that a lookup finds is gone and the others stay, up to
  -- their order; or there is no entry of the name.
  abbrev pub RemovedEntry : String → List A → Option (List A) → Type 0
  RemovedEntry name xs r =
      ((x : A) × (xs' : List A) × (r ≡ some xs')
        × (find_entry name_of name xs ≡ some x)
        × Perm (x ∷ elems (is_end name_of) xs') (elems (is_end name_of) xs)
        × IsTerminated (is_end name_of) xs')
      ⊎ ((r ≡ none) × (find_entry name_of name xs ≡ none))

  pub remove_entry_lem :
      (z : A) (name : String) (xs : List A)
      → name_of z ≡ none
      → IsTerminated (is_end name_of) xs
      → RemovedEntry name xs (remove_entry name_of z name xs)
  unfolding remove_entry
  remove_entry_lem z name xs hz t = elim (Option-cases (index_of name_of name xs)) [
    | inl e ↦ inr (rw (e, remove_entry) refl, index_of-none name xs e)
    | inr (i, e) ↦
        let (below, x, found, at_i) = index_of_lem name xs i e in
        inl (
          x,
          take_out (is_end name_of) z xs i,
          rw (e, remove_entry) refl,
          found,
          rw (elems-take_out (is_end name_of) z xs i (rw hz refl) below)
              (swap_remove-perm (elems (is_end name_of) xs) i x at_i),
          take_out-IsTerminated (is_end name_of) z xs i below t,
        )
  ]
