-- ===== src/Cells/Defs.antt =====
-- The loops and writes of src/ubx.c on marked arrays, for any type of cell.
use collision_avoidance.Base.{
  ℕ, zero, suc, ◌≡◌, Bool, true, false, ◌||◌, List, [], ◌∷◌, if◌then◌else◌, ◌-◌, ◌==◌, set, get_or,
}

module _ {ℓ} {A : Type ℓ} where
  -- `realloc` to `n` cells: new cells have any value.
  unfoldable pub resize : (ℕ → A) → ℕ → List A → List A
  resize fill zero xs = []
  resize fill (suc n) [] = fill n ∷ resize fill n []
  resize fill (suc n) (x ∷ xs) = x ∷ resize fill n xs

module _ {ℓ} {A : Type ℓ} (stop : A → Bool) where
  -- `for (n = 0; !stop(a[n]); n++);`
  unfoldable pub count : List A → ℕ
  count [] = 0
  count (x ∷ xs) = if stop x then 0 else suc (count xs)

  -- The elements before the mark.
  unfoldable pub elems : List A → List A
  elems [] = []
  elems (x ∷ xs) = if stop x then [] else x ∷ elems xs

  -- Whether there is a mark.
  unfoldable pub has_mark : List A → Bool
  has_mark [] = false
  has_mark (x ∷ xs) = stop x || has_mark xs

  abbrev pub IsTerminated : List A → Type 0
  IsTerminated xs = has_mark xs ≡ true

  -- Overwrite the cell at `i` by the last element, and that by the mark `z`; the last element itself
  -- is just overwritten by the mark.
  unfoldable pub take_out : A → List A → ℕ → List A
  take_out z xs i =
      let n = count xs in
      if i == n - 1 then set xs i z else set (set xs i (get_or xs (n - 1) z)) (n - 1) z
