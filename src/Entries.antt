-- ===== src/Entries.antt =====
-- The arrays of ports and of configurations of a block (src/ubx.c): entries by name, up to one whose
-- name is NULL. The loops are shared: those of `ubx_port_get` and `ubx_config_get`, and those of
-- `ubx_port_rm` and `ubx_config_rm`.
pub mod Laws
use collision_avoidance.Base.{
  ℕ, zero, suc, ◌+◌, Bool, true, false, String, Option, none, some, is_none, List, [], ◌∷◌, str_eq,
  if◌then◌else◌, set,
}
use collision_avoidance.Cells.{resize, count, take_out}

module _ {A : Type 0} (name_of : A → Option String) where
  -- `entry.name == NULL`
  abbrev pub is_end : A → Bool
  is_end x = is_none (name_of x)

  unfoldable pub find_entry : String → List A → Option A
  find_entry name [] = none
  find_entry name (x ∷ xs) = elim (name_of x) [
    | none ↦ none
    | some s ↦ if str_eq s name then some x else find_entry name xs
  ]

  -- The loop of a removal: the index of the first entry of a name.
  unfoldable pub index_of : String → List A → Option ℕ
  index_of name [] = none
  index_of name (x ∷ xs) =
      let rest = index_of name xs in
      elim (name_of x) [
        | none ↦ none
        | some s ↦
            if str_eq s name then some 0 else elim rest [ none ↦ none | some i ↦ some (suc i) ]
      ]

  -- The last entry takes the place of the one that is removed; `zero_entry` is a cleared entry.
  unfoldable pub remove_entry : A → String → List A → Option (List A)
  remove_entry zero_entry name xs = elim (index_of name xs) [
    | none ↦ none
    | some i ↦ some (take_out is_end zero_entry xs i)
  ]

  -- Two cells more than there are entries: the new entry and a cleared one.
  unfoldable pub append_entry : (ℕ → A) → A → A → List A → List A
  append_entry fill zero_entry x xs =
      let i = count is_end xs in set (set (resize fill (suc (suc i)) xs) i x) (suc i) zero_entry
