-- ===== src/Hash/Assoc.antt =====
-- A list of entries meets the interface.
use collision_avoidance.Base.{refl, String, List, [], ◌∷◌, ◌++◌, length}
use collision_avoidance.Hash.Defs.{Hash, lookup, without}

abbrev pub assoc : (V : Type 0) → Hash V
assoc V = record {
  Table = List (String × V);
  empty = [];
  find = lookup;
  add = λ k v t. t ++ (k, v) ∷ [];
  del = without;
  size = length;
  entries = λ t. t;
  entries-empty = refl;
  entries-add = λ k v t. refl;
  entries-del = λ k t d. refl;
  find-entries = λ k t d. refl;
  size-entries = λ t. refl;
}
