-- ===== src/Hash/Defs.antt =====
-- A hash table by its interface.
use collision_avoidance.Base.{
  ℕ, ◌≡◌, false, String, Option, none, some, List, [], ◌∷◌, ◌++◌, str_eq, if◌then◌else◌, length,
}

module _ {V : Type 0} where
  -- The entry of a key.
  unfoldable pub lookup : String → List (String × V) → Option V
  lookup k [] = none
  lookup k ((j, v) ∷ l) = if str_eq j k then some v else lookup k l

  -- The entries but those of one key.
  unfoldable pub without : String → List (String × V) → List (String × V)
  without k [] = []
  without k ((j, v) ∷ l) = let rest = without k l in if str_eq j k then rest else (j, v) ∷ rest

  abbrev pub Absent : String → List (String × V) → Type 0
  Absent k [] = Unit {0}
  Absent k ((j, v) ∷ l) = (str_eq j k ≡ false) × Absent k l

  -- No key stands twice.
  abbrev pub IsDistinct : List (String × V) → Type 0
  IsDistinct [] = Unit {0}
  IsDistinct ((k, v) ∷ l) = Absent k l × IsDistinct l

-- `entries` is the order in which HASH_ITER visits: that of the additions.
pub record Hash (V : Type 0) : Type 1 where
  pub Table : Type 0
  pub empty : Table
  pub find : String → Table → Option V
  pub add : String → V → Table → Table
  pub del : String → Table → Table
  pub size : Table → ℕ
  pub entries : Table → List (String × V)
  pub entries-empty : entries empty ≡ []
  pub entries-add :
      (k : String) (v : V) (t : Table) → entries (add k v t) ≡ entries t ++ (k, v) ∷ []
  pub entries-del :
      (k : String) (t : Table) → IsDistinct (entries t) → entries (del k t) ≡ without k (entries t)
  pub find-entries :
      (k : String) (t : Table) → IsDistinct (entries t) → find k t ≡ lookup k (entries t)
  pub size-entries : (t : Table) → size t ≡ length (entries t)
