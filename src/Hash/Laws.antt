-- ===== src/Hash/Laws.antt =====
-- What lookups find after additions and deletions.
use collision_avoidance.Base.{
  ◌≡◌, refl, ◌∙◌, ap, sym, false, String, none, some, List, [], ◌∷◌, ◌++◌, str_eq, str_eq_iff,
  str_eq_refl, if◌then◌else◌, arith,
}
use collision_avoidance.Hash.Defs.{Hash, lookup, without, IsDistinct, Absent}

str_eq_sym : (j k : String) → str_eq j k ≡ false → str_eq k j ≡ false
str_eq_sym j k e = ground (arith, str_eq_iff j k, str_eq_iff k j)

module _ {V : Type 0} where
  pub lookup-append :
      (k j : String) (v : V) (l : List (String × V))
      → lookup k l ≡ none
      → lookup j (l ++ (k, v) ∷ []) ≡ (if str_eq k j then some v else lookup j l)
  unfolding lookup
  lookup-append k j v [] e = refl
  lookup-append k j v ((i, w) ∷ l) e =
      ground (arith, lookup-append k j v l, str_eq_iff i j, str_eq_iff k j, str_eq_iff i k)

  pub lookup-without :
      (k j : String) (l : List (String × V))
      → lookup j (without k l) ≡ (if str_eq k j then none else lookup j l)
  unfolding lookup without
  lookup-without k j [] = ground arith
  lookup-without k j ((i, w) ∷ l) =
      ground (arith, lookup-without k j l, str_eq_iff i j, str_eq_iff k j, str_eq_iff i k)

  Absent-of_lookup : (k : String) (l : List (String × V)) → lookup k l ≡ none → Absent k l
  unfolding lookup
  Absent-of_lookup k [] e = tt
  Absent-of_lookup k ((j, v) ∷ l) e = ground (arith, Absent-of_lookup k l)

  Absent-append :
      (j k : String) (v : V) (l : List (String × V))
      → Absent j l
      → str_eq k j ≡ false
      → Absent j (l ++ (k, v) ∷ [])
  Absent-append j k v [] a e = (e, tt)
  Absent-append j k v ((i, w) ∷ l) (n, a) e = (n, Absent-append j k v l a e)

  IsDistinct-append :
      (k : String) (v : V) (l : List (String × V))
      → Absent k l
      → IsDistinct l
      → IsDistinct (l ++ (k, v) ∷ [])
  IsDistinct-append k v [] a d = (tt, tt)
  IsDistinct-append k v ((j, w) ∷ l) (n, a) (b, d) =
      (Absent-append j k v l b (str_eq_sym j k n), IsDistinct-append k v l a d)

  Absent-without : (j k : String) (l : List (String × V)) → Absent j l → Absent j (without k l)
  unfolding without
  Absent-without j k [] a = tt
  Absent-without j k ((i, w) ∷ l) (n, a) = ground (arith, Absent-without j k l a)

  IsDistinct-without :
      (k : String) (l : List (String × V)) → IsDistinct l → IsDistinct (without k l)
  unfolding without
  IsDistinct-without k [] d = tt
  IsDistinct-without k ((j, w) ∷ l) (b, d) =
      ground (arith, IsDistinct-without k l d, Absent-without j k l b)

  pub without-append :
      (k : String) (v : V) (l : List (String × V)) → Absent k l → without k (l ++ (k, v) ∷ []) ≡ l
  unfolding without
  without-append k v [] a = rw (str_eq_refl k)
  without-append k v ((j, w) ∷ l) (n, a) = rw n (ap (λ r. (j, w) ∷ r) (without-append k v l a))

module _ {V : Type 0} (H : Hash V) where
  open H use {Table, find, add, del, entries, entries-add, entries-del, find-entries}

  pub add-IsDistinct :
      (k : String) (v : V) (t : Table)
      → IsDistinct (entries t)
      → find k t ≡ none
      → IsDistinct (entries (add k v t))
  add-IsDistinct k v t d e = rw (entries-add k v t) (
      IsDistinct-append k v (entries t)
        (Absent-of_lookup k (entries t) (sym (find-entries k t d) ∙ e)) d)

  pub del-IsDistinct :
      (k : String) (t : Table) → IsDistinct (entries t) → IsDistinct (entries (del k t))
  del-IsDistinct k t d = rw (entries-del k t d) (IsDistinct-without k (entries t) d)

  pub find-add :
      (k j : String) (v : V) (t : Table)
      → IsDistinct (entries t)
      → find k t ≡ none
      → find j (add k v t) ≡ (if str_eq k j then some v else find j t)
  find-add k j v t d e =
      find-entries j (add k v t) (add-IsDistinct k v t d e)
      ∙ rw (entries-add k v t, find-entries j t d)
          (lookup-append k j v (entries t) (sym (find-entries k t d) ∙ e))

  pub find-del :
      (k j : String) (t : Table)
      → IsDistinct (entries t)
      → find j (del k t) ≡ (if str_eq k j then none else find j t)
  find-del k j t d =
      find-entries j (del k t) (del-IsDistinct k t d)
      ∙ rw (entries-del k t d, find-entries j t d) (lookup-without k j (entries t))

  -- Deleting the key that was added last restores the entries.
  pub del-add :
      (k : String) (v : V) (t : Table)
      → IsDistinct (entries t)
      → find k t ≡ none
      → entries (del k (add k v t)) ≡ entries t
  del-add k v t d e =
      entries-del k (add k v t) (add-IsDistinct k v t d e)
      ∙ rw (entries-add k v t) (
          without-append k v (entries t)
            (Absent-of_lookup k (entries t) (sym (find-entries k t d) ∙ e)))
