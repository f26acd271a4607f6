-- ===== src/Registry/TypeLaws.antt =====
-- Registration, lookup and removal of types.
use collision_avoidance.Base.{
  ℕ, suc, ◌<◌, ◌≤◌, ◌^◌, ◌≡◌, refl, ◌∙◌, Bool, true, false, String, Option, none, some, List, [],
  ◌∷◌, ◌++◌, str_eq, str_eq_refl, if◌then◌else◌, Bool-cases, Option-cases, inl, inr, arith,
}
use collision_avoidance.Base.Int.{ℤ}
use collision_avoidance.Hash.{
  Hash, IsDistinct, without, add-IsDistinct, del-IsDistinct, find-add, del-add,
}
use collision_avoidance.Types.{UbxType, increment, ok, failed}
use collision_avoidance.Registry.{
  TypeRef, TypeTable, type_register, register_fresh, type_unregister, type_get,
}

-- The entries come in the order of their sequence numbers, between `lo` and `hi`.
abbrev pub Ordered : ℕ → ℕ → List (String × TypeRef) → Type 0
Ordered lo hi [] = lo ≤ hi
Ordered lo hi ((k, r) ∷ l) = (lo ≤ r.seqid) × Ordered (suc r.seqid) hi l

-- Every type is filed under its own name.
abbrev pub Named : List (String × TypeRef) → Type 0
Named [] = Unit {0}
Named ((k, r) ∷ l) = (k ≡ r.type_ptr.name) × Named l

-- A well-formed table of types: no name twice, each type under its name, and sequence numbers that
-- grow in the order of registration and stay below the next one.
pub record IsValid (T : Hash TypeRef) (n : TypeTable T) : Type 0 where
  pub distinct : IsDistinct (T.entries n.types)
  pub named : Named (T.entries n.types)
  pub ordered : Ordered 0 n.cur_seqid (T.entries n.types)

Ordered-append :
    (lo hi : ℕ) (l : List (String × TypeRef)) (k : String) (r : TypeRef)
    → Ordered lo hi l
    → r.seqid ≡ hi
    → Ordered lo (suc hi) (l ++ (k, r) ∷ [])
Ordered-append lo hi [] k r h e = omega arith
Ordered-append lo hi ((j, q) ∷ l) k r (h, g) e = (h, Ordered-append (suc q.seqid) hi l k r g e)

Ordered-weaken :
    (lo lo' hi : ℕ) (l : List (String × TypeRef)) → lo ≤ lo' → Ordered lo' hi l → Ordered lo hi l
Ordered-weaken lo lo' hi [] e h = omega arith
Ordered-weaken lo lo' hi ((j, q) ∷ l) e (h, g) = (omega arith, g)

Ordered-without :
    (k : String) (lo hi : ℕ) (l : List (String × TypeRef))
    → Ordered lo hi l
    → Ordered lo hi (without k l)
unfolding without
Ordered-without k lo hi [] h = h
Ordered-without k lo hi ((j, q) ∷ l) (h, g) =
    let rest = Ordered-without k (suc q.seqid) hi l g in
    elim (Bool-cases (str_eq j k)) [
      | inl e ↦ rw e (Ordered-weaken lo (suc q.seqid) hi (without k l) (omega arith) rest)
      | inr e ↦ rw e (h, rest)
    ]

Named-append :
    (l : List (String × TypeRef)) (r : TypeRef) → Named l → Named (l ++ (r.type_ptr.name, r) ∷ [])
Named-append [] r h = (refl, tt)
Named-append (e ∷ l) r h = (h.0, Named-append l r h.1)

Named-without : (k : String) (l : List (String × TypeRef)) → Named l → Named (without k l)
unfolding without
Named-without k [] h = h
Named-without k ((j, q) ∷ l) (h, g) = ground (arith, Named-without k l g)

module _ (T : Hash TypeRef) where
  unregister_found :
      (name : String) (n : TypeTable T) (ref : TypeRef)
      → T.find name n.types ≡ some ref
      → type_unregister T name n ≡ (some ref.type_ptr, record n { types = T.del name n.types })
  unfolding type_unregister
  unregister_found name n ref e = rw (e, type_unregister)

  unregister_missing :
      (name : String) (n : TypeTable T)
      → T.find name n.types ≡ none
      → type_unregister T name n ≡ (none, n)
  unfolding type_unregister
  unregister_missing name n e = rw (e, type_unregister)

  removed-IsValid :
      (name : String) (n : TypeTable T)
      → IsValid T n
      → IsValid T (record n { types = T.del name n.types })
  removed-IsValid name n v = record {
    distinct = del-IsDistinct T name n.types v.distinct;
    named =
        rw (T.entries-del name n.types v.distinct) (Named-without name (T.entries n.types) v.named);
    ordered =
        rw (T.entries-del name n.types v.distinct)
          (Ordered-without name 0 n.cur_seqid (T.entries n.types) v.ordered);
  }

  -- Removing a type keeps the table well formed, whether or not the name is there.
  pub type_unregister-IsValid :
      (name : String) (n : TypeTable T) → IsValid T n → IsValid T (type_unregister T name n).1
  type_unregister-IsValid name n v = elim (Option-cases (T.find name n.types)) [
    | inl e ↦ rw (unregister_missing name n e) v
    | inr (ref, e) ↦ rw (unregister_found name n ref e) (removed-IsValid name n v)
  ]

module _ (T : Hash TypeRef) (md5 : String → List ℕ) where
  abbrev entry : UbxType → TypeTable T → TypeRef
  entry t n = record { type_ptr = t; seqid = n.cur_seqid; hash = md5 t.name }

  abbrev added : UbxType → TypeTable T → TypeTable T
  added t n = record { types = T.add t.name (entry t n) n.types; cur_seqid = increment n.cur_seqid }

  register_taken :
      (t : UbxType) (allocated : Bool) (n : TypeTable T) (ref : TypeRef)
      → T.find t.name n.types ≡ some ref
      → type_register T md5 (some t) allocated n ≡ (failed, n)
  unfolding type_register
  register_taken t allocated n ref e = rw (e, type_register)

  register_new :
      (t : UbxType) (allocated : Bool) (n : TypeTable T)
      → T.find t.name n.types ≡ none
      → type_register T md5 (some t) allocated n
        ≡ (if allocated then (ok, added t n) else (failed, n))
  unfolding type_register register_fresh
  register_new t true n e = rw (e, type_register)
  register_new t false n e = rw (e, type_register)

  added-IsValid :
      (t : UbxType) (n : TypeTable T)
      → suc n.cur_seqid < 2 ^ 64
      → IsValid T n
      → T.find t.name n.types ≡ none
      → IsValid T (added t n)
  added-IsValid t n small v e =
      let step : increment n.cur_seqid ≡ suc n.cur_seqid = omega arith in
      record {
        distinct = add-IsDistinct T t.name (entry t n) n.types v.distinct e;
        named =
            rw (T.entries-add t.name (entry t n) n.types)
              (Named-append (T.entries n.types) (entry t n) v.named);
        ordered =
            rw (T.entries-add t.name (entry t n) n.types, step)
              (Ordered-append 0 n.cur_seqid (T.entries n.types) t.name (entry t n) v.ordered refl);
      }

  -- Registration keeps the table well formed, on every outcome, while the counter of sequence
  -- numbers has not reached its last value.
  pub type_register-IsValid :
      (t? : Option UbxType) (allocated : Bool) (n : TypeTable T)
      → suc n.cur_seqid < 2 ^ 64
      → IsValid T n
      → IsValid T (type_register T md5 t? allocated n).1
  unfolding type_register
  type_register-IsValid none allocated n small v = v
  type_register-IsValid (some t) allocated n small v = elim (Option-cases (T.find t.name n.types)) [
    | inr (ref, e) ↦ rw (register_taken t allocated n ref e) v
    | inl e ↦ rw (register_new t allocated n e) (on_memory allocated e)
  ]
    where
      on_memory :
          (a : Bool)
          → T.find t.name n.types ≡ none
          → IsValid T (if◌then◌else◌ {A = ℤ × TypeTable T} a (ok, added t n) (failed, n)).1
      on_memory true e = added-IsValid t n small v e
      on_memory false e = v

  absent :
      (t : UbxType) (n : TypeTable T) → type_get T t.name n ≡ none → T.find t.name n.types ≡ none
  unfolding type_get
  absent t n e = elim (Option-cases (T.find t.name n.types)) [
    | inl missing ↦ missing
    | inr (ref, found) ↦ absurd (ground arith)
  ]

  find_added :
      (t : UbxType) (n : TypeTable T)
      → IsValid T n
      → T.find t.name n.types ≡ none
      → (j : String)
      → T.find j (added t n).types
        ≡ (if str_eq t.name j then some (entry t n) else T.find j n.types)
  find_added t n v e j = find-add T t.name j (entry t n) n.types v.distinct e

  type_get-added :
      (t : UbxType) (n : TypeTable T)
      → IsValid T n
      → T.find t.name n.types ≡ none
      → (j : String)
      → type_get T j (added t n) ≡ (if str_eq t.name j then some t else type_get T j n)
  unfolding type_get
  type_get-added t n v e j = elim (Bool-cases (str_eq t.name j)) [
    | inl same ↦ ground (arith, find_added t n v e j)
    | inr other ↦ ground (arith, find_added t n v e j)
  ]

  -- A new name is registered if its entry can be allocated: lookups then find the type under its
  -- name, and under the other names what they found before; another registration of the name fails
  -- and changes nothing.
  pub type_get-register :
      (t : UbxType) (n : TypeTable T)
      → IsValid T n
      → type_get T t.name n ≡ none
      → (n' : TypeTable T) × (type_register T md5 (some t) true n ≡ (ok, n'))
        × ((j : String) → type_get T j n' ≡ (if str_eq t.name j then some t else type_get T j n))
        × ((addr type_class size : ℕ) (allocated : Bool)
            → type_register T md5
                (some (record t { addr = addr; type_class = type_class; size = size }))
                allocated
                n'
              ≡ (failed, n'))
  type_get-register t n v e =
      let new = absent t n e in
      (
        added t n,
        register_new t true n new,
        type_get-added t n v new,
        λ addr type_class size allocated.
            register_taken (record t { addr = addr; type_class = type_class; size = size })
              allocated (added t n) (entry t n)
              (find_added t n v new t.name ∙ rw (str_eq_refl t.name)),
      )

  -- Unregistering the type that was registered last returns it, and leaves the entries as they were
  -- before.
  pub type_unregister-register :
      (t : UbxType) (n : TypeTable T)
      → IsValid T n
      → type_get T t.name n ≡ none
      → (n' n'' : TypeTable T) × (type_register T md5 (some t) true n ≡ (ok, n'))
        × (type_unregister T t.name n' ≡ (some t, n''))
        × (T.entries n''.types ≡ T.entries n.types)
  type_unregister-register t n v e =
      let new = absent t n e in
      (
        added t n,
        record (added t n) { types = T.del t.name (added t n).types },
        register_new t true n new,
        unregister_found T t.name (added t n) (entry t n)
            (find_added t n v new t.name ∙ rw (str_eq_refl t.name)),
        del-add T t.name (entry t n) n.types v.distinct new,
      )
