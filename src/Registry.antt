-- ===== src/Registry.antt =====
-- The types that a node knows (src/ubx.c: `ubx_type_register` to `ubx_type_get`). The table and the
-- fingerprint (`md5`) are parameters. The hash of a type is kept in its entry, where the code
-- writes it into the descriptor.
pub mod TypeLaws
pub mod Resolve
use collision_avoidance.Base.{ℕ, Bool, true, false, String, Option, none, some, List, if◌then◌else◌}
use collision_avoidance.Base.Int.{ℤ}
use collision_avoidance.Hash.{Hash}
use collision_avoidance.Types.{UbxType, increment, ok, failed}

-- `ubx_type_ref_t`
pub record TypeRef : Type 0 where
  pub type_ptr : UbxType
  pub seqid : ℕ
  pub hash : List ℕ

-- The fields `types` and `cur_seqid` of the node.
pub record TypeTable (T : Hash TypeRef) : Type 0 where
  pub types : T.Table
  pub cur_seqid : ℕ

module _ (T : Hash TypeRef) (md5 : String → List ℕ) where
  register_fresh : UbxType → Bool → TypeTable T → ℤ × TypeTable T
  register_fresh t false n = (failed, n)
  register_fresh t true n = (
    ok,
    record {
      types =
          T.add t.name (record { type_ptr = t; seqid = n.cur_seqid; hash = md5 t.name }) n.types;
      cur_seqid = increment n.cur_seqid;
    },
  )

  -- `NULL` is refused, then a name that is taken; the flag is whether the entry could be allocated.
  pub type_register : Option UbxType → Bool → TypeTable T → ℤ × TypeTable T
  unfolding register_fresh
  type_register none allocated n = (failed, n)
  type_register (some t) allocated n = elim (T.find t.name n.types) [
    | some ref ↦ (failed, n)
    | none ↦ register_fresh t allocated n
  ]

-- `ubx_type_unregister`: the descriptor that was registered, or NULL.
pub type_unregister : (T : Hash TypeRef) → String → TypeTable T → Option UbxType × TypeTable T
type_unregister T name n = elim (T.find name n.types) [
  | none ↦ (none, n)
  | some ref ↦ (some ref.type_ptr, record n { types = T.del name n.types })
]

unfoldable pub type_get : (T : Hash TypeRef) → String → TypeTable T → Option UbxType
type_get T name n = elim (T.find name n.types) [ none ↦ none | some ref ↦ some ref.type_ptr ]
