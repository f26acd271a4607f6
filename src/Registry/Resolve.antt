-- ===== src/Registry/Resolve.antt =====
-- Resolution of type names and the registration of blocks (src/ubx.c: `ubx_resolve_types`,
-- `ubx_block_register`, `ubx_block_get`, `ubx_block_unregister`). An outcome `none` is a fault: a
-- lookup of a NULL name.
pub mod Typing
pub mod Register
use collision_avoidance.Base.{
  ℕ, Bool, true, false, not, ◌&&◌, ◌||◌, String, Option, none, some, is_none, List, [], ◌∷◌, ◌==◌,
  if◌then◌else◌, ◌>>=◌,
}
use collision_avoidance.Base.Int.{ℤ}
use collision_avoidance.Hash.{Hash}
use collision_avoidance.Types.{
  UbxType, Port, Config, Block, Memory, update, ok, failed, is_ok, block_type_computation,
  block_type_interaction,
}
use collision_avoidance.Registry.{TypeRef, TypeTable, type_get}

module _ (T : Hash TypeRef) (n : TypeTable T) where
  -- Whether a name could be resolved (NULL need not be), and the descriptor after that.
  unfoldable pub resolve_name : Option String → Option UbxType → Bool × Option UbxType
  resolve_name none t? = (true, t?)
  resolve_name (some name) t? = elim (type_get T name n) [
    | none ↦ (false, t?)
    | some t ↦ (true, some t)
  ]

  unfoldable pub resolve_in : Port → Bool × Port
  unfolding resolve_name
  resolve_in p = let r = resolve_name p.in_type_name p.in_type in (r.0, record p { in_type = r.1 })

  unfoldable pub resolve_out : Port → Bool × Port
  unfolding resolve_name
  resolve_out p =
      let r = resolve_name p.out_type_name p.out_type in (r.0, record p { out_type = r.1 })

  unfoldable pub resolve_port : Port → Bool × Port
  unfolding resolve_in resolve_out
  resolve_port p = let first = resolve_in p in if first.0 then resolve_out first.1 else first

  -- The loop over the ports, up to the one whose name is NULL; a failure ends it, and the types
  -- resolved before stay.
  unfoldable pub resolve_ports : List Port → Bool × List Port
  unfolding resolve_port
  resolve_ports [] = (true, [])
  resolve_ports (p ∷ ps) =
      let one = resolve_port p in
      let rest = resolve_ports ps in
      if is_none p.name
      then (true, p ∷ ps)
      else if one.0
      then (rest.0, one.1 ∷ rest.1)
      else (false, one.1 ∷ ps)

  pub resolve_config : Config → Option (Bool × Config)
  resolve_config c = elim c.type_name [
    | none ↦ none
    | some name ↦ elim (type_get T name n) [
      | none ↦ some (false, c)
      | some t ↦ some (true, record c { value = record (c.value) { type = some t } })
    ]
  ]

  pub resolve_configs : List Config → Option (Bool × List Config)
  unfolding resolve_config
  resolve_configs [] = some (true, [])
  resolve_configs (c ∷ cs) =
      let rest = resolve_configs cs in
      if is_none c.name then some (true, c ∷ cs) else (do
        one ← resolve_config c
        if one.0 then (do r ← rest; some (r.0, one.1 ∷ r.1)) else some (false, one.1 ∷ cs))

  -- The ports of a block, where it has any.
  unfoldable pub resolve_block_ports : Block → Bool × Block
  unfolding resolve_ports
  resolve_block_ports b = elim b.ports [
    | none ↦ (true, b)
    | some ps ↦ let r = resolve_ports ps in (r.0, record b { ports = some r.1 })
  ]

  unfoldable pub resolve_block_configs : Block → Option (ℤ × Block)
  unfolding resolve_configs
  resolve_block_configs b = elim b.configs [
    | none ↦ some (ok, b)
    | some cs ↦ do
      r ← resolve_configs cs
      some (if r.0 then ok else failed, record b { configs = some r.1 })
  ]

  unfoldable pub resolve_types : Block → Option (ℤ × Block)
  unfolding resolve_block_ports resolve_block_configs
  resolve_types b =
      let r = resolve_block_ports b in if r.0 then resolve_block_configs r.1 else some (failed, r.1)

-- An instance that a node has already.
abbrev pub is_taken : Block → Bool
is_taken b = not (is_none b.prototype) && not (is_none b.ni)

abbrev pub has_kind : Block → Bool
has_kind b = b.type == block_type_computation || b.type == block_type_interaction

module _ (B : Hash ℕ) (T : Hash TypeRef) (n : TypeTable T) where
  -- The end of a registration: the block has its node, and its types are to be resolved.
  register_named : ℕ → ℕ → Block → Memory → B.Table → Option (ℤ × Memory × B.Table)
  unfolding resolve_types
  register_named ni a b m blocks = do
    r ← resolve_types T n (record b { ni = some ni })
    let m' = record m { blocks = update m.blocks a r.1 }
    some (if is_ok r.0 then (ok, m', B.add b.name a blocks) else (r.0, m', blocks))

  -- `ni` is the address of the node, `a` that of the block.
  pub block_register : ℕ → ℕ → Memory → B.Table → Option (ℤ × Memory × B.Table)
  unfolding register_named
  block_register ni a m blocks = do
    b ← m.blocks a
    if is_taken b
        then some (failed, m, blocks)
        else if not (has_kind b)
        then some (failed, m, blocks)
        else elim (B.find b.name blocks) [
          | some other ↦ some (failed, m, blocks)
          | none ↦ register_named ni a b m blocks
        ]

unfoldable pub block_get : (B : Hash ℕ) → B.Table → String → Option ℕ
block_get B blocks name = B.find name blocks

unfoldable pub block_unregister : (B : Hash ℕ) → B.Table → String → Option ℕ × B.Table
block_unregister B blocks name = elim (B.find name blocks) [
  | none ↦ (none, blocks)
  | some a ↦ (some a, B.del name blocks)
]
