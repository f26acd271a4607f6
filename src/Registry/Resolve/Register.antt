-- ===== src/Registry/Resolve/Register.antt =====
-- What the registration of a block achieves.
use collision_avoidance.Base.{
  ℕ, ◌≡◌, refl, true, false, String, none, some, str_eq, str_eq_refl, if◌then◌else◌, ◌>>=◌, ◌∙◌,
}
use collision_avoidance.Hash.{Hash, IsDistinct, find-add, del-add}
use collision_avoidance.Types.{Block, Memory, update, ok}
use collision_avoidance.Registry.{TypeRef, TypeTable}
use collision_avoidance.Registry.Resolve.{
  is_taken, has_kind, resolve_types, register_named, block_register, block_get, block_unregister,
}
use collision_avoidance.Registry.Resolve.Typing.{IsResolved, resolve_types-IsResolved}

module _ (B : Hash ℕ) (T : Hash TypeRef) (n : TypeTable T) where
  -- A block that can be registered: its kind is known, its name is free, and its types are known to
  -- the node; it is a prototype, or an instance that no node has.
  pub record CanRegister (ni a : ℕ) (m : Memory) (blocks : B.Table) (b b' : Block) : Type 0 where
    pub at_a : m.blocks a ≡ some b
    pub free : is_taken b ≡ false
    pub kind : has_kind b ≡ true
    pub new_name : B.find b.name blocks ≡ none
    pub resolves : resolve_types T n (record b { ni = some ni }) ≡ some (ok, b')

  abbrev registered : ℕ → Block → Memory → Memory
  registered a b' m = record m { blocks = update m.blocks a b' }

  register_runs :
      (ni a : ℕ) (m : Memory) (blocks : B.Table) (b b' : Block)
      → CanRegister ni a m blocks b b'
      → block_register B T n ni a m blocks ≡ some (ok, registered a b' m, B.add b.name a blocks)
  unfolding block_register register_named
  register_runs ni a m blocks b b' can =
      rw (can.at_a, ◌>>=◌)
        (rw can.free
          (rw can.kind (rw (can.new_name, register_named) (rw (can.resolves, ◌>>=◌) refl))))

  -- `ubx_block_register` of such a block returns 0: the block is then found under its name and the
  -- other names as before, its types are resolved and those of other blocks stay, and unregistering
  -- its name returns the block and restores the entries.
  pub block_get-register :
      (ni a : ℕ) (m : Memory) (blocks : B.Table) (b b' : Block)
      → IsDistinct (B.entries blocks)
      → CanRegister ni a m blocks b b'
      → (m' : Memory) × (blocks' : B.Table) × (block_register B T n ni a m blocks
          ≡ some (ok, m', blocks'))
        × ((name : String)
            → block_get B blocks' name
              ≡ (if str_eq b.name name then some a else block_get B blocks name))
        × (m'.blocks ≡ update m.blocks a b')
        × IsResolved T n b'
        × ((block_unregister B blocks' b.name).0 ≡ some a)
        × (B.entries (block_unregister B blocks' b.name).1 ≡ B.entries blocks)
  unfolding block_get block_unregister
  block_get-register ni a m blocks b b' distinct can =
      let found : B.find b.name (B.add b.name a blocks) ≡ some a =
        find-add B b.name b.name a blocks distinct can.new_name ∙ rw (str_eq_refl b.name) in
      (
        registered a b' m,
        B.add b.name a blocks,
        register_runs ni a m blocks b b' can,
        (λ name. find-add B b.name name a blocks distinct can.new_name),
        refl,
        resolve_types-IsResolved T n (record b { ni = some ni }) b' can.resolves,
        rw (found, block_unregister) refl,
        rw (found, block_unregister) (del-add B b.name a blocks distinct can.new_name),
      )
