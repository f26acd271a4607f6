-- ===== src/Creation/Create.antt =====
-- A new instance of a prototype (src/ubx.c: `ubx_block_create`): the copy is put at its address and
-- registered. Its ports are kept by value, in the block.
use collision_avoidance.Base.{
  ℕ, ◌≡◌, refl, Bool, false, String, Option, none, some, str_eq, if◌then◌else◌, ◌>>=◌,
}
use collision_avoidance.Hash.{Hash, IsDistinct}
use collision_avoidance.Types.{Block, Memory, is_ok}
use collision_avoidance.Lifecycle.{put_block}
use collision_avoidance.Registry.{TypeRef, TypeTable}
use collision_avoidance.Registry.Resolve.{block_register, block_get}
use collision_avoidance.Registry.Resolve.Register.{CanRegister, block_get-register}
use collision_avoidance.Removal.{block_free}
use collision_avoidance.Creation.{block_clone}

-- The pointer that is returned: NULL, one to a block that was freed again, or that of the block.
pub data Created : Type 0 where
  null dangling : Created
  block_at : ℕ → Created

module _ (B : Hash ℕ) (T : Hash TypeRef) (n : TypeTable T) where
  -- Where the registration fails, the copy is freed and its address returned all the same.
  register_clone : ℕ → ℕ → Memory → B.Table → Option Block → Option (Created × Memory × B.Table)
  register_clone ni self m blocks none = some (null, m, blocks)
  register_clone ni self m blocks (some newb) = do
    r ← block_register B T n ni self (put_block m self newb) blocks
    some (
        if is_ok r.0
        then (block_at self, r.1, r.2)
        else (dangling, block_free (λ q. false) self r.1, r.2))

  pub block_create :
      ℕ
      → ℕ
      → (ℕ → Bool)
      → Memory
      → B.Table
      → String
      → Option String
      → Option (Created × Memory × B.Table)
  unfolding register_clone
  block_create ni self alloc m blocks type none = some (null, m, blocks)
  block_create ni self alloc m blocks type (some name) = elim (B.find type blocks) [
    | none ↦ some (null, m, blocks)
    | some a ↦ elim (B.find name blocks) [
      | some other ↦ some (null, m, blocks)
      | none ↦ do
        prot ← m.blocks a
        newb ← block_clone prot name self alloc
        register_clone ni self m blocks newb
    ]
  ]

  -- Where the prototype is listed and the name is free, and its copy can be made and registered,
  -- `ubx_block_create` returns the new block, which is then found under its name; other names are
  -- found as before.
  pub block_get-create :
      (ni self a : ℕ) (alloc : ℕ → Bool) (m : Memory) (blocks : B.Table) (type name : String)
      (prot b b' : Block)
      → IsDistinct (B.entries blocks)
      → B.find type blocks ≡ some a
      → B.find name blocks ≡ none
      → m.blocks a ≡ some prot
      → block_clone prot name self alloc ≡ some (some b)
      → CanRegister B T n ni self (put_block m self b) blocks b b'
      → (m' : Memory) × (blocks' : B.Table) × (block_create ni self alloc m blocks type (some name)
          ≡ some (block_at self, m', blocks'))
        × ((j : String)
            → block_get B blocks' j ≡ (if str_eq b.name j then some self else block_get B blocks j))
  unfolding block_create register_clone
  block_get-create ni self a alloc m blocks type name prot b b' distinct listed free at_a cloned
        can =
      let (m', blocks', run, found, others, resolved, unlisted, restored) =
        block_get-register B T n ni self (put_block m self b) blocks b b' distinct can in
      (
        m',
        blocks',
        rw (listed, block_create)
            (rw (free, at_a, ◌>>=◌) (rw (cloned, ◌>>=◌) (rw (run, register_clone, ◌>>=◌) refl))),
        found,
      )
