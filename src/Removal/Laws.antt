-- ===== src/Removal/Laws.antt =====
-- What a removal does to the node.
use collision_avoidance.Base.{
  ℕ, ◌≡◌, refl, ◌∙◌, sym, subst, Bool, true, false, String, none, some, is_none, str_eq, ◌==◌,
  if◌then◌else◌, ◌>>=◌, ap,
}
use collision_avoidance.Hash.{Hash, IsDistinct, find-del, del-IsDistinct}
use collision_avoidance.Types.{Block, Memory, ok, is_preinit}
use collision_avoidance.Registry.Resolve.{block_get, block_unregister}
use collision_avoidance.Removal.{block_free, block_rm}

module _ (B : Hash ℕ) (owned : ℕ → ℕ → Bool) where
  -- An instance in preinit, under its name.
  pub record CanRemove (m : Memory) (blocks : B.Table) (name : String) (a : ℕ) : Type 0 where
    pub block : Block
    pub listed : B.find name blocks ≡ some a
    pub at_a : m.blocks a ≡ some block
    pub instance_block : is_none block.prototype ≡ false
    pub idle : is_preinit block.block_state ≡ true

  removed_from :
      (blocks : B.Table) (name : String) (a : ℕ)
      → B.find name blocks ≡ some a
      → (block_unregister B blocks name).1 ≡ B.del name blocks
  unfolding block_unregister
  removed_from blocks name a e = rw (e, block_unregister) refl

  -- The run of `ubx_block_rm` on such a block.
  pub block_rm_runs :
      (m : Memory) (blocks : B.Table) (name : String) (a : ℕ)
      → IsDistinct (B.entries blocks)
      → CanRemove m blocks name a
      → (blocks' : B.Table) × (block_rm B owned m blocks name
          ≡ some (ok, block_free (owned a) a m, blocks'))
        × ((j : String)
            → block_get B blocks' j ≡ (if str_eq name j then none else block_get B blocks j))
        × IsDistinct (B.entries blocks')
  unfolding block_rm block_get
  block_rm_runs m blocks name a distinct can = (
    (block_unregister B blocks name).1,
    rw (can.listed, block_rm) (rw (can.at_a, ◌>>=◌) (rw can.instance_block (rw can.idle refl))),
    (λ j.
        ap (B.find j) (removed_from blocks name a can.listed) ∙ find-del B name j blocks distinct),
    subst (λ t. IsDistinct (B.entries t)) (sym (removed_from blocks name a can.listed))
        (del-IsDistinct B name blocks distinct),
  )

  -- `ubx_block_rm` of an instance in preinit returns 0. The block is no longer at its address and
  -- none of its ports is at theirs; every other block and port is as it was. The name of the block is
  -- free, the other names stay, and no name stands twice.
  pub block_rm_lem :
      (m : Memory) (blocks : B.Table) (name : String) (a : ℕ)
      → IsDistinct (B.entries blocks)
      → CanRemove m blocks name a
      → (m' : Memory) × (blocks' : B.Table) × (block_rm B owned m blocks name
          ≡ some (ok, m', blocks'))
        × ((q : ℕ) → m'.blocks q ≡ (if a == q then none else m.blocks q))
        × ((q : ℕ) → m'.ports q ≡ (if owned a q then none else m.ports q))
        × ((j : String)
            → block_get B blocks' j ≡ (if str_eq name j then none else block_get B blocks j))
        × IsDistinct (B.entries blocks')
  unfolding block_free
  block_rm_lem m blocks name a distinct can =
      let (blocks', run, names, distinct') = block_rm_runs m blocks name a distinct can in
      (block_free (owned a) a m, blocks', run, λ q. refl, λ q. refl, names, distinct')
