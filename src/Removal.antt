-- ===== src/Removal.antt =====
-- The end of a block (src/ubx.c: `ubx_block_free`, `ubx_block_rm`). What is freed is no longer at its
-- address. `owned` says which addresses lie in the array of ports of the block.
pub mod Laws
use collision_avoidance.Base.{
  ℕ, Bool, true, false, not, String, Option, none, some, is_none, ◌==◌, if◌then◌else◌, ◌>>=◌,
}
use collision_avoidance.Base.Int.{ℤ}
use collision_avoidance.Hash.{Hash}
use collision_avoidance.Types.{Block, Memory, ok, failed, enosuchblock, is_preinit}
use collision_avoidance.Registry.Resolve.{block_get, block_unregister}

-- The block with its configurations and ports, and what these have.
unfoldable pub block_free : (ℕ → Bool) → ℕ → Memory → Memory
block_free owned a m = record m {
  ports = λ q. if owned q then none else m.ports q;
  blocks = λ q. if a == q then none else m.blocks q;
}

pub block_rm :
    (B : Hash ℕ) → (ℕ → ℕ → Bool) → Memory → B.Table → String → Option (ℤ × Memory × B.Table)
unfolding block_free block_get block_unregister
block_rm B owned m blocks name = elim (block_get B blocks name) [
  | none ↦ some (enosuchblock, m, blocks)
  | some a ↦ do
    b ← m.blocks a
    if is_none b.prototype
        then some (failed, m, blocks)
        else if not (is_preinit b.block_state)
        then some (failed, m, blocks)
        else some (ok, block_free (owned a) a m, (block_unregister B blocks name).1)
]
