-- ===== src/Hooks.antt =====
-- The functions that a block brings along (`init` to `write` of `ubx_block_t`): code of the blocks,
-- not of the node, and so a parameter. A hook is called by its address, with the address of its
-- block; it may change the memory in any way.
use collision_avoidance.Base.{ℕ, Option, none, some, ◌≡◌}
use collision_avoidance.Base.Int.{ℤ}
use collision_avoidance.Types.{UbxData, BlockState, Memory}

pub record Hooks : Type 0 where
  pub init : ℕ → ℕ → Memory → ℤ × Memory
  pub start : ℕ → ℕ → Memory → ℤ × Memory
  pub stop : ℕ → ℕ → Memory → Memory
  pub cleanup : ℕ → ℕ → Memory → Memory
  pub step : ℕ → ℕ → Memory → Memory
  pub read : ℕ → ℕ → UbxData → Memory → ℤ × UbxData × Memory
  pub write : ℕ → ℕ → UbxData → Memory → Memory

-- The state of the block at an address, if there is one.
abbrev pub state_of : Memory → ℕ → Option BlockState
state_of m a = elim (m.blocks a) [ none ↦ none | some b ↦ some b.block_state ]

abbrev pub SameStates : Memory → Memory → Type 0
SameStates m m' = (a : ℕ) → state_of m' a ≡ state_of m a

-- Hooks that create and free no block and leave the life cycle to the node: no hook changes the
-- state of a block.
pub record IsQuiet (hooks : Hooks) : Type 0 where
  pub quiet_init : (f a : ℕ) (m : Memory) → SameStates m (hooks.init f a m).1
  pub quiet_start : (f a : ℕ) (m : Memory) → SameStates m (hooks.start f a m).1
  pub quiet_stop : (f a : ℕ) (m : Memory) → SameStates m (hooks.stop f a m)
  pub quiet_cleanup : (f a : ℕ) (m : Memory) → SameStates m (hooks.cleanup f a m)
  pub quiet_step : (f a : ℕ) (m : Memory) → SameStates m (hooks.step f a m)
  pub quiet_read : (f a : ℕ) (d : UbxData) (m : Memory) → SameStates m (hooks.read f a d m).2
  pub quiet_write : (f a : ℕ) (d : UbxData) (m : Memory) → SameStates m (hooks.write f a d m)
