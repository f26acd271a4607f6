-- ===== src/Lifecycle.antt =====
-- The life cycle of a block (src/ubx.c: `ubx_block_init` to `ubx_cblock_step`). A block pointer is
-- NULL or an address; `none` as the outcome of a call is a fault, such as a hook that freed its
-- block. Messages on stderr are left out.
pub mod Machine
pub mod History
pub mod States
pub mod Tags
pub mod Steps
use collision_avoidance.Base.{
  ℕ, Bool, Option, none, some, ◌==◌, if◌then◌else◌, ◌>>=◌, leb, String, List, get_elem?, [], ◌∷◌,
}
use collision_avoidance.Base.Int.{ℤ, pos, negsuc}
use collision_avoidance.Types.{
  BlockState, preinit, inactive, active, is_preinit, is_inactive, is_active, Block, Memory, update,
  increment, ok, failed, is_ok, block_type_computation,
}
use collision_avoidance.Hooks.{Hooks}

-- `block_states`
abbrev block_states : List String
block_states = "preinit" ∷ "inactive" ∷ "active" ∷ []

-- The comparison is with the size of the table in bytes: three pointers of eight bytes. A negative
-- `state` is converted to a large unsigned number. `none` is a read past the end of the table.
pub block_state_tostr : ℤ → Option String
block_state_tostr (negsuc n) = some "invalid"
block_state_tostr (pos n) = if leb 24 n then some "invalid" else get_elem? block_states n

abbrev pub put_block : Memory → ℕ → Block → Memory
put_block m a b = record m { blocks = update m.blocks a b }

-- `b->block_state = s; ret = 0`
pub set_state : ℕ → BlockState → Memory → Option (ℤ × Memory)
set_state a s m = do b ← m.blocks a; some (ok, put_block m a (record b { block_state = s }))

-- A hook that reports by its return value: on failure the state stays.
after_hook : ℕ → BlockState → ℤ × Memory → Option (ℤ × Memory)
unfolding set_state
after_hook a s (r, m) = if is_ok r then set_state a s m else some (failed, m)

module _ (hooks : Hooks) where
  run_init : Option ℕ → ℕ → Memory → Option (ℤ × Memory)
  unfolding set_state after_hook
  run_init none a m = set_state a inactive m
  run_init (some f) a m = after_hook a inactive (hooks.init f a m)

  pub block_init : Option ℕ → Memory → Option (ℤ × Memory)
  unfolding run_init
  block_init none m = some (failed, m)
  block_init (some a) m = do
    b ← m.blocks a
    if is_preinit b.block_state then run_init b.init a m else some (failed, m)

  run_start : Option ℕ → ℕ → Memory → Option (ℤ × Memory)
  unfolding set_state after_hook
  run_start none a m = set_state a active m
  run_start (some f) a m = after_hook a active (hooks.start f a m)

  pub block_start : Option ℕ → Memory → Option (ℤ × Memory)
  unfolding run_start
  block_start none m = some (failed, m)
  block_start (some a) m = do
    b ← m.blocks a
    if is_inactive b.block_state then run_start b.start a m else some (failed, m)

  run_stop : Option ℕ → ℕ → Memory → Option (ℤ × Memory)
  unfolding set_state
  run_stop none a m = set_state a inactive m
  run_stop (some f) a m = set_state a inactive (hooks.stop f a m)

  pub block_stop : Option ℕ → Memory → Option (ℤ × Memory)
  unfolding run_stop
  block_stop none m = some (failed, m)
  block_stop (some a) m = do
    b ← m.blocks a
    if is_active b.block_state then run_stop b.stop a m else some (failed, m)

  run_cleanup : Option ℕ → ℕ → Memory → Option (ℤ × Memory)
  unfolding set_state
  run_cleanup none a m = set_state a preinit m
  run_cleanup (some f) a m = set_state a preinit (hooks.cleanup f a m)

  pub block_cleanup : Option ℕ → Memory → Option (ℤ × Memory)
  unfolding run_cleanup
  block_cleanup none m = some (failed, m)
  block_cleanup (some a) m = do
    b ← m.blocks a
    if is_inactive b.block_state then run_cleanup b.cleanup a m else some (failed, m)

  -- `b->step(b); b->stat_num_steps++; ret = 0`, or nothing where there is no hook.
  run_step : Option ℕ → ℕ → Memory → Option (ℤ × Memory)
  run_step none a m = some (failed, m)
  run_step (some f) a m = do
    let m' = hooks.step f a m
    b ← m'.blocks a
    some (ok, put_block m' a (record b { stat_num_steps = increment b.stat_num_steps }))

  pub cblock_step : Option ℕ → Memory → Option (ℤ × Memory)
  unfolding run_step
  cblock_step none m = some (failed, m)
  cblock_step (some a) m = do
    b ← m.blocks a
    if b.type == block_type_computation
        then (if is_active b.block_state then run_step b.step a m else some (failed, m))
        else some (failed, m)
