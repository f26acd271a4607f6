-- ===== src/Lifecycle/Tags.antt =====
-- A stop of an active block and a cleanup of an inactive one always succeed, and leave the names and
-- the prototypes of all blocks.
use collision_avoidance.Base.{
  ℕ, ◌≡◌, refl, Bool, true, not, String, Option, none, some, is_none, ◌==◌, if◌then◌else◌, ◌>>=◌,
  Option-cases, inl, inr, arith,
}
use collision_avoidance.Base.Int.{ℤ}
use collision_avoidance.Types.{
  BlockState, preinit, inactive, is_active, is_inactive, Block, Memory, ok,
}
use collision_avoidance.Hooks.{Hooks, state_of, SameStates, IsQuiet}
use collision_avoidance.Lifecycle.{
  set_state, put_block, block_stop, block_cleanup, run_stop, run_cleanup,
}

-- The name of the block at an address, and whether it is an instance.
abbrev pub tag_of : Memory → ℕ → Option (String × Bool)
tag_of m a = elim (m.blocks a) [ none ↦ none | some b ↦ some (b.name, not (is_none b.prototype)) ]

abbrev pub SameTags : Memory → Memory → Type 0
SameTags m m' = (a : ℕ) → tag_of m' a ≡ tag_of m a

-- The hooks leave names and prototypes alone.
pub record KeepsTags (hooks : Hooks) : Type 0 where
  pub stop_tags : (f a : ℕ) (m : Memory) → SameTags m (hooks.stop f a m)
  pub cleanup_tags : (f a : ℕ) (m : Memory) → SameTags m (hooks.cleanup f a m)

-- The call has moved the state of the block at `a` to `s`, and nothing else of states and tags.
abbrev pub Moved : Memory → ℕ → BlockState → Option (ℤ × Memory) → Type 0
Moved m a s r =
    (m' : Memory) × (r ≡ some (ok, m'))
    × SameTags m m'
    × ((q : ℕ) → state_of m' q ≡ (if a == q then some s else state_of m q))

set_state-Moved :
    (m m' : Memory) (a : ℕ) (b : Block) (s : BlockState)
    → m.blocks a ≡ some b
    → SameStates m m'
    → SameTags m m'
    → Moved m a s (set_state a s m')
unfolding set_state
set_state-Moved m m' a b s at_a states tags = elim (Option-cases (m'.blocks a)) [
  | inl gone ↦ absurd (ground (arith, states a))
  | inr (b', here) ↦ (
    put_block m' a (record b' { block_state = s }),
    rw (here, ◌>>=◌) refl,
    (λ q. ground (arith, tags q)),
    λ q. ground (arith, states q),
  )
]

module _ (hooks : Hooks) (quiet : IsQuiet hooks) (keeps : KeepsTags hooks) where
  run_stop-Moved :
      (f? : Option ℕ) (m : Memory) (a : ℕ) (b : Block)
      → m.blocks a ≡ some b
      → Moved m a inactive (run_stop hooks f? a m)
  unfolding run_stop
  run_stop-Moved none m a b at_a = set_state-Moved m m a b inactive at_a (λ q. refl) (λ q. refl)
  run_stop-Moved (some f) m a b at_a =
      set_state-Moved m (hooks.stop f a m) a b inactive at_a (quiet.quiet_stop f a m)
        (keeps.stop_tags f a m)

  run_cleanup-Moved :
      (f? : Option ℕ) (m : Memory) (a : ℕ) (b : Block)
      → m.blocks a ≡ some b
      → Moved m a preinit (run_cleanup hooks f? a m)
  unfolding run_cleanup
  run_cleanup-Moved none m a b at_a = set_state-Moved m m a b preinit at_a (λ q. refl) (λ q. refl)
  run_cleanup-Moved (some f) m a b at_a =
      set_state-Moved m (hooks.cleanup f a m) a b preinit at_a (quiet.quiet_cleanup f a m)
        (keeps.cleanup_tags f a m)

  -- With hooks that keep states and tags, stopping an active block returns 0.
  pub block_stop-Moved :
      (m : Memory) (a : ℕ) (b : Block)
      → m.blocks a ≡ some b
      → is_active b.block_state ≡ true
      → Moved m a inactive (block_stop hooks (some a) m)
  unfolding block_stop
  block_stop-Moved m a b at_a t = rw (at_a, ◌>>=◌) (rw t (run_stop-Moved b.stop m a b at_a))

  -- With such hooks, cleaning up an inactive block returns 0.
  pub block_cleanup-Moved :
      (m : Memory) (a : ℕ) (b : Block)
      → m.blocks a ≡ some b
      → is_inactive b.block_state ≡ true
      → Moved m a preinit (block_cleanup hooks (some a) m)
  unfolding block_cleanup
  block_cleanup-Moved m a b at_a t =
      rw (at_a, ◌>>=◌) (rw t (run_cleanup-Moved b.cleanup m a b at_a))
