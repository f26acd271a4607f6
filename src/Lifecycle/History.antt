-- ===== src/Lifecycle/History.antt =====
-- Whole histories of calls on one block.
use collision_avoidance.Base.{
  ℕ, ◌+◌, ◌≡◌, refl, Option, none, some, List, [], ◌∷◌, if◌then◌else◌, ◌>>=◌, inl, inr, arith,
}
use collision_avoidance.Base.Int.{ℤ}
use collision_avoidance.Types.{BlockState, preinit, inactive, active, Block, Memory, failed, is_ok}
use collision_avoidance.Hooks.{Hooks, state_of, IsQuiet}
use collision_avoidance.Lifecycle.{block_init, block_start, block_stop, block_cleanup, cblock_step}
use collision_avoidance.Lifecycle.Machine.{
  Op, init, start, stop, cleanup, step, call, next, Moves, call-Moves,
}

-- A call that the life cycle does not have in the block's state returns -1; it runs no hook, and
-- changes nothing.
pub call-refused :
    (hooks : Hooks) (m : Memory) (a : ℕ) (b : Block) (op : Op)
    → m.blocks a ≡ some b
    → next b.block_state op ≡ none
    → call hooks op a m ≡ some (failed, m)
unfolding call next block_init block_start block_stop block_cleanup cblock_step
call-refused hooks m a b init at_a e = rw (at_a, ◌>>=◌) (ground arith)
call-refused hooks m a b start at_a e = rw (at_a, ◌>>=◌) (ground arith)
call-refused hooks m a b stop at_a e = rw (at_a, ◌>>=◌) (ground arith)
call-refused hooks m a b cleanup at_a e = rw (at_a, ◌>>=◌) (ground arith)
call-refused hooks m a b step at_a e = rw (at_a, ◌>>=◌) (ground arith)

-- How many calls of each kind have returned 0.
pub record Tally : Type 0 where
  pub inits : ℕ
  pub starts : ℕ
  pub stops : ℕ
  pub cleanups : ℕ
  pub steps : ℕ

abbrev pub no_calls : Tally
no_calls = record { inits = 0; starts = 0; stops = 0; cleanups = 0; steps = 0 }

abbrev add_call : Op → Tally → Tally
add_call init t = record t { inits = t.inits + 1 }
add_call start t = record t { starts = t.starts + 1 }
add_call stop t = record t { stops = t.stops + 1 }
add_call cleanup t = record t { cleanups = t.cleanups + 1 }
add_call step t = record t { steps = t.steps + 1 }

-- The calls of a history on the block at `a`, one after the other.
pub run : Hooks → ℕ → List Op → Memory → Tally → Option (Memory × Tally)
run hooks a [] m t = some (m, t)
run hooks a (op ∷ ops) m t = do
  r ← call hooks op a m
  run hooks a ops r.1 (if is_ok r.0 then add_call op t else t)

-- Whether a block is past its init, and whether it is started.
abbrev is_up : BlockState → ℕ
is_up preinit = 0
is_up inactive = 1
is_up active = 1

abbrev is_running : BlockState → ℕ
is_running preinit = 0
is_running inactive = 0
is_running active = 1

-- Inits and cleanups alternate, and so do starts and stops; a block that runs has been initialised.
pub record IsBalanced (s : BlockState) (t : Tally) : Type 0 where
  pub ups : t.inits ≡ t.cleanups + is_up s
  pub runs : t.starts ≡ t.stops + is_running s

step-IsBalanced :
    (s s' : BlockState) (op : Op) (t : Tally)
    → next s op ≡ some s'
    → IsBalanced s t
    → IsBalanced s' (add_call op t)
unfolding next
step-IsBalanced preinit s' init t e h = ground arith
step-IsBalanced preinit s' start t e h = cc
step-IsBalanced preinit s' stop t e h = cc
step-IsBalanced preinit s' cleanup t e h = cc
step-IsBalanced preinit s' step t e h = cc
step-IsBalanced inactive s' init t e h = cc
step-IsBalanced inactive s' start t e h = ground arith
step-IsBalanced inactive s' stop t e h = cc
step-IsBalanced inactive s' cleanup t e h = ground arith
step-IsBalanced inactive s' step t e h = cc
step-IsBalanced active s' init t e h = cc
step-IsBalanced active s' start t e h = cc
step-IsBalanced active s' stop t e h = ground arith
step-IsBalanced active s' cleanup t e h = cc
step-IsBalanced active s' step t e h = ground arith

live :
    (m : Memory) (a : ℕ) (s : BlockState)
    → state_of m a ≡ some s
    → (b : Block) × (m.blocks a ≡ some b)
live m a s e = ground arith

-- However the calls on a block are ordered, with quiet hooks they all return, and the counts of
-- those that returned 0 agree with the block's state.
pub run-IsBalanced :
    (hooks : Hooks) (a : ℕ) (ops : List Op) (m : Memory) (t : Tally) (s : BlockState)
    → IsQuiet hooks
    → state_of m a ≡ some s
    → IsBalanced s t
    → (m' : Memory) × (t' : Tally) × (s' : BlockState) × (run hooks a ops m t ≡ some (m', t'))
      × (state_of m' a ≡ some s')
      × IsBalanced s' t'
unfolding run
run-IsBalanced hooks a [] m t s quiet e h = (m, t, s, refl, e, h)
run-IsBalanced hooks a (op ∷ ops) m t s quiet e h =
    let (b, at_a) = live m a s e in
    let (r, runs, moves) = call-Moves hooks quiet m a b op at_a in
    let (s1, e1, h1) = moved r moves in
    rw (runs, ◌>>=◌)
      (run-IsBalanced hooks a ops r.1 (if is_ok r.0 then add_call op t else t) s1 quiet e1 h1)
  where
    moved :
        (r : ℤ × Memory)
        → Moves m op a r
        → (s1 : BlockState) × (state_of r.1 a ≡ some s1)
          × IsBalanced s1 (if is_ok r.0 then add_call op t else t)
    moved r (inr (ret, same)) = (s, ground (arith, same a), rw ret h)
    moved r (inl (ret, s0, s1, at_s, e', states)) =
        let same : s0 ≡ s = ground arith in
        (s1, ground (arith, states a), rw ret (step-IsBalanced s s1 op t (rw same at e') h))

-- From its registration on: a block has been cleaned up as often as initialised exactly when it is
-- back in preinit, and stopped as often as started exactly when it does not run.
pub run-fresh :
    (hooks : Hooks) (a : ℕ) (ops : List Op) (m : Memory)
    → IsQuiet hooks
    → state_of m a ≡ some preinit
    → (m' : Memory) × (t' : Tally) × (s' : BlockState) × (run hooks a ops m no_calls
        ≡ some (m', t'))
      × (state_of m' a ≡ some s')
      × IsBalanced s' t'
run-fresh hooks a ops m quiet e =
    run-IsBalanced hooks a ops m no_calls preinit quiet e (omega arith)
