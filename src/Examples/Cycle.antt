-- ===== src/Examples/Cycle.antt =====
-- The life cycle, at concrete blocks.
use collision_avoidance.Base.{◌≡◌, refl, some, List, [], ◌∷◌}
use collision_avoidance.Base.Int.{ℤ}
use collision_avoidance.Types.{BlockState, Memory}
use collision_avoidance.Hooks.{state_of}
use collision_avoidance.Lifecycle.Machine.{Op, init, start, stop, step, call, Moves, call-Moves}
use collision_avoidance.Lifecycle.History.{Tally, no_calls, run, IsBalanced, run-fresh}
use collision_avoidance.Examples.{world, hooks, hooks-IsQuiet}

call-Moves_example : (r : ℤ × Memory) × (call hooks init 10 world ≡ some r) × Moves world init 10 r
call-Moves_example = call-Moves hooks hooks-IsQuiet world 10 _ init refl

abbrev history : List Op
history = init ∷ init ∷ start ∷ step ∷ stop ∷ []

run-fresh_example :
    (m' : Memory) × (t' : Tally) × (s' : BlockState) × (run hooks 10 history world no_calls
      ≡ some (m', t'))
    × (state_of m' 10 ≡ some s')
    × IsBalanced s' t'
run-fresh_example = run-fresh hooks 10 history world hooks-IsQuiet refl
