-- ===== src/Examples/Runs.antt =====
-- A trigger of two blocks, its statistics, and random numbers.
use collision_avoidance.Base.{ℕ, ◌≡◌, refl, ◌≤◌, inr, inl, true, none, some, List, [], ◌∷◌, arith}
use collision_avoidance.Base.Int.{pos}
use collision_avoidance.Types.{Memory, block_type_computation, active}
use collision_avoidance.Time.{Timespec}
use collision_avoidance.Time.Norm.{above}
use collision_avoidance.Lifecycle.Steps.{SameReady, KeepsReady}
use collision_avoidance.Trigger.{TrigConfig, first_tstats, trigger_blocks}
use collision_avoidance.Trigger.Schedule.{schedule, run_all, all_ready, AreLive, trigger_blocks_lem}
use collision_avoidance.Trigger.Stats.{IsTime, IsTstat, all_runs, spent, all_runs_lem}
use collision_avoidance.Random.{rnd_value}
use collision_avoidance.Random.Range.{rnd_value-InRange}
use collision_avoidance.Examples.{world, at, block_of, hooks}

abbrev here : Memory
here = record world {
  blocks = at (
      (10, block_of block_type_computation active none)
      ∷ (11, block_of block_type_computation active none)
      ∷ []);
}

abbrev configs : List TrigConfig
configs =
    record { b = some 10; num_steps = 2; measure = 0 }
    ∷ record { b = some 11; num_steps = 1; measure = 0 }
    ∷ []

hooks-KeepsReady : KeepsReady hooks
hooks-KeepsReady = record { keeps = λ f a m q. (refl, refl) }

configs-AreLive : AreLive here (schedule configs)
unfolding schedule
configs-AreLive = (refl, (refl, (refl, tt)))

trigger_blocks_lem_example :
    (m' : Memory) × (trigger_blocks hooks configs here ≡ run_all hooks (schedule configs) here)
    × (trigger_blocks hooks configs here ≡ some (all_ready here (schedule configs), m'))
    × SameReady here m'
trigger_blocks_lem_example = trigger_blocks_lem hooks configs here hooks-KeepsReady configs-AreLive

all_can : all_ready here (schedule configs) ≡ true
unfolding all_ready schedule
all_can = refl

abbrev early : Timespec
early = record { sec = pos 1; nsec = pos 999_999_999 }

abbrev late : Timespec
late = record { sec = pos 2; nsec = pos 5 }

early-IsTime : IsTime early
early-IsTime = record {
  normal = record { small = omega arith; after_zero = inr refl; before_zero = inl refl };
  sec_nonneg = refl;
  nsec_nonneg = refl;
}

late-IsTime : IsTime late
late-IsTime = record {
  normal = record { small = omega arith; after_zero = inr refl; before_zero = inl refl };
  sec_nonneg = refl;
  nsec_nonneg = refl;
}

abbrev runs : List (Timespec × Timespec)
runs = (early, late) ∷ (early, early) ∷ []

all_runs_lem_example :
    IsTstat (all_runs first_tstats runs)
    × ((all_runs first_tstats runs).cnt ≡ 2)
    × (above (all_runs first_tstats runs).total ≡ spent runs)
all_runs_lem_example =
    all_runs_lem runs
      ((early-IsTime, late-IsTime, omega arith), ((early-IsTime, early-IsTime, omega arith), tt))
      (omega arith)

rnd_value-InRange_example :
    (v : ℕ) × (rnd_value (record { min = pos 5; max = pos 10 }) 14 ≡ some v) × (5 ≤ v) × (v ≤ 10)
rnd_value-InRange_example =
    rnd_value-InRange 5 10 14 (omega arith) (omega arith) (omega arith) (omega arith)

-- With limits that are close, a number may come out below the lower one.
below_minimum : rnd_value (record { min = pos 5; max = pos 6 }) 4 ≡ some 3
unfolding rnd_value
below_minimum = refl
