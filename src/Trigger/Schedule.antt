-- ===== src/Trigger/Schedule.antt =====
-- What a trigger runs: the two loops are one pass over a list of steps, which gets through exactly
-- if every block of it can step.
use collision_avoidance.Base.{
  ℕ, zero, suc, ◌≡◌, refl, ◌∙◌, ap, ap₂, inl, inr, Bool, true, false, ◌&&◌, Option, none, some,
  List, [], ◌∷◌, ◌++◌, ◌>>=◌, Bool-cases, Option-cases, is_none, All, replicate,
}
use collision_avoidance.Types.{Memory, is_ok}
use collision_avoidance.Hooks.{Hooks}
use collision_avoidance.Lifecycle.{cblock_step}
use collision_avoidance.Lifecycle.Steps.{
  ready, SameReady, KeepsReady, cblock_step-Tried, cblock_step-null,
}
use collision_avoidance.Trigger.{TrigConfig, step_times, trigger_blocks}

-- The steps of the configured blocks, one after the other.
unfoldable pub schedule : List TrigConfig → List (Option ℕ)
schedule [] = []
schedule (c ∷ cs) = replicate c.num_steps c.b ++ schedule cs

-- One pass, up to the first step that fails.
unfoldable pub run_all : Hooks → List (Option ℕ) → Memory → Option (Bool × Memory)
run_all hooks [] m = some (true, m)
run_all hooks (b ∷ bs) m = do
  r ← cblock_step hooks b m
  elim (is_ok r.0) [ false ↦ some (false, r.1) | true ↦ run_all hooks bs r.1 ]

-- Whether all blocks of a list can step, and whether all that are not NULL are live.
unfoldable pub all_ready : Memory → List (Option ℕ) → Bool
all_ready m [] = true
all_ready m (none ∷ bs) = false
all_ready m (some a ∷ bs) = ready m a && all_ready m bs

abbrev pub AreLive : Memory → List (Option ℕ) → Type 0
AreLive m bs = All (λ o. elim o [ none ↦ Unit | some a ↦ is_none (m.blocks a) ≡ false ]) bs

module _ (hooks : Hooks) where
  run_all-append :
      (bs cs : List (Option ℕ)) (m : Memory)
      → run_all hooks (bs ++ cs) m ≡ (
          run_all hooks bs m >>= λ r. elim r.0 [
            | false ↦ some (false, r.1)
            | true ↦ run_all hooks cs r.1
          ])
  unfolding run_all
  run_all-append [] cs m = refl
  run_all-append (b ∷ bs) cs m = elim (Option-cases (cblock_step hooks b m)) [
    | inl e ↦ rw (e, ◌>>=◌) refl
    | inr ((ret, m'), e) ↦
        rw (e, ◌>>=◌)
          (elim (Bool-cases (is_ok ret)) [
            | inl t ↦ rw t (run_all-append bs cs m')
            | inr t ↦ rw (t, ◌>>=◌) refl
          ])
  ]

  step_times-run_all :
      (b : Option ℕ) (n : ℕ) (m : Memory) → step_times hooks b n m ≡ run_all hooks (replicate n b) m
  unfolding step_times run_all
  step_times-run_all b zero m = refl
  step_times-run_all b (suc n) m = elim (Option-cases (cblock_step hooks b m)) [
    | inl e ↦ rw (e, ◌>>=◌) refl
    | inr ((ret, m'), e) ↦
        rw (e, ◌>>=◌)
          (elim (Bool-cases (is_ok ret)) [
            | inl t ↦ rw t (step_times-run_all b n m')
            | inr t ↦ rw t refl
          ])
  ]

  -- The two loops over the blocks and their numbers of steps are one pass over the schedule.
  trigger_blocks-run_all :
      (cs : List TrigConfig) (m : Memory)
      → trigger_blocks hooks cs m ≡ run_all hooks (schedule cs) m
  unfolding trigger_blocks run_all schedule
  trigger_blocks-run_all [] m = refl
  trigger_blocks-run_all (c ∷ cs) m =
      rw (step_times-run_all c.b c.num_steps m)
        (elim (Option-cases (run_all hooks (replicate c.num_steps c.b) m)) [
          | inl e ↦ rw (run_all-append (replicate c.num_steps c.b) (schedule cs) m, e, ◌>>=◌) refl
          | inr ((t, m'), e) ↦
              rw (run_all-append (replicate c.num_steps c.b) (schedule cs) m, e, ◌>>=◌)
                (elim (Bool-cases t) [
                  | inl u ↦ rw u (trigger_blocks-run_all cs m')
                  | inr u ↦ rw u refl
                ])
        ])

all_ready_same :
    (m m' : Memory) (bs : List (Option ℕ)) → SameReady m m' → all_ready m' bs ≡ all_ready m bs
unfolding all_ready
all_ready_same m m' [] same = refl
all_ready_same m m' (none ∷ bs) same = refl
all_ready_same m m' (some a ∷ bs) same = ap₂ ◌&&◌ (same a).0 (all_ready_same m m' bs same)

AreLive-same :
    (m m' : Memory) (bs : List (Option ℕ)) → SameReady m m' → AreLive m bs → AreLive m' bs
AreLive-same m m' [] same live = live
AreLive-same m m' (none ∷ bs) same (u, live) = (u, AreLive-same m m' bs same live)
AreLive-same m m' (some a ∷ bs) same (l, live) = ((same a).1 ∙ l, AreLive-same m m' bs same live)

-- The outcome of a pass.
abbrev Passes : Memory → List (Option ℕ) → Option (Bool × Memory) → Type 0
Passes m bs r = (m' : Memory) × (r ≡ some (all_ready m bs, m')) × SameReady m m'

run_all-Passes :
    (hooks : Hooks) (bs : List (Option ℕ)) (m : Memory)
    → KeepsReady hooks
    → AreLive m bs
    → Passes m bs (run_all hooks bs m)
unfolding run_all all_ready
run_all-Passes hooks [] m keeping live = (m, refl, λ q. (refl, refl))
run_all-Passes hooks (none ∷ bs) m keeping live =
    (m, rw (cblock_step-null hooks m, ◌>>=◌) refl, λ q. (refl, refl))
run_all-Passes hooks (some a ∷ bs) m keeping (l, live) =
    let (m1, stepped, same) = cblock_step-Tried hooks keeping m a l in
    rw (stepped, ◌>>=◌)
      (elim (Bool-cases (ready m a)) [
        | inr t ↦ rw t (m1, refl, same)
        | inl t ↦
            let (m2, rest, same') =
              run_all-Passes hooks bs m1 keeping (AreLive-same m m1 bs same live) in
            rw t (
              m2,
              rest ∙ ap (λ b. some (b, m2)) (all_ready_same m m1 bs same),
              λ q. ((same' q).0 ∙ (same q).0, (same' q).1 ∙ (same q).1),
            )
      ])

-- A trigger's pass over its blocks returns, if the blocks are live and no step hook changes which
-- blocks can step: it is one pass over the steps in the order of the configuration, each block as
-- often as configured, and it gets through exactly if every block of it can step. Which blocks can
-- step stays as it is.
pub trigger_blocks_lem :
    (hooks : Hooks) (cs : List TrigConfig) (m : Memory)
    → KeepsReady hooks
    → AreLive m (schedule cs)
    → (m' : Memory) × (trigger_blocks hooks cs m ≡ run_all hooks (schedule cs) m)
      × (trigger_blocks hooks cs m ≡ some (all_ready m (schedule cs), m'))
      × SameReady m m'
trigger_blocks_lem hooks cs m keeping live =
    let e = trigger_blocks-run_all hooks cs m in
    let (m', passed, same) = run_all-Passes hooks (schedule cs) m keeping live in
    (m', e, e ∙ passed, same)
