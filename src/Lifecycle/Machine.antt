-- ===== src/Lifecycle/Machine.antt =====
-- The calls on one block refine an automaton of three states.
use collision_avoidance.Base.{
  ℕ, ◌≡◌, refl, Bool, true, Option, none, some, ◌==◌, if◌then◌else◌, ◌>>=◌, ◌⊎◌, inl, inr,
  Bool-cases, Option-cases, arith,
}
use collision_avoidance.Base.Int.{ℤ}
use collision_avoidance.Types.{
  BlockState, preinit, inactive, active, is_preinit, is_inactive, is_active, Block, Memory, ok,
  failed, is_ok, increment, block_type_computation,
}
use collision_avoidance.Hooks.{Hooks, state_of, SameStates, IsQuiet}
use collision_avoidance.Lifecycle.{
  set_state, after_hook, put_block, block_init, block_start, block_stop, block_cleanup, cblock_step,
  run_init, run_start, run_stop, run_cleanup, run_step,
}

pub data Op : Type 0 where
  init start stop cleanup step : Op

-- The calls that the node offers on a block.
unfoldable pub call : Hooks → Op → ℕ → Memory → Option (ℤ × Memory)
call hooks init a m = block_init hooks (some a) m
call hooks start a m = block_start hooks (some a) m
call hooks stop a m = block_stop hooks (some a) m
call hooks cleanup a m = block_cleanup hooks (some a) m
call hooks step a m = cblock_step hooks (some a) m

-- The life cycle: preinit, inactive, active and back; only an active block steps.
unfoldable pub next : BlockState → Op → Option BlockState
next preinit init = some inactive
next inactive start = some active
next active stop = some inactive
next inactive cleanup = some preinit
next active step = some active
next s op = none

-- What a call may do with the states: move that of its block as the life cycle has it and return
-- 0, or leave it and return -1. The states of the other blocks stay.
abbrev pub Moves : Memory → Op → ℕ → ℤ × Memory → Type 0
Moves m op a r =
    ((r.0 ≡ ok)
      × (s s' : BlockState) × (state_of m a ≡ some s)
      × (next s op ≡ some s')
      × ((q : ℕ) → state_of r.1 q ≡ (if a == q then some s' else state_of m q)))
    ⊎ ((r.0 ≡ failed) × SameStates m r.1)

set_state-Moves :
    (m m' : Memory) (op : Op) (a : ℕ) (s s' : BlockState)
    → SameStates m m'
    → state_of m a ≡ some s
    → next s op ≡ some s'
    → (r : ℤ × Memory) × (set_state a s' m' ≡ some r) × Moves m op a r
unfolding set_state
set_state-Moves m m' op a s s' same at_a e = elim (Option-cases (m'.blocks a)) [
  | inl gone ↦ absurd (ground (arith, same a))
  | inr (b, here) ↦ (
    (ok, put_block m' a (record b { block_state = s' })),
    rw (here, ◌>>=◌),
    inl (refl, s, s', at_a, e, λ q. states q b here),
  )
]
  where
    states :
        (q : ℕ) (b : Block)
        → m'.blocks a ≡ some b
        → state_of (put_block m' a (record b { block_state = s' })) q
          ≡ (if a == q then some s' else state_of m q)
    states q b here = elim (Bool-cases (a == q)) [
      | inl t ↦ ground arith
      | inr t ↦ ground (arith, same q)
    ]

after_hook-Moves :
    (m : Memory) (op : Op) (a : ℕ) (s s' : BlockState) (r : ℤ × Memory)
    → SameStates m r.1
    → state_of m a ≡ some s
    → next s op ≡ some s'
    → (r' : ℤ × Memory) × (after_hook a s' r ≡ some r') × Moves m op a r'
unfolding after_hook
after_hook-Moves m op a s s' (ret, m') same at_a e = elim (Bool-cases (is_ok ret)) [
  | inl t ↦ rw t (set_state-Moves m m' op a s s' same at_a e)
  | inr t ↦ rw t ((failed, m'), refl, inr (refl, same))
]

-- A guard that fails leaves everything alone.
stays : (m : Memory) (op : Op) (a : ℕ) → Moves m op a (failed, m)
stays m op a = inr (refl, λ q. refl)

module _ (hooks : Hooks) (quiet : IsQuiet hooks) (m : Memory) (a : ℕ) where
  run_init-Moves :
      (f : Option ℕ)
      → state_of m a ≡ some preinit
      → (r : ℤ × Memory) × (run_init hooks f a m ≡ some r) × Moves m init a r
  unfolding run_init next
  run_init-Moves none e = set_state-Moves m m init a preinit inactive (λ q. refl) e refl
  run_init-Moves (some f) e =
      after_hook-Moves m init a preinit inactive (hooks.init f a m) (quiet.quiet_init f a m) e refl

  run_start-Moves :
      (f : Option ℕ)
      → state_of m a ≡ some inactive
      → (r : ℤ × Memory) × (run_start hooks f a m ≡ some r) × Moves m start a r
  unfolding run_start next
  run_start-Moves none e = set_state-Moves m m start a inactive active (λ q. refl) e refl
  run_start-Moves (some f) e =
      after_hook-Moves m start a inactive active (hooks.start f a m) (quiet.quiet_start f a m) e
        refl

  run_stop-Moves :
      (f : Option ℕ)
      → state_of m a ≡ some active
      → (r : ℤ × Memory) × (run_stop hooks f a m ≡ some r) × Moves m stop a r
  unfolding run_stop next
  run_stop-Moves none e = set_state-Moves m m stop a active inactive (λ q. refl) e refl
  run_stop-Moves (some f) e =
      set_state-Moves m _ stop a active inactive (quiet.quiet_stop f a m) e refl

  run_cleanup-Moves :
      (f : Option ℕ)
      → state_of m a ≡ some inactive
      → (r : ℤ × Memory) × (run_cleanup hooks f a m ≡ some r) × Moves m cleanup a r
  unfolding run_cleanup next
  run_cleanup-Moves none e = set_state-Moves m m cleanup a inactive preinit (λ q. refl) e refl
  run_cleanup-Moves (some f) e =
      set_state-Moves m _ cleanup a inactive preinit (quiet.quiet_cleanup f a m) e refl

  run_step-Moves :
      (f : Option ℕ)
      → state_of m a ≡ some active
      → (r : ℤ × Memory) × (run_step hooks f a m ≡ some r) × Moves m step a r
  unfolding run_step next
  run_step-Moves none e = (_, refl, stays m step a)
  run_step-Moves (some f) e = elim (Option-cases ((hooks.step f a m).blocks a)) [
    | inl gone ↦ absurd (ground (arith, quiet.quiet_step f a m a))
    | inr (b, here) ↦ (
      (
        ok,
        put_block (hooks.step f a m) a (record b { stat_num_steps = increment b.stat_num_steps }),
      ),
      rw (here, ◌>>=◌),
      inl (refl, active, active, e, refl, λ q. stepped f q b here),
    )
  ]
    where
      stepped :
          (f q : ℕ) (b : Block)
          → (hooks.step f a m).blocks a ≡ some b
          → state_of
              (put_block
                (hooks.step f a m)
                a
                (record b { stat_num_steps = increment b.stat_num_steps }))
              q
            ≡ (if a == q then some active else state_of m q)
      stepped f q b here = elim (Bool-cases (a == q)) [
        | inl t ↦ ground (arith, quiet.quiet_step f a m a)
        | inr t ↦ ground (arith, quiet.quiet_step f a m q)
      ]

  -- Each guard, on the state that the block is in.
  guarded :
      (b : Block) (op : Op) (want : BlockState) (test : BlockState → Bool)
      (run : Option (ℤ × Memory))
      → m.blocks a ≡ some b
      → ((s : BlockState) → test s ≡ true → s ≡ want)
      → (state_of m a ≡ some want → (r : ℤ × Memory) × (run ≡ some r) × Moves m op a r)
      → (r : ℤ × Memory) × ((if test b.block_state then run else some (failed, m)) ≡ some r)
        × Moves m op a r
  guarded b op want test run at_a sound go = elim (Bool-cases (test b.block_state)) [
    | inl t ↦ rw t (go (ground (arith, sound b.block_state t)))
    | inr t ↦ rw t ((failed, m), refl, stays m op a)
  ]

  -- With quiet hooks every call on a live block returns (no fault), and moves the states as the
  -- life cycle has it: on 0 the block has taken the one transition of the call, on -1 no state has
  -- changed, and no call changes the state of another block.
  pub call-Moves :
      (b : Block) (op : Op)
      → m.blocks a ≡ some b
      → (r : ℤ × Memory) × (call hooks op a m ≡ some r) × Moves m op a r
  unfolding call block_init block_start block_stop block_cleanup cblock_step
  call-Moves b init at_a =
      rw (at_a, ◌>>=◌)
        (guarded b init preinit is_preinit _ at_a (λ s t. ground arith) (run_init-Moves b.init))
  call-Moves b start at_a =
      rw (at_a, ◌>>=◌)
        (guarded b start inactive is_inactive _ at_a (λ s t. ground arith)
          (run_start-Moves b.start))
  call-Moves b stop at_a =
      rw (at_a, ◌>>=◌)
        (guarded b stop active is_active _ at_a (λ s t. ground arith) (run_stop-Moves b.stop))
  call-Moves b cleanup at_a =
      rw (at_a, ◌>>=◌)
        (guarded b cleanup inactive is_inactive _ at_a (λ s t. ground arith)
          (run_cleanup-Moves b.cleanup))
  call-Moves b step at_a =
      rw (at_a, ◌>>=◌)
        (elim (Bool-cases (b.type == block_type_computation)) [
          | inl t ↦
              rw t (
                guarded b step active is_active _ at_a (λ s u. ground arith)
                  (run_step-Moves b.step))
          | inr t ↦ rw t ((failed, m), refl, stays m step a)
        ])
