-- ===== src/Lifecycle/Steps.antt =====
-- Which blocks a call of `ubx_cblock_step` steps.
use collision_avoidance.Base.{
  ℕ, ◌≡◌, refl, ◌∙◌, ap, subst, sym, inl, inr, Bool, true, false, ◌&&◌, not, Option, none, some,
  ◌==◌, if◌then◌else◌, ◌>>=◌, Bool-cases, Option-cases, is_none, arith,
}
use collision_avoidance.Base.Int.{ℤ}
use collision_avoidance.Types.{
  Block, Memory, ok, failed, is_active, increment, block_type_computation,
}
use collision_avoidance.Hooks.{Hooks}
use collision_avoidance.Lifecycle.{cblock_step, run_step, put_block}

-- Whether a block, and the block at an address, can step: an active computation with a step hook.
abbrev pub can_step : Block → Bool
can_step b = b.type == block_type_computation && (is_active b.block_state && not (is_none b.step))

abbrev pub ready : Memory → ℕ → Bool
ready m a = elim (m.blocks a) [ none ↦ false | some b ↦ can_step b ]

abbrev pub SameReady : Memory → Memory → Type 0
SameReady m m' = (q : ℕ) → (ready m' q ≡ ready m q) × (is_none (m'.blocks q) ≡ is_none (m.blocks q))

-- No step hook creates or frees a block, or changes whether a block can step.
pub record KeepsReady (hooks : Hooks) : Type 0 where
  pub keeps : (f a : ℕ) (m : Memory) → SameReady m (hooks.step f a m)

-- What a step of the block at `a` returns, and what it keeps.
abbrev pub Tried : Hooks → Memory → ℕ → Option (ℤ × Memory) → Type 0
Tried hooks m a r =
    (m' : Memory) × (r ≡ some (if ready m a then ok else failed, m')) × SameReady m m'

ready_at : (m : Memory) (a : ℕ) (b : Block) → m.blocks a ≡ some b → ready m a ≡ can_step b
ready_at m a b here = ap (λ o. elim o as (λ o. Bool) [ none ↦ false | some b ↦ can_step b ]) here

module _ (hooks : Hooks) (keeping : KeepsReady hooks) (m : Memory) (a : ℕ) where
  count-Tried :
      (m1 : Memory)
      → SameReady m m1
      → ready m a ≡ true
      → is_none (m.blocks a) ≡ false
      → Tried hooks m a (
          m1.blocks a >>= λ b.
          some (ok, put_block m1 a (record b { stat_num_steps = increment b.stat_num_steps })))
  count-Tried m1 same e live = elim (Option-cases (m1.blocks a)) [
    | inl gone ↦ absurd (ground (arith, same a))
    | inr (b, here) ↦ (
      put_block m1 a (record b { stat_num_steps = increment b.stat_num_steps }),
      rw (here, e, ◌>>=◌) refl,
      λ q. elim (Bool-cases (a == q)) [
        | inl t ↦ ground (arith, same q, same a)
        | inr t ↦ ground (arith, same q)
      ],
    )
  ]

  run_step-Tried :
      (f : Option ℕ) (b : Block)
      → m.blocks a ≡ some b
      → b.step ≡ f
      → b.type == block_type_computation ≡ true
      → is_active b.block_state ≡ true
      → Tried hooks m a (run_step hooks f a m)
  unfolding run_step
  run_step-Tried none b here e t u =
      let z : ready m a ≡ false = ready_at m a b here ∙ rw (t, u, e) refl in
      (m, rw z refl, λ q. (refl, refl))
  run_step-Tried (some f) b here e t u =
      count-Tried (hooks.step f a m) (keeping.keeps f a m) (ready_at m a b here ∙ rw (t, u, e) refl)
        (rw here refl)

  not_ready :
      (b : Block) → m.blocks a ≡ some b → can_step b ≡ false → Tried hooks m a (some (failed, m))
  not_ready b here no_step =
      let z : ready m a ≡ false = ready_at m a b here ∙ no_step in (m, rw z refl, λ q. (refl, refl))

  -- A step of a live block returns: 0 if the block can step and -1 if not, and it changes of no block
  -- whether it can.
  pub cblock_step-Tried :
      is_none (m.blocks a) ≡ false → Tried hooks m a (cblock_step hooks (some a) m)
  unfolding cblock_step
  cblock_step-Tried live = elim (Option-cases (m.blocks a)) [
    | inl gone ↦ absurd (ground arith)
    | inr (b, here) ↦
        subst
          (λ o. Tried hooks m a (
            o >>= λ b.
            if b.type == block_type_computation
            then (if is_active b.block_state then run_step hooks b.step a m else some (failed, m))
            else some (failed, m)))
          (sym here)
          (elim (Bool-cases (b.type == block_type_computation)) [
            | inr t ↦ rw t (not_ready b here (rw t refl))
            | inl t ↦ rw t (elim (Bool-cases (is_active b.block_state)) [
              | inr u ↦ rw u (not_ready b here (rw (t, u) refl))
              | inl u ↦ rw u (run_step-Tried b.step b here refl t u)
            ])
          ])
  ]

pub cblock_step-null : (hooks : Hooks) (m : Memory) → cblock_step hooks none m ≡ some (failed, m)
unfolding cblock_step
cblock_step-null hooks m = refl
