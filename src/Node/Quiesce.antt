-- ===== src/Node/Quiesce.antt =====
-- The first two loops of the cleanup of a node leave all its blocks in preinit.
use collision_avoidance.Base.{
  ℕ, ◌≡◌, refl, ◌∙◌, Bool, true, false, String, none, some, List, [], ◌∷◌, ◌>>=◌, Bool-cases,
  Option-cases, inl, inr, arith,
}
use collision_avoidance.Types.{is_active, is_inactive, is_preinit, Memory}
use collision_avoidance.Hooks.{Hooks, state_of, IsQuiet}
use collision_avoidance.Lifecycle.Tags.{
  tag_of, SameTags, KeepsTags, block_stop-Moved, block_cleanup-Moved,
}
use collision_avoidance.Node.{stop_all, cleanup_all}

-- Each entry has a live block of its own name; `inst` says which of them are instances.
abbrev pub Listed : (ℕ → Bool) → List (String × ℕ) → Memory → Type 0
Listed inst [] m = Unit {0}
Listed inst ((k, a) ∷ l) m = (tag_of m a ≡ some (k, inst a)) × Listed inst l m

-- Whether a block may be in a state.
abbrev pub active_at : Memory → ℕ → Bool
active_at m a = elim (state_of m a) [ none ↦ false | some s ↦ is_active s ]

abbrev pub preinit_at : Memory → ℕ → Bool
preinit_at m a = elim (state_of m a) [ none ↦ false | some s ↦ is_preinit s ]

abbrev pub NoneActive : List (String × ℕ) → Memory → Type 0
NoneActive [] m = Unit {0}
NoneActive ((k, a) ∷ l) m = (active_at m a ≡ false) × NoneActive l m

abbrev pub AllPreinit : List (String × ℕ) → Memory → Type 0
AllPreinit [] m = Unit {0}
AllPreinit ((k, a) ∷ l) m = (preinit_at m a ≡ true) × AllPreinit l m

pub Listed-same :
    (inst : ℕ → Bool) (l : List (String × ℕ)) (m m' : Memory)
    → SameTags m m'
    → Listed inst l m
    → Listed inst l m'
Listed-same inst [] m m' same h = tt
Listed-same inst ((k, a) ∷ l) m m' same (e, h) = (same a ∙ e, Listed-same inst l m m' same h)

NoneActive-step :
    (l : List (String × ℕ)) (m m' : Memory)
    → ((q : ℕ) → active_at m q ≡ false → active_at m' q ≡ false)
    → NoneActive l m
    → NoneActive l m'
NoneActive-step [] m m' keep h = tt
NoneActive-step ((k, a) ∷ l) m m' keep (e, h) = (keep a e, NoneActive-step l m m' keep h)

module _ (hooks : Hooks) (quiet : IsQuiet hooks) (keeps : KeepsTags hooks) (inst : ℕ → Bool) where
  pub stop_all_lem :
      (l : List (String × ℕ)) (m : Memory)
      → Listed inst l m
      → (m' : Memory) × (stop_all hooks l m ≡ some m')
        × SameTags m m'
        × NoneActive l m'
        × ((q : ℕ) → active_at m q ≡ false → active_at m' q ≡ false)
  unfolding stop_all
  stop_all_lem [] m h = (m, refl, (λ q. refl), tt, λ q e. e)
  stop_all_lem ((k, a) ∷ l) m (e, h) = elim (Option-cases (m.blocks a)) [
    | inl gone ↦ absurd (ground arith)
    | inr (b, here) ↦ elim (Bool-cases (is_active b.block_state)) [
      | inr f ↦
          let (m', run, tags, idle, keep) = stop_all_lem l m h in
          (m', rw (here, ◌>>=◌) (rw f run), tags, (keep a (ground arith), idle), keep)
      | inl t ↦
          let (m1, stops, tags1, states1) = block_stop-Moved hooks quiet keeps m a b here t in
          let (m', run, tags, idle, keep) = stop_all_lem l m1 (Listed-same inst l m m1 tags1 h) in
          (
            m',
            rw (here, ◌>>=◌) (rw t (rw (stops, ◌>>=◌) run)),
            (λ q. tags q ∙ tags1 q),
            (keep a (ground (arith, states1 a)), idle),
            λ q idle_q. keep q (ground (arith, states1 q)),
          )
    ]
  ]

  pub cleanup_all_lem :
      (l : List (String × ℕ)) (m : Memory)
      → Listed inst l m
      → NoneActive l m
      → (m' : Memory) × (cleanup_all hooks l m ≡ some m')
        × SameTags m m'
        × AllPreinit l m'
        × ((q : ℕ) → preinit_at m q ≡ true → preinit_at m' q ≡ true)
  unfolding cleanup_all
  cleanup_all_lem [] m h idle = (m, refl, (λ q. refl), tt, λ q e. e)
  cleanup_all_lem ((k, a) ∷ l) m (e, h) (idle_a, idle) = elim (Option-cases (m.blocks a)) [
    | inl gone ↦ absurd (ground arith)
    | inr (b, here) ↦ elim (Bool-cases (is_inactive b.block_state)) [
      | inr f ↦
          let (m', run, tags, done, keep) = cleanup_all_lem l m h idle in
          (m', rw (here, ◌>>=◌) (rw f run), tags, (keep a (ground arith), done), keep)
      | inl t ↦
          let (m1, cleans, tags1, states1) = block_cleanup-Moved hooks quiet keeps m a b here t in
          let (m', run, tags, done, keep) =
            cleanup_all_lem l m1 (Listed-same inst l m m1 tags1 h)
              (NoneActive-step l m m1 (λ q idle_q. ground (arith, states1 q)) idle) in
          (
            m',
            rw (here, ◌>>=◌) (rw t (rw (cleans, ◌>>=◌) run)),
            (λ q. tags q ∙ tags1 q),
            (keep a (ground (arith, states1 a)), done),
            λ q done_q. keep q (ground (arith, states1 q)),
          )
    ]
  ]
