-- ===== src/Lifecycle/States.antt =====
-- The names of the states.
use collision_avoidance.Base.{ℕ, zero, suc, ◌≡◌, ◌≤◌, ◌<◌, ◌↔◌, none, arith}
use collision_avoidance.Base.Int.{pos}
use collision_avoidance.Lifecycle.{block_state_tostr}

-- On a state that is not negative, `block_state_tostr` reads past the end of its table exactly for
-- the numbers 3 to 23.
pub block_state_tostr_lem : (n : ℕ) → (block_state_tostr (pos n) ≡ none) ↔ ((3 ≤ n) × (n < 24))
unfolding block_state_tostr
block_state_tostr_lem zero = ground arith
block_state_tostr_lem (suc zero) = ground arith
block_state_tostr_lem (suc (suc zero)) = ground arith
block_state_tostr_lem (suc (suc (suc n))) = ground arith
