-- ===== src/Random.antt =====
-- The random number block (std_blocks/random/random.c). The configuration is given by value, ports
-- by the addresses that `ubx_port_get` returns; the values of `random` are an argument, and so are
-- the bytes of an `unsigned int` (`encode`, `decode`). `none` is a fault.
pub mod Range
use collision_avoidance.Base.{
  ℕ, zero, suc, ◌+◌, ◌-◌, ◌%◌, ◌^◌, Bool, true, false, Option, none, some, List, [], ◌∷◌, ◌==◌, ltb,
  if◌then◌else◌, ◌>>=◌,
}
use collision_avoidance.Base.Int.{ℤ, pos, negsuc}
use collision_avoidance.Types.{Memory, ok, eoutofmem}
use collision_avoidance.Hooks.{Hooks}
use collision_avoidance.Comm.{to_u32}
use collision_avoidance.Boxed.{read_boxed, write_boxed}

-- `struct random_info` and `struct random_config`
pub record RandomInfo : Type 0 where
  pub min : ℤ
  pub max : ℤ

abbrev pub int_max : ℕ
int_max = 2 ^ 31 - 1

unfoldable pub rnd_init : Bool → ℤ × Option RandomInfo
rnd_init true = (ok, some (record { min = pos 0; max = pos 0 }))
rnd_init false = (eoutofmem, none)

-- `inf->max`, from the configuration.
abbrev pub configured_max : ℤ → ℤ
configured_max (pos zero) = pos int_max
configured_max (pos (suc n)) = pos (suc n)
configured_max (negsuc n) = negsuc n

-- The status of `read_uint` is kept in a `uint32_t`; a seed that was read is given to `srandom`.
pub seed_of : (List ℕ → ℕ) → ℤ → List ℕ → Option ℕ
seed_of decode ret bytes = if ltb 0 (to_u32 ret) then some (decode bytes) else none

-- The number that a step writes. `min` and `max` are converted to `unsigned int`; a remainder by 0
-- is a fault.
unfoldable pub rnd_value : RandomInfo → ℕ → Option ℕ
rnd_value inf random =
    let low = to_u32 inf.min in
    let high = to_u32 inf.max in
    let r = random % 2 ^ 32 in
    if high == 0
    then none
    else (let r' = if ltb high r then r % high else r in
        some (if ltb r' low then (low + r') % 2 ^ 32 % high else r'))

module _ (hooks : Hooks) where
  -- Returns 0, with what the block keeps and the seed for `srandom`, if there is one; `stack` has
  -- the bytes of the variable `seed` before it is read.
  unfoldable pub rnd_start :
      (List ℕ → ℕ)
      → List ℕ
      → Option RandomInfo
      → Option ℕ
      → Memory
      → Option (ℤ × RandomInfo × Option ℕ × Memory)
  unfolding seed_of
  rnd_start decode stack conf seed_port m = do
    c ← conf
    r ← read_boxed hooks seed_port 1 stack m
    some (ok, record { min = c.min; max = configured_max c.max }, seed_of decode r.0 r.1, r.2)

  unfoldable pub rnd_step : (ℕ → List ℕ) → RandomInfo → ℕ → Option ℕ → Memory → Option Memory
  unfolding rnd_value
  rnd_step encode inf random rand_port m = do
    value ← rnd_value inf random
    write_boxed hooks rand_port 1 (encode value) m
