-- ===== src/Boxed.antt =====
-- The typed access to ports that blocks use: the functions that `def_write_fun`, `def_read_fun` and
-- their variants for arrays define (src/ubx.h), and `checktype` (src/ubx.c) with
-- CONFIG_TYPECHECK_EXTRA, which src/ubx.h defines. A value is its bytes. `none` is a fault or a failed
-- assertion.
use collision_avoidance.Base.{
  ℕ, ◌-◌, ◌%◌, ◌^◌, String, Option, none, some, List, ◌>>=◌, ltb, if◌then◌else◌,
}
use collision_avoidance.Base.Int.{ℤ, pos, negsuc}
use collision_avoidance.Types.{UbxType, UbxData, Port, Memory, ok, failed}
use collision_avoidance.Hooks.{Hooks}
use collision_avoidance.Comm.{port_read, port_write, same_type}

-- `port->block->ni`
node_of : Port → Memory → Option (Option ℕ)
node_of p m = do a ← p.block; b ← m.blocks a; some b.ni

-- `checktype`: the lookup of the type reads the node, and the asserts are on the node, the type and
-- the name of the port. The result is one for each outcome of the lookup; the functions below ignore
-- it, as the code does.
checktype : Option ℕ → Option UbxType → Option String → Option (Option UbxType → ℤ)
checktype none required portname = none
checktype (some ni) none portname = none
checktype (some ni) (some t) none = none
checktype (some ni) (some t) (some s) =
    some (λ tcheck. if same_type (some t) tcheck then ok else failed)

-- The conversion of a `uint32_t` to `int32_t`.
abbrev pub to_i32 : ℕ → ℤ
to_i32 n = if ltb (n % 2 ^ 32) (2 ^ 31) then pos (n % 2 ^ 32) else negsuc (2 ^ 32 - 1 - n % 2 ^ 32)

module _ (hooks : Hooks) where
  -- `n` elements, in the bytes of a value.
  unfoldable pub write_boxed : Option ℕ → ℕ → List ℕ → Memory → Option Memory
  unfolding node_of checktype
  write_boxed none n value m = some m
  write_boxed (some a) n value m = do
    p ← m.ports a
    ni ← node_of p m
    status ← checktype ni p.out_type p.name
    port_write hooks (some a) (record { type = p.out_type; len = n; buffer = some value }) m

  -- The bytes that a read leaves; `old` has those from before.
  new_bytes : List ℕ → Option UbxData → List ℕ
  new_bytes old none = old
  new_bytes old (some d) = elim d.buffer [ none ↦ old | some new ↦ new ]

  unfoldable pub read_boxed : Option ℕ → ℕ → List ℕ → Memory → Option (ℤ × List ℕ × Memory)
  unfolding node_of checktype new_bytes
  read_boxed none n old m = some (failed, old, m)
  read_boxed (some a) n old m = do
    p ← m.ports a
    ni ← node_of p m
    status ← checktype ni p.in_type p.name
    let d : UbxData = record { type = p.in_type; len = n; buffer = some old }
    (ret, d', m') ← port_read hooks (some a) (some d) m
    some (to_i32 ret, new_bytes old d', m')
