-- ===== src/Comm.antt =====
-- Reading and writing ports (src/ubx.c: `get_typename`, `__port_read`, `__port_write`). Ports and
-- blocks are seen by address in `Memory`; the samples that the caller's `ubx_data_t` holds are a
-- value, which a read hook returns changed. `__port_read` is modelled for read hooks that leave the
-- connections of the port alone: the array is read once, at the start.
-- `none` as the outcome of a call is a fault.
pub mod Read
pub mod Deliver
pub mod Write
use collision_avoidance.Base.{
  ℕ, ◌+◌, ◌-◌, ◌%◌, ◌^◌, ◌*◌, Bool, true, false, Option, none, some, List, [], ◌∷◌, String, ◌==◌,
  zero, suc, length, get_elem?, ltb, if◌then◌else◌, ◌>>=◌,
}
use collision_avoidance.Base.Int.{ℤ, pos, negsuc}
use collision_avoidance.Types.{
  UbxType, UbxData, Port, Block, BlockArray, Memory, update, increment, has_attr, port_dir_in,
  port_dir_out, is_active, failed, eport_invalid, eport_invalid_type,
}
use collision_avoidance.Hooks.{Hooks}
use collision_avoidance.Lifecycle.{put_block}
use collision_avoidance.Wiring.{put_port}

-- The conversion of an `int` to `uint32_t`.
abbrev pub to_u32 : ℤ → ℕ
to_u32 (pos n) = n % 2 ^ 32
to_u32 (negsuc n) = 2 ^ 32 - 1 - n % 2 ^ 32

-- The name of the type of some data, NULL without data or type.
unfoldable pub get_typename : Option UbxData → Option String
get_typename none = none
get_typename (some d) = elim d.type [ none ↦ none | some t ↦ some t.name ]

-- `p == q` on pointers to types.
unfoldable pub same_type : Option UbxType → Option UbxType → Bool
same_type none none = true
same_type none (some u) = false
same_type (some t) none = false
same_type (some t) (some u) = t.addr == u.addr

-- The message on a type mismatch reads the name of the port's type: a fault where it is NULL.
mismatch : {A : Type 0} → Option UbxType → A → Option A
mismatch none a = none
mismatch (some t) a = some a

-- `(*iaptr)->stat_num_reads++` and `port->stat_reades++`
unfoldable pub count_read : ℕ → ℕ → Memory → Option Memory
count_read port i m = do
  p ← m.ports port
  b ← m.blocks i
  let m' = put_port m port (record p { stat_reades = increment p.stat_reades })
  some (put_block m' i (record b { stat_num_reads = increment b.stat_num_reads }))

-- What a read returns: the status, the data and the memory after it.
abbrev pub Reading : Type 0
Reading = ℕ × UbxData × Memory

-- The test of a status: above 0, as an unsigned number, it ends the loop, and else `rest` goes on.
pub after_read :
    ℕ → ℕ → (ℕ → UbxData → Memory → Option Reading) → ℤ × UbxData × Memory → Option Reading
unfolding count_read
after_read port i rest (status, d', m') = elim (ltb 0 (to_u32 status)) [
  | true ↦ count_read port i m' >>= λ m''. some (to_u32 status, d', m'')
  | false ↦ rest (to_u32 status) d' m'
]

module _ (hooks : Hooks) where
  -- The loop over the connections; `ret` is the status so far.
  pub read_from : ℕ → List (Option ℕ) → ℕ → UbxData → Memory → Option Reading
  unfolding after_read
  read_from port [] ret d m = none
  read_from port (none ∷ cells) ret d m = some (ret, d, m)
  read_from port (some i ∷ cells) ret d m = do
    b ← m.blocks i
    elim (is_active b.block_state) [
      | false ↦ read_from port cells ret d m
      | true ↦ do f ← b.read; after_read port i (read_from port cells) (hooks.read f i d m)
    ]

  read_array : ℕ → BlockArray → UbxData → Memory → Option Reading
  unfolding read_from
  read_array port none d m = some (0, d, m)
  read_array port (some cells) d m = read_from port cells 0 d m

  -- The checks on a port that is not NULL, in the order of the code.
  read_checked : ℕ → UbxData → Memory → Option Reading
  unfolding read_array mismatch same_type
  read_checked port d m = do
    p ← m.ports port
    if has_attr p.attrs port_dir_in
        then (if same_type p.in_type d.type
            then read_array port p.in_interaction d m
            else mismatch p.in_type (0, d, m))
        else some (to_u32 eport_invalid_type, d, m)

  read_data : ℕ → Option UbxData → Memory → Option (ℕ × Option UbxData × Memory)
  unfolding read_checked
  read_data port none m = some (to_u32 failed, none, m)
  read_data port (some d) m =
      if d.len == 0
      then some (to_u32 failed, some d, m)
      else read_checked port d m >>= λ r. some (r.0, some r.1, r.2)

  -- `__port_read`; NULL arguments are `none`.
  unfoldable pub port_read :
      Option ℕ → Option UbxData → Memory → Option (ℕ × Option UbxData × Memory)
  unfolding read_data
  port_read none data_arg m = some (to_u32 eport_invalid, data_arg, m)
  port_read (some port) data_arg m = read_data port data_arg m

  -- `*iaptr`, where `iaptr` points at the cell `k` of an array of `len` cells: hooks may have changed
  -- the array in place. An array of another length is a new one, and the pointer into the old one is
  -- a fault.
  pub out_cell : ℕ → ℕ → ℕ → Memory → Option (Option ℕ)
  out_cell port len k m = do
    p ← m.ports port
    cells ← p.out_interaction
    if length cells == len then get_elem? cells k else none

  -- `write` of one interaction, and its count; the hook may have changed the cell.
  pub write_one : ℕ → ℕ → ℕ → ℕ → ℕ → UbxData → Memory → Option Memory
  unfolding out_cell
  write_one port len k f i d m = do
    let m' = hooks.write f i d m
    cell ← out_cell port len k m'
    j ← cell
    b ← m'.blocks j
    some (put_block m' j (record b { stat_num_writes = increment b.stat_num_writes }))

  -- The loop over the connections: every active interaction is written to. `left` is the number of
  -- cells from `k` on; past the end of the array is a fault.
  pub write_to : ℕ → ℕ → ℕ → ℕ → UbxData → Memory → Option Memory
  unfolding write_one
  write_to port len k zero d m = none
  write_to port len k (suc left) d m = do
    cell ← out_cell port len k m
    elim cell [
      | none ↦ some m
      | some i ↦ do
        b ← m.blocks i
        elim (is_active b.block_state) [
          | false ↦ write_to port len (suc k) left d m
          | true ↦ do
            f ← b.write
            m' ← write_one port len k f i d m
            write_to port len (suc k) left d m'
        ]
    ]

  -- `port->stat_writes++`
  pub count_write : ℕ → Memory → Option Memory
  count_write port m = do
    p ← m.ports port
    some (put_port m port (record p { stat_writes = increment p.stat_writes }))

  write_array : ℕ → BlockArray → UbxData → Memory → Option Memory
  unfolding write_to count_write
  write_array port none d m = some m
  write_array port (some cells) d m =
      write_to port (length cells) 0 (length cells) d m >>= λ m'. count_write port m'

  -- `__port_write`; `data` is not checked for NULL.
  unfoldable pub port_write : Option ℕ → UbxData → Memory → Option Memory
  unfolding write_array mismatch same_type
  port_write none d m = some m
  port_write (some port) d m = do
    p ← m.ports port
    if has_attr p.attrs port_dir_out
        then (if same_type p.out_type d.type
            then write_array port p.out_interaction d m
            else mismatch p.out_type m)
        else some m
