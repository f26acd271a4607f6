-- ===== src/Wiring.antt =====
-- Connections of ports to interactions (src/ubx.c: `array_block_add` to `ubx_ports_disconnect_uni`).
-- A port pointer is the address of a port in `Memory.ports`, so that the two ports of a call may be
-- one. A block pointer that is not NULL is its address. `none` as the outcome of a call is a fault.
pub mod Arrays
pub mod Update
pub mod Uni
use collision_avoidance.Base.{
  ℕ, zero, suc, ◌+◌, ◌-◌, Bool, true, false, List, [], ◌∷◌, Option, none, some, is_none, ◌==◌,
  if◌then◌else◌, ◌>>=◌, set,
}
use collision_avoidance.Base.Int.{ℤ}
use collision_avoidance.Cells.{resize, count, has_mark, take_out}
use collision_avoidance.Types.{
  Port, Block, BlockArray, Memory, update, has_attr, port_dir_in, port_dir_out, ok, failed,
  eoutofmem, block_type_interaction, is_ok,
}

-- The new length with its terminator: 2, and one more for each element.
new_length : BlockArray → ℕ
new_length none = 2
new_length (some cells) = 2 + count is_none cells

-- The cells of an array, none for NULL.
cells_of : BlockArray → List (Option ℕ)
cells_of none = []
cells_of (some cells) = cells

-- `fill` gives the cells that `realloc` adds, `grown` whether it succeeds. Where it fails, `*arr`
-- has been overwritten by the NULL that it returned.
pub array_block_add : (ℕ → Option ℕ) → Bool → BlockArray → ℕ → ℤ × BlockArray
unfolding new_length cells_of
array_block_add fill grown arr newblock =
    let n = new_length arr in
    let cells = resize fill n (cells_of arr) in
    if grown
    then (ok, some (set (set cells (n - 2) (some newblock)) (n - 1) none))
    else (eoutofmem, none)

-- The scan of `array_block_rm`: the last index at which `rmblock` stands.
pub last_match : List (Option ℕ) → ℕ → ℕ → Option ℕ → Option ℕ
last_match [] rmblock cnt match = match
last_match (none ∷ cells) rmblock cnt match = match
last_match (some b ∷ cells) rmblock cnt match =
    last_match cells rmblock (suc cnt) (if b == rmblock then some cnt else match)

-- The outcome of the scan: -1 where there was no match, and else the removal.
rm_matched : List (Option ℕ) → Option ℕ → ℤ × BlockArray
rm_matched cells none = (failed, some cells)
rm_matched cells (some i) = (ok, some (take_out is_none none cells i))

-- A scan of a NULL array is a fault, and so is one of an array without a NULL in it.
pub array_block_rm : BlockArray → ℕ → Option (ℤ × BlockArray)
unfolding rm_matched
array_block_rm none rmblock = none
array_block_rm (some cells) rmblock =
    if has_mark is_none cells
    then some (rm_matched cells (last_match cells rmblock 0 none))
    else none

-- The allocator after one call.
abbrev pub allocated : Memory → Memory
allocated m = record m { alloc = λ n. m.alloc (suc n) }

abbrev pub put_port : Memory → ℕ → Port → Memory
put_port m a p = record m { ports = update m.ports a p }

pub port_connect_out : (ℕ → Option ℕ) → ℕ → ℕ → Memory → Option (ℤ × Memory)
port_connect_out fill port iblock m = do
  p ← m.ports port
  let added = array_block_add fill (m.alloc 0) p.out_interaction iblock
  some (
      if has_attr p.attrs port_dir_out
      then (added.0, put_port (allocated m) port (record p { out_interaction = added.1 }))
      else (failed, m))

pub port_connect_in : (ℕ → Option ℕ) → ℕ → ℕ → Memory → Option (ℤ × Memory)
port_connect_in fill port iblock m = do
  p ← m.ports port
  let added = array_block_add fill (m.alloc 0) p.in_interaction iblock
  some (
      if has_attr p.attrs port_dir_in
      then (added.0, put_port (allocated m) port (record p { in_interaction = added.1 }))
      else (failed, m))

pub port_disconnect_out : ℕ → ℕ → Memory → Option (ℤ × Memory)
port_disconnect_out port iblock m = do
  p ← m.ports port
  if has_attr p.attrs port_dir_out
      then (do
        removed ← array_block_rm p.out_interaction iblock
        some (removed.0, put_port m port (record p { out_interaction = removed.1 })))
      else some (failed, m)

pub port_disconnect_in : ℕ → ℕ → Memory → Option (ℤ × Memory)
port_disconnect_in port iblock m = do
  p ← m.ports port
  if has_attr p.attrs port_dir_in
      then (do
        removed ← array_block_rm p.in_interaction iblock
        some (removed.0, put_port m port (record p { in_interaction = removed.1 })))
      else some (failed, m)

-- `if((ret = first) != 0) goto out; ret = second`.
abbrev pub and_then : Option (ℤ × Memory) → (Memory → Option (ℤ × Memory)) → Option (ℤ × Memory)
and_then first second = do r ← first; if is_ok r.0 then second r.1 else some r

-- The NULL checks and the kind of the interaction, shared by the two calls on a pair of ports.
checked :
    Option ℕ
    → Option ℕ
    → Option ℕ
    → Memory
    → (ℕ → ℕ → ℕ → Option (ℤ × Memory))
    → Option (ℤ × Memory)
checked out_port in_port none m run = some (failed, m)
checked none in_port (some i) m run = some (failed, m)
checked (some o) none (some i) m run = some (failed, m)
checked (some o) (some p) (some i) m run = do
  b ← m.blocks i
  if b.type == block_type_interaction then run o p i else some (failed, m)

pub ports_connect_uni :
    (ℕ → Option ℕ) → Option ℕ → Option ℕ → Option ℕ → Memory → Option (ℤ × Memory)
unfolding checked
ports_connect_uni fill out_port in_port iblock m =
    checked out_port in_port iblock m
      λ o p i. and_then (port_connect_out fill o i m) (port_connect_in fill p i)

pub ports_disconnect_uni : Option ℕ → Option ℕ → Option ℕ → Memory → Option (ℤ × Memory)
unfolding checked
ports_disconnect_uni out_port in_port iblock m =
    checked out_port in_port iblock m
      λ o p i. and_then (port_disconnect_out o i m) (port_disconnect_in p i)
