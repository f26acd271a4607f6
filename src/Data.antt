-- ===== src/Data.antt =====
-- Typed buffers (src/ubx.c: `__ubx_data_alloc`, `ubx_data_alloc`, `ubx_data_resize`, `data_copy`,
-- `ubx_data_assign`, `data_size`). A buffer is the list of its bytes; an access outside of it, and
-- one through NULL, is a fault, `none`. `alloc` has the outcomes of the allocations of a call.
pub mod Laws
use collision_avoidance.Base.{
  ℕ, ◌+◌, ◌-◌, ◌*◌, ◌/◌, ◌%◌, ◌^◌, Bool, true, false, not, ◌&&◌, ◌||◌, String, Option, none, some,
  List, [], ◌∷◌, ◌++◌, ◌==◌, leb, ltb, if◌then◌else◌, ◌>>=◌, length, take, drop, replicate,
}
use collision_avoidance.Base.Int.{ℤ, pos, negsuc}
use collision_avoidance.Cells.{resize}
use collision_avoidance.Hash.{Hash}
use collision_avoidance.Types.{UbxType, UbxData, type_class_basic, type_class_struct, ok, failed}
use collision_avoidance.Comm.{same_type}
use collision_avoidance.Registry.{TypeRef, TypeTable, type_get}

-- The pointer that an allocation returns: NULL, one to memory that was freed again, or some data.
pub data Allocation : Type 0 where
  null dangling : Allocation
  live : UbxData → Allocation

-- `len` elements of `size` bytes, all 0.
abbrev pub zeros : UbxType → ℕ → UbxData
zeros t len = record { type = some t; len = len; buffer = some (replicate (len * t.size) 0) }

-- Where the second allocation fails, the data is freed and its address returned all the same.
unfoldable pub raw_alloc : Option UbxType → ℕ → (ℕ → Bool) → Allocation
raw_alloc none array_len alloc = null
raw_alloc (some t) array_len alloc =
    if array_len == 0
    then null
    else if not (alloc 0)
    then null
    else if not (alloc 1)
    then dangling
    else live (zeros t array_len)

-- The node is NULL or has a table of types.
unfoldable pub data_alloc :
    (T : Hash TypeRef) → Option (TypeTable T) → String → ℕ → (ℕ → Bool) → Allocation
unfolding raw_alloc
data_alloc T none name array_len alloc = null
data_alloc T (some n) name array_len alloc = elim (type_get T name n) [
  | none ↦ null
  | some t ↦ raw_alloc (some t) array_len alloc
]

-- An `unsigned int`.
unfoldable pub data_size : Option UbxData → ℕ
data_size none = 0
data_size (some d) = elim d.type [ none ↦ 0 | some t ↦ (d.len * t.size) % 2 ^ 32 ]

abbrev pub bytes : UbxData → List ℕ
bytes d = elim d.buffer [ none ↦ [] | some b ↦ b ]

-- `fill` gives the bytes that `realloc` adds. The size in bytes is an `unsigned int`.
pub data_resize : (ℕ → ℕ) → Bool → UbxData → ℕ → Option (ℤ × UbxData)
data_resize fill grown d newlen = do
  t ← d.type
  some (
      if grown
      then (
        ok,
        record d {
          buffer = some (resize fill ((newlen * t.size) % 2 ^ 32) (bytes d));
          len = newlen;
        },
      )
      else (failed, d))

-- `memcpy(dest, src, size)`: the bytes of the destination after it.
pub memcpy : Option (List ℕ) → Option (List ℕ) → ℕ → Option (List ℕ)
memcpy dest src size = do
  to ← dest
  from ← src
  if leb size (length to) && leb size (length from)
      then some (take size from ++ drop size to)
      else none

-- `a / b`, a fault for `b` = 0.
abbrev pub divide : ℕ → ℕ → Option ℕ
divide a b = if b == 0 then none else some (a / b)

-- The conversion of a number below 2 ^ 32 to an `int`.
abbrev pub to_int : ℕ → ℤ
to_int q = if ltb q (2 ^ 31) then pos q else negsuc (2 ^ 32 - 1 - q)

-- `a % b`, a fault for `b` = 0.
abbrev pub remainder : ℕ → ℕ → Option ℕ
remainder a b = if b == 0 then none else some (a % b)

-- With the check of CONFIG_PARANOIA, which src/ubx.h defines.
unfoldable pub data_copy : UbxData → Option (List ℕ) → ℕ → Option (ℤ × UbxData)
unfolding data_size memcpy
data_copy dest src size = if ltb (data_size (some dest)) size then some (pos 0, dest) else (do
  t ← dest.type
  rest ← remainder size t.size
  if not (rest == 0) then some (pos 0, dest) else (do
    new ← memcpy dest.buffer src size
    q ← divide size t.size
    some (to_int q, record dest { buffer = some new })))

-- A basic type or a struct.
abbrev pub is_plain : UbxType → Bool
is_plain t = t.type_class == type_class_basic || t.type_class == type_class_struct

-- The lengths are not compared: the code's test is of the target's length with itself.
pub data_assign : UbxData → UbxData → Option (ℤ × UbxData)
unfolding data_size memcpy
data_assign tgt src = if not (same_type src.type tgt.type) then some (failed, tgt) else (do
  t ← src.type
  if not (is_plain t) then some (failed, tgt) else (do
    new ← memcpy tgt.buffer src.buffer (data_size (some tgt))
    some (ok, record tgt { buffer = some new })))
