-- ===== src/Fifo.antt =====
-- The fifo interaction (std_blocks/simple_fifo/simple_fifo.c). The ring is a list of bytes, its two
-- pointers are offsets; `locked` is whether the mutex could be locked. `none` is a fault: an access
-- outside of a buffer or through NULL, or a division by zero.
pub mod Ring
pub mod Read
pub mod Write
use collision_avoidance.Base.{
  ℕ, zero, suc, ◌+◌, ◌-◌, ◌*◌, ◌/◌, ◌%◌, ◌^◌, Bool, true, false, ◌&&◌, Option, none, some, List, [],
  ◌∷◌, ◌++◌, ◌==◌, leb, ltb, if◌then◌else◌, ◌>>=◌, length, take, drop,
}
use collision_avoidance.Base.Int.{ℤ, pos}
use collision_avoidance.Types.{UbxType, UbxData, increment, ok, failed, eport_invalid_type}
use collision_avoidance.Comm.{same_type}
use collision_avoidance.Data.{bytes, data_size}

-- `struct fifo_block_info`
pub record Fifo : Type 0 where
  pub size : ℕ
  pub buff : List ℕ
  pub rdptr : ℕ
  pub wrptr : ℕ
  pub type : Option UbxType
  pub overrun_policy : ℕ
  pub overruns : ℕ

abbrev pub drop_new : ℕ
drop_new = 1

abbrev pub drop_old : ℕ
drop_old = 2

-- The first four bytes of the `ubx_data_t` that `ubx_config_get_data` returns: they are those of its
-- pointer to a type.
pub config_word : Option UbxData → Option ℕ
config_word none = none
config_word (some d) = elim d.type [ none ↦ some 0 | some t ↦ some (t.addr % 2 ^ 32) ]

-- `fill` gives the bytes of the new buffer.
abbrev pub fresh : (ℕ → ℕ) → ℕ → List ℕ
fresh fill zero = []
fresh fill (suc n) = fill n ∷ fresh fill n

-- An empty ring over a new buffer; the policy is that of cleared memory.
abbrev pub empty_fifo : (ℕ → ℕ) → ℕ → Fifo
empty_fifo fill size = record {
  size = size;
  buff = fresh fill size;
  rdptr = 0;
  wrptr = 0;
  type = none;
  overrun_policy = 0;
  overruns = 0;
}

unfoldable pub fifo_init : (ℕ → ℕ) → (ℕ → Bool) → Option UbxData → Option (ℤ × Option Fifo)
unfolding config_word
fifo_init fill alloc config =
    if alloc 0
    then (do
      word ← config_word config
      let size = if word == 0 then 16 else word
      some (if alloc 1 then (ok, some (empty_fifo fill size)) else (failed, none)))
    else some (failed, none)

unfoldable pub empty_space : Fifo → ℕ
empty_space f = if leb f.rdptr f.wrptr then f.size - (f.wrptr - f.rdptr) else f.rdptr - f.wrptr

pub used_space : Fifo → ℕ
used_space f = if ltb f.wrptr f.rdptr then f.size - (f.rdptr - f.wrptr) else f.wrptr - f.rdptr

-- The bytes of a list from an offset on, written over.
pub overwrite : List ℕ → ℕ → List ℕ → List ℕ
overwrite [] o xs = []
overwrite (b ∷ bs) zero [] = b ∷ bs
overwrite (b ∷ bs) zero (x ∷ xs) = x ∷ overwrite bs zero xs
overwrite (b ∷ bs) (suc o) xs = b ∷ overwrite bs o xs

-- `memcpy(&buff[o], src, n)`, within the buffer and within the source.
pub copy_in : List ℕ → ℕ → List ℕ → ℕ → Option (List ℕ)
unfolding overwrite
copy_in buff o src n =
    if leb (o + n) (length buff) && leb n (length src)
    then some (overwrite buff o (take n src))
    else none

-- The type is that of the first data that was written; the message on it reads its name.
learn_type : Fifo → UbxData → Option Fifo
learn_type f msg = elim f.type [
  | some t ↦ some f
  | none ↦ do t ← msg.type; some (record f { type = some t })
]

-- The length of the second chunk.
chunk2 : Fifo → ℕ → ℕ
chunk2 f len = if ltb f.rdptr f.wrptr then len - (f.size - f.wrptr) else 0

-- The copies of two chunks of these lengths.
copy_chunks : Fifo → List ℕ → ℕ → ℕ → Option Fifo
unfolding copy_in
copy_chunks f src len1 len2 = do
  buff1 ← copy_in f.buff f.wrptr src len1
  let wrptr1 = if leb f.size (f.wrptr + len1) then 0 else f.wrptr + len1
  if ltb 0 len2
      then (do
        buff2 ← copy_in buff1 0 (drop len1 src) len2
        some (record f { buff = buff2; wrptr = len2 }))
      else some (record f { buff = buff1; wrptr = wrptr1 })

-- From the point on at which there is space.
store : Fifo → List ℕ → ℕ → Option Fifo
unfolding chunk2 copy_chunks
store f src len = copy_chunks f src (len - chunk2 f len) (chunk2 f len)

-- The read pointer of DROP_OLD.
abbrev pub forward : Fifo → ℕ → ℕ
forward f len = if ltb f.size (f.rdptr + len) then f.rdptr + len - f.size else f.rdptr + len

-- What is done where there is not enough space, and the store after it.
overrun : Fifo → List ℕ → ℕ → Option Fifo
unfolding store
overrun f src len =
    let counted = record f { overruns = increment f.overruns } in
    if f.overrun_policy == drop_new
    then some counted
    else if f.overrun_policy == drop_old
    then store (record counted { rdptr = forward f len }) src len
    else some counted

unfoldable pub fifo_write : Bool → Fifo → UbxData → Option Fifo
unfolding learn_type empty_space overrun store data_size
fifo_write false f msg = some f
fifo_write true f msg =
    let len = data_size (some msg) in
    if ltb f.size len then some f else (do
      g ← learn_type f msg
      if ltb (empty_space g) len then overrun g (bytes msg) len else store g (bytes msg) len)

abbrev pub two_64 : ℕ
two_64 = 2 ^ 64

-- A difference of two `unsigned long`.
abbrev pub sub_ulong : ℕ → ℕ → ℕ
sub_ulong a b = (a + two_64 - b % two_64) % two_64

-- `memcpy(dest, &buff[o], n)`: the bytes of the destination.
pub copy_out : List ℕ → ℕ → List ℕ → ℕ → Option (List ℕ)
unfolding overwrite
copy_out dest o buff n =
    if leb (o + n) (length buff) && leb n (length dest)
    then some (overwrite dest 0 (take n (drop o buff)))
    else none

-- The number of bytes to read is 0 from its declaration on.
pub read_size : Fifo → ℕ
unfolding used_space
read_size f = let readsz : ℕ = 0 in if ltb (used_space f) readsz then used_space f else readsz

-- The length of the first chunk; it stays 0 where the ring does not wrap.
chunk1 : Fifo → ℕ
unfolding read_size
chunk1 f =
    if ltb f.wrptr f.rdptr
    then sub_ulong (read_size f) (sub_ulong (read_size f) (f.size - f.wrptr))
    else 0

-- The copy of the first chunk; there is none of the second.
take_chunk : Fifo → UbxData → UbxType → Option (ℤ × UbxData × Fifo)
unfolding chunk1 copy_out read_size
take_chunk f msg t = do
  new ← copy_out (bytes msg) f.rdptr f.buff (chunk1 f)
  let filled = record msg { buffer = elim msg.buffer [ none ↦ none | some b ↦ some new ] }
  if t.size == 0
      then none
      else some (pos (read_size f / t.size), filled, record f { rdptr = chunk1 f })

-- The check of the type; the message on a mismatch reads the name of the ring's type.
read_typed : Option UbxType → Fifo → UbxData → Option (ℤ × UbxData × Fifo)
unfolding take_chunk
read_typed none f msg = none
read_typed (some t) f msg =
    if same_type msg.type (some t) then take_chunk f msg t else some (eport_invalid_type, msg, f)

-- `errno` is what a failing lock returns.
unfoldable pub fifo_read : ℤ → Bool → Fifo → UbxData → Option (ℤ × UbxData × Fifo)
unfolding read_typed
fifo_read errno false f msg = some (errno, msg, f)
fifo_read errno true f msg =
    if f.rdptr == f.wrptr then some (pos 0, msg, f) else read_typed f.type f msg
