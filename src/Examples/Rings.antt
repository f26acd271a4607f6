-- ===== src/Examples/Rings.antt =====
-- A ring of four bytes that wraps.
use collision_avoidance.Base.{
  ◌≡◌, refl, ◌++◌, true, none, some, [], ◌∷◌, take, ltb, ◌==◌, if◌then◌else◌, arith,
}
use collision_avoidance.Base.Int.{pos}
use collision_avoidance.Types.{UbxType, UbxData}
use collision_avoidance.Data.{bytes, data_size}
use collision_avoidance.Fifo.{Fifo, fifo_init, fifo_write, fifo_read, empty_space, empty_fifo}
use collision_avoidance.Fifo.Ring.{IsRing, contents}
use collision_avoidance.Fifo.Write.{fifo_write_lem}
use collision_avoidance.Fifo.Read.{fifo_read_lem}

abbrev byte : UbxType
byte = record { addr = 9; name = "uint8_t"; type_class = 1; size = 1 }

-- The byte 4 is in the ring; its writer is about to wrap.
abbrev ring : Fifo
ring = record {
  size = 4;
  buff = 1 ∷ 2 ∷ 3 ∷ 4 ∷ [];
  rdptr = 2;
  wrptr = 3;
  type = some byte;
  overrun_policy = 0;
  overruns = 0;
}

abbrev message : UbxData
message = record { type = some byte; len = 2; buffer = some (8 ∷ 9 ∷ []) }

ring-IsRing : IsRing ring
ring-IsRing = record {
  whole = refl;
  rd = omega arith;
  wr = omega arith;
  meet = λ h. absurd (omega arith);
}

fifo_write_lem_example :
    (g : Fifo) × (fifo_write true ring message ≡ some g)
    × IsRing g
    × (contents g ≡ contents ring ++ take (data_size (some message)) (bytes message))
unfolding empty_space data_size
fifo_write_lem_example =
    fifo_write_lem ring message byte ring-IsRing refl (omega arith) (omega arith)

fifo_read_lem_example : fifo_read (pos 1) true ring message ≡ (
    if ring.rdptr == ring.wrptr
    then some (pos 0, message, ring)
    else if ltb ring.rdptr ring.wrptr
    then some (pos 0, message, record ring { rdptr = 0 })
    else none)
fifo_read_lem_example =
    fifo_read_lem (pos 1) ring message byte ring-IsRing (omega arith) refl refl (omega arith)

-- A write that fills an empty ring leaves it empty.
full_is_empty :
    fifo_write true (empty_fifo (λ n. 0) 2) message
    ≡ some (record (empty_fifo (λ n. 0) 2) { buff = 8 ∷ 9 ∷ []; type = some byte })
unfolding fifo_write
full_is_empty = refl

-- The configured size is read from the pointer to the type.
init_size :
    fifo_init (λ n. 0) (λ n. true) (some (record message { buffer = some (2 ∷ 0 ∷ 0 ∷ 0 ∷ []) }))
    ≡ some (pos 0, some (empty_fifo (λ n. 0) 9))
unfolding fifo_init
init_size = refl
