-- ===== src/Fifo/Read.antt =====
-- Reading from the ring.
use collision_avoidance.Base.{
  ℕ, zero, suc, ◌+◌, ◌-◌, ◌≤◌, ◌<◌, ◌≡◌, ◌≢◌, refl, ap, ap₂, ◌∙◌, inl, inr, true, false, Option,
  none, some, List, [], ◌∷◌, arith, leb, ltb, ◌==◌, if◌then◌else◌, Bool-cases, Option-cases, length,
  ◌>>=◌,
}
use collision_avoidance.Base.Int.{ℤ, pos}
use collision_avoidance.Types.{UbxType, UbxData}
use collision_avoidance.Comm.{same_type}
use collision_avoidance.Data.{bytes}
use collision_avoidance.Fifo.{
  Fifo, overwrite, read_size, chunk1, copy_out, take_chunk, read_typed, fifo_read, two_64,
}
use collision_avoidance.Fifo.Ring.{IsRing}

overwrite_none : (b : List ℕ) (o : ℕ) → overwrite b o [] ≡ b
unfolding overwrite
overwrite_none [] o = refl
overwrite_none (b ∷ bs) zero = refl
overwrite_none (b ∷ bs) (suc o) = ap (λ l. b ∷ l) (overwrite_none bs o)

read_size_lem : (f : Fifo) → read_size f ≡ 0
unfolding read_size
read_size_lem f = ground arith

chunk1-ahead : (f : Fifo) → f.rdptr < f.wrptr → chunk1 f ≡ 0
unfolding chunk1
chunk1-ahead f h = ground arith

chunk1-behind :
    (f : Fifo)
    → f.wrptr < f.rdptr
    → f.rdptr < f.size
    → f.size < two_64
    → chunk1 f ≡ f.size - f.wrptr
unfolding chunk1
chunk1-behind f h k l = rw (read_size_lem f) (ground arith)

copy_out-none :
    (dest : List ℕ) (o : ℕ) (buff : List ℕ) → o ≤ length buff → copy_out dest o buff 0 ≡ some dest
unfolding copy_out
copy_out-none dest o buff h =
    let e : leb (o + 0) (length buff) ≡ true = ground arith in
    let z : leb 0 (length dest) ≡ true = ground arith in rw (e, z, overwrite_none dest 0) refl

copy_out-beyond :
    (dest : List ℕ) (o : ℕ) (buff : List ℕ) (n : ℕ)
    → length buff < o + n
    → copy_out dest o buff n ≡ none
unfolding copy_out
copy_out-beyond dest o buff n h =
    let e : leb (o + n) (length buff) ≡ false = ground arith in rw e refl

with_bytes : UbxData → Option (List ℕ) → UbxData
with_bytes msg b = record msg { buffer = b }

refilled :
    (msg : UbxData)
    → with_bytes msg (elim msg.buffer [ none ↦ none | some b ↦ some (bytes msg) ]) ≡ msg
unfolding with_bytes
refilled msg = ap (with_bytes msg) (elim (Option-cases msg.buffer) [
  | inl e ↦ rw e refl
  | inr (b, e) ↦ rw e (ap (λ o. some (elim o as (λ o. List ℕ) [ none ↦ [] | some c ↦ c ])) e)
])

module _ (f : Fifo) (msg : UbxData) (t : UbxType) (ring : IsRing f) where
  take_chunk-ahead :
      f.rdptr < f.wrptr
      → t.size ≢ 0
      → take_chunk f msg t ≡ some (pos 0, msg, record f { rdptr = 0 })
  unfolding take_chunk with_bytes
  take_chunk-ahead h sized =
      let w = ring.whole in
      let r = ring.rd in
      let n : (t.size == 0) ≡ false = ground arith in
      rw
        (
          chunk1-ahead f h,
          copy_out-none (bytes msg) f.rdptr f.buff (omega arith),
          ◌>>=◌,
          n,
          read_size_lem f,
        )
        (ap₂ (λ n m. some (pos n, m, record f { rdptr = 0 })) (ground arith) (refilled msg))

  take_chunk-behind : f.wrptr < f.rdptr → f.size < two_64 → take_chunk f msg t ≡ none
  unfolding take_chunk
  take_chunk-behind h small =
      let w = ring.whole in
      let r = ring.rd in
      rw
        (
          chunk1-behind f h r small,
          copy_out-beyond (bytes msg) f.rdptr f.buff (f.size - f.wrptr) (omega arith),
        )
        refl

same_type_refl : (t : UbxType) → same_type (some t) (some t) ≡ true
unfolding same_type
same_type_refl t = ground arith

fifo_read-typed :
    (errno : ℤ) (f : Fifo) (msg : UbxData) (t : UbxType)
    → (f.rdptr == f.wrptr) ≡ false
    → f.type ≡ some t
    → msg.type ≡ some t
    → fifo_read errno true f msg ≡ take_chunk f msg t
unfolding fifo_read read_typed
fifo_read-typed errno f msg t apart e d =
    let s : same_type msg.type (some t) ≡ true =
      ap (λ o. same_type o (some t)) d ∙ same_type_refl t in
    rw apart (ap (λ o. read_typed o f msg) e ∙ rw s refl)

-- A read of the ring's own type never gives data. On an empty ring it returns 0. Where the read
-- pointer is before the write pointer it returns 0 as well and leaves the message,
-- but moves the read pointer to the start of the ring. Where the ring wraps, it copies from past
-- the end of the ring.
pub fifo_read_lem :
    (errno : ℤ) (f : Fifo) (msg : UbxData) (t : UbxType)
    → IsRing f
    → f.size < two_64
    → f.type ≡ some t
    → msg.type ≡ some t
    → t.size ≢ 0
    → fifo_read errno true f msg ≡ (
        if f.rdptr == f.wrptr
        then some (pos 0, msg, f)
        else if ltb f.rdptr f.wrptr
        then some (pos 0, msg, record f { rdptr = 0 })
        else none)
unfolding fifo_read
fifo_read_lem errno f msg t ring small e d sized = elim (Bool-cases (f.rdptr == f.wrptr)) [
  | inl same ↦ rw same refl
  | inr apart ↦
      fifo_read-typed errno f msg t apart e d
      ∙ rw apart (elim (Bool-cases (ltb f.rdptr f.wrptr)) [
        | inl h ↦ rw h (take_chunk-ahead f msg t ring (ground arith) sized)
        | inr h ↦ rw h (take_chunk-behind f msg t ring (ground arith) small)
      ])
]
