-- ===== src/Data/Laws.antt =====
-- Sizes of buffers, and assignments between them.
use collision_avoidance.Base.{
  if◌then◌else◌, ◌%◌, ◌&&◌, Bool-cases, inl, inr, ℕ, zero, suc, ◌*◌, ◌/◌, ltb, ◌^◌, ◌≤◌, ◌<◌, ◌≡◌,
  refl, ◌∙◌, sym, ap, Bool, true, false, Option, none, some, List, [], ◌∷◌, ◌++◌, ◌==◌, leb, ◌>>=◌,
  length, take, drop, replicate, arith,
}
use collision_avoidance.Base.Int.{pos}
use native.Mathlib.Nat.{div-le_self}
use collision_avoidance.Cells.{resize}
use collision_avoidance.Types.{UbxType, UbxData, ok}
use collision_avoidance.Comm.{same_type}
use collision_avoidance.Data.{
  live, zeros, raw_alloc, data_size, bytes, data_resize, memcpy, is_plain, data_assign, data_copy,
}

-- Data with a type and a buffer of as many bytes as its length needs.
pub record IsSized (d : UbxData) (t : UbxType) : Type 0 where
  pub at_type : d.type ≡ some t
  pub content : List ℕ
  pub at_buffer : d.buffer ≡ some content
  pub full : length content ≡ d.len * t.size

length-replicate : (n : ℕ) (v : ℕ) → length (replicate n v) ≡ n
length-replicate zero v = refl
length-replicate (suc n) v = ap suc (length-replicate n v)

length-resize : (fill : ℕ → ℕ) (n : ℕ) (xs : List ℕ) → length (resize fill n xs) ≡ n
unfolding resize
length-resize fill zero xs = refl
length-resize fill (suc n) [] = ap suc (length-resize fill n [])
length-resize fill (suc n) (x ∷ xs) = ap suc (length-resize fill n xs)

take_all : (n : ℕ) (xs ys : List ℕ) → length xs ≡ n → length ys ≡ n → take n xs ++ drop n ys ≡ xs
take_all zero [] [] e f = refl
take_all zero [] (y ∷ ys) e f = absurd (omega arith)
take_all zero (x ∷ xs) ys e f = absurd (omega arith)
take_all (suc n) [] ys e f = absurd (omega arith)
take_all (suc n) (x ∷ xs) [] e f = absurd (omega arith)
take_all (suc n) (x ∷ xs) (y ∷ ys) e f =
    ap (λ l. x ∷ l) (take_all n xs ys (omega arith) (omega arith))

-- `__ubx_data_alloc` returns data of the length that was asked for, in a buffer of its size, where
-- the type is not NULL, the length is not 0 and both allocations succeed.
pub raw_alloc-IsSized :
    (t : UbxType) (array_len : ℕ) (alloc : ℕ → Bool)
    → (array_len == 0) ≡ false
    → alloc 0 ≡ true
    → alloc 1 ≡ true
    → (d : UbxData) × (raw_alloc (some t) array_len alloc ≡ live d)
      × (d.len ≡ array_len)
      × IsSized d t
unfolding raw_alloc
raw_alloc-IsSized t array_len alloc some_len first second = (
  zeros t array_len,
  rw some_len (rw first (rw second refl)),
  refl,
  record {
    at_type = refl;
    content = replicate (array_len * t.size) 0;
    at_buffer = refl;
    full = length-replicate (array_len * t.size) 0;
  },
)

-- A resize that finds memory returns 0, and leaves a buffer of the size modulo 2 ^ 32: the whole
-- data where its size is less than that.
pub data_resize_lem :
    (fill : ℕ → ℕ) (d : UbxData) (t : UbxType) (newlen : ℕ)
    → d.type ≡ some t
    → newlen * t.size < 2 ^ 32
    → (d' : UbxData) × (data_resize fill true d newlen ≡ some (ok, d'))
      × (d'.len ≡ newlen)
      × IsSized d' t
      × (data_size (some d') ≡ newlen * t.size)
unfolding data_resize data_size
data_resize_lem fill d t newlen at_type small =
    let size = newlen * t.size in
    let whole : size % 2 ^ 32 ≡ size = omega arith in
    (
      record d { buffer = some (resize fill (size % 2 ^ 32) (bytes d)); len = newlen },
      rw (at_type, ◌>>=◌) refl,
      refl,
      record {
        at_type = at_type;
        content = resize fill (size % 2 ^ 32) (bytes d);
        at_buffer = refl;
        full = length-resize fill (size % 2 ^ 32) (bytes d) ∙ whole;
      },
      rw at_type whole,
    )

-- Where the size is 2 ^ 32 or more, the resize returns 0 as well, with a buffer that is too short
-- for the new length.
pub data_resize_truncates :
    (fill : ℕ → ℕ) (d : UbxData) (t : UbxType) (newlen : ℕ)
    → d.type ≡ some t
    → 2 ^ 32 ≤ newlen * t.size
    → (d' : UbxData) × (data_resize fill true d newlen ≡ some (ok, d'))
      × (d'.len ≡ newlen)
      × (length (bytes d') < newlen * t.size)
unfolding data_resize
data_resize_truncates fill d t newlen at_type large =
    let size = newlen * t.size in
    (
      record d { buffer = some (resize fill (size % 2 ^ 32) (bytes d)); len = newlen },
      rw (at_type, ◌>>=◌) refl,
      refl,
      omega (arith, length-resize fill (size % 2 ^ 32) (bytes d)),
    )

-- Two data of one type.
pub record CanAssign (tgt src : UbxData) (t : UbxType) : Type 0 where
  pub target : IsSized tgt t
  pub source : IsSized src t
  pub plain : is_plain t ≡ true
  pub small : tgt.len * t.size < 2 ^ 32

copy_runs :
    (tgt src : UbxData) (t : UbxType) (r : Option (List ℕ))
    → CanAssign tgt src t
    → memcpy tgt.buffer src.buffer (tgt.len * t.size) ≡ r
    → data_assign tgt src ≡ (r >>= λ new. some (ok, record tgt { buffer = some new }))
unfolding data_assign data_size same_type
copy_runs tgt src t r can e =
    let whole : (tgt.len * t.size) % 2 ^ 32 ≡ tgt.len * t.size = omega (arith, can.small) in
    let same : same_type src.type tgt.type ≡ true =
      rw (can.target.at_type, can.source.at_type) (ground arith) in
    rw same (
      rw (can.source.at_type, ◌>>=◌)
        (rw can.plain (rw (can.target.at_type) (rw whole (rw e refl)))))

-- An assignment between data of one basic or struct type and one length returns 0 and gives the
-- target the content of the source.
pub data_assign_lem :
    (tgt src : UbxData) (t : UbxType)
    → CanAssign tgt src t
    → src.len ≡ tgt.len
    → (d' : UbxData) × (data_assign tgt src ≡ some (ok, d'))
      × (d'.buffer ≡ src.buffer)
      × (d'.len ≡ tgt.len)
unfolding memcpy
data_assign_lem tgt src t can same_len =
    let from = can.source.content in
    let to = can.target.content in
    let size = tgt.len * t.size in
    let len_from : length from ≡ size = can.source.full ∙ rw same_len refl in
    let all = take_all size from to len_from can.target.full in
    let copied : memcpy tgt.buffer src.buffer size ≡ some from =
      rw (can.target.at_buffer, can.source.at_buffer, ◌>>=◌)
        (rw (len_from, can.target.full) (ground (arith, all))) in
    (
      record tgt { buffer = some from },
      copy_runs tgt src t (some from) can copied,
      sym can.source.at_buffer,
      refl,
    )

-- The lengths are not compared: where the target is the longer one, the assignment reads past the
-- end of the source.
pub data_assign_overread :
    (tgt src : UbxData) (t : UbxType)
    → CanAssign tgt src t
    → src.len * t.size < tgt.len * t.size
    → data_assign tgt src ≡ none
unfolding memcpy
data_assign_overread tgt src t can longer =
    let size = tgt.len * t.size in
    let past : leb size (length can.source.content) ≡ false = rw can.source.full (ground arith) in
    let copied : memcpy tgt.buffer src.buffer size ≡ none =
      rw (can.target.at_buffer, can.source.at_buffer, ◌>>=◌) (ground arith) in
    copy_runs tgt src t none can copied

-- From a source that is long enough, for a type of more than no bytes and data below 2^31 bytes: a
-- size that fits in the data and is a multiple of the size of the type overwrites the first bytes of
-- the data, and the outcome is how many elements they are; any other size copies nothing, and the
-- outcome is 0.
pub data_copy_lem :
    (dest : UbxData) (t : UbxType) (src : List ℕ) (size : ℕ) (sized : IsSized dest t)
    → dest.len * t.size < 2 ^ 31
    → size ≤ length src
    → (t.size == 0) ≡ false
    → data_copy dest (some src) size
      ≡ some (
          if leb size (dest.len * t.size) && (size % t.size == 0)
          then (
            pos (size / t.size),
            record dest { buffer = some (take size src ++ drop size sized.content) },
          )
          else (pos 0, dest))
unfolding data_copy data_size memcpy
data_copy_lem dest t src size sized small enough nonzero =
    let whole : (dest.len * t.size) % 2 ^ 32 ≡ dest.len * t.size = omega arith in
    let from_ok : leb size (length src) ≡ true = ground arith in
    elim (Bool-cases (leb size (dest.len * t.size))) [
      | inr big ↦
          let over : ltb (dest.len * t.size) size ≡ true = ground arith in
          rw (big, sized.at_type) (rw whole (rw over refl))
      | inl within ↦
          let fits : ltb (dest.len * t.size) size ≡ false = ground arith in
          let to_ok : leb size (length sized.content) ≡ true = rw sized.full (ground arith) in
          elim (Bool-cases (size % t.size == 0)) [
            | inr odd ↦
                rw (within, odd, sized.at_type)
                  (rw whole (rw fits (rw (nonzero, ◌>>=◌) (rw odd refl))))
            | inl even ↦
                let below : ltb (size / t.size) (2 ^ 31) ≡ true =
                  ground (arith, div-le_self size t.size) in
                rw (within, even, sized.at_type)
                  (rw whole (
                    rw fits (
                      rw (nonzero, ◌>>=◌)
                        (rw even
                          (rw (sized.at_buffer, ◌>>=◌) (rw (to_ok, from_ok) (rw below refl)))))))
          ]
    ]
