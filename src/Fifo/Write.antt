-- ===== src/Fifo/Write.antt =====
-- A write with room: the ring's contents grow by the written bytes, in their order.
use collision_avoidance.Base.{
  ℕ, zero, suc, ◌+◌, ◌-◌, ◌≤◌, ◌<◌, ◌≡◌, refl, ap, ap₂, ◌∙◌, sym, subst, inl, inr, true, false,
  some, List, [], ◌∷◌, ◌++◌, arith, leb, ltb, if◌then◌else◌, Bool-cases, Option-cases, length,
  get_elem?, take, drop, length-take, length-drop, length-append, ◌>>=◌,
}
use collision_avoidance.Types.{UbxType, UbxData}
use collision_avoidance.Data.{bytes, data_size}
use collision_avoidance.Fifo.{
  Fifo, overwrite, empty_space, used_space, store, chunk2, copy_in, copy_chunks, learn_type,
  fifo_write,
}
use collision_avoidance.Fifo.Ring.{
  IsRing, contents, offset, contents-slot, contents-append, slot-step, one_chunk, get-append,
  get-overwrite_old, get-overwrite_new, length-overwrite, list_ext,
}

-- Two copies, the second to the start of the buffer.
module _ (f : Fifo) (xs ys : List ℕ) (ring : IsRing f) (ahead : f.rdptr < f.wrptr)
    (upto : f.wrptr + length xs ≡ f.size) (some_more : 0 < length ys)
    (room : length ys < f.rdptr) where
  wrapped : List ℕ
  wrapped = overwrite (overwrite f.buff f.wrptr xs) 0 ys

  after : Fifo
  after = record f { buff = wrapped; wrptr = length ys }

  after-IsRing : IsRing after
  unfolding after wrapped
  after-IsRing = record {
    whole =
        length-overwrite (overwrite f.buff f.wrptr xs) 0 ys
        ∙ length-overwrite f.buff f.wrptr xs
        ∙ ring.whole;
    rd = ring.rd;
    wr = let rd = ring.rd in omega arith;
    meet = λ h. absurd (omega arith);
  }

  fits : f.wrptr + length xs ≤ length f.buff
  fits = let w = ring.whole in omega arith

  fits_too : 0 + length ys ≤ length (overwrite f.buff f.wrptr xs)
  fits_too =
      let w = ring.whole in
      let l = length-overwrite f.buff f.wrptr xs in let r = ring.rd in omega arith

  wrapped-old :
      (k : ℕ) → k < used_space f → get_elem? wrapped (offset f k) ≡ get_elem? f.buff (offset f k)
  unfolding wrapped offset used_space
  wrapped-old k h =
      get-overwrite_old (overwrite f.buff f.wrptr xs) 0 ys (offset f k) fits_too (ground arith)
      ∙ get-overwrite_old f.buff f.wrptr xs (offset f k) fits (ground arith)

  wrapped-new :
      (k : ℕ)
      → used_space f ≤ k
      → k < used_space f + length (xs ++ ys)
      → get_elem? wrapped (offset f k) ≡ get_elem? (xs ++ ys) (k - used_space f)
  unfolding wrapped offset used_space
  wrapped-new k l h = elim (Bool-cases (ltb (k - used_space f) (length xs))) [
    | inl e ↦
        get-overwrite_old (overwrite f.buff f.wrptr xs) 0 ys (offset f k) fits_too (ground arith)
        ∙ get-overwrite_new f.buff f.wrptr xs (offset f k) (k - used_space f) fits (ground arith)
            (ground arith)
        ∙ sym (get-append xs ys (k - used_space f) ∙ rw e refl)
    | inr e ↦
        let n = length-append xs ys in
        get-overwrite_new (overwrite f.buff f.wrptr xs) 0 ys (offset f k)
          (k - used_space f - length xs) fits_too (ground arith) (ground arith)
        ∙ sym (get-append xs ys (k - used_space f) ∙ rw e refl)
  ]

  wrapped-used : used_space after ≡ used_space f + length (xs ++ ys)
  unfolding after used_space
  wrapped-used = let n = length-append xs ys in let w = ring.wr in ground arith

  after-contents : contents after ≡ contents f ++ (xs ++ ys)
  unfolding after
  after-contents = list_ext (contents after) (contents f ++ (xs ++ ys)) (λ k.
      contents-slot after after-IsRing k
      ∙ slot-step f (xs ++ ys) wrapped (length ys) k wrapped-used (wrapped-old k) (wrapped-new k)
      ∙ sym (contents-append f (xs ++ ys) k ring))

  two_chunks :
      (w : ℕ)
      → length ys ≡ w
      → let g = record f { buff = overwrite (overwrite f.buff f.wrptr xs) 0 ys; wrptr = w } in
        IsRing g × (contents g ≡ contents f ++ (xs ++ ys))
  unfolding after wrapped
  two_chunks w e =
      subst
        (λ n.
          let g = record f { buff = overwrite (overwrite f.buff f.wrptr xs) 0 ys; wrptr = n } in
          IsRing g × (contents g ≡ contents f ++ (xs ++ ys)))
        e (after-IsRing, after-contents)

take-append : (m k n : ℕ) (xs : List ℕ) → n ≡ m + k → take m xs ++ take k (drop m xs) ≡ take n xs
take-append zero k n xs h = ap (λ i. take i xs) (omega arith)
take-append (suc m) k zero xs h = absurd (omega arith)
take-append (suc m) zero (suc n) [] h = refl
take-append (suc m) (suc k) (suc n) [] h = refl
take-append (suc m) k (suc n) (x ∷ xs) h = ap (λ l. x ∷ l) (take-append m k n xs (omega arith))

length-take_of : (n : ℕ) (xs : List ℕ) → n ≤ length xs → length (take n xs) ≡ n
length-take_of n xs h = let t = length-take n xs in omega arith

copy_in_lem :
    (buff : List ℕ) (o : ℕ) (src : List ℕ) (n : ℕ)
    → o + n ≤ length buff
    → n ≤ length src
    → copy_in buff o src n ≡ some (overwrite buff o (take n src))
unfolding copy_in
copy_in_lem buff o src n h k = ground arith

copy_chunks-one :
    (f : Fifo) (src buff : List ℕ) (len : ℕ)
    → copy_in f.buff f.wrptr src len ≡ some buff
    → copy_chunks f src len 0
      ≡ some (record f {
        buff = buff;
        wrptr = if leb f.size (f.wrptr + len) then 0 else f.wrptr + len;
      })
unfolding copy_chunks
copy_chunks-one f src buff len e = rw (e, ◌>>=◌) refl

copy_chunks-two :
    (f : Fifo) (src buff buff' : List ℕ) (len1 len2 : ℕ)
    → 0 < len2
    → copy_in f.buff f.wrptr src len1 ≡ some buff
    → copy_in buff 0 (drop len1 src) len2 ≡ some buff'
    → copy_chunks f src len1 len2 ≡ some (record f { buff = buff'; wrptr = len2 })
unfolding copy_chunks
copy_chunks-two f src buff buff' len1 len2 h e d =
    let t : ltb 0 len2 ≡ true = ground arith in rw (e, ◌>>=◌, t, d) refl

-- What a store with room does.
abbrev Stored : Fifo → List ℕ → ℕ → Type 0
Stored f src len =
    (g : Fifo) × (store f src len ≡ some g) × IsRing g × (contents g ≡ contents f ++ take len src)

module _ (f : Fifo) (src : List ℕ) (len : ℕ) (ring : IsRing f) (room : len < empty_space f)
    (long : len ≤ length src) where
  store-straight : chunk2 f len ≡ 0 → Stored f src len
  unfolding store chunk2 empty_space
  store-straight e =
      let whole = ring.whole in
      let rd = ring.rd in
      let wr = ring.wr in
      let meet = ring.meet in
      let l = length-take_of len src long in
      let w = if leb f.size (f.wrptr + len) then 0 else f.wrptr + len in
      let k : len - chunk2 f len ≡ len = ground arith in
      let c = copy_in_lem f.buff f.wrptr src len (ground arith) long in
      let s = ap₂ (copy_chunks f src) k e in
      let r = one_chunk f (take len src) ring (ground arith) (λ h. ground arith) w (ground arith) in
      (
        record f { buff = overwrite f.buff f.wrptr (take len src); wrptr = w },
        s ∙ copy_chunks-one f src (overwrite f.buff f.wrptr (take len src)) len c,
        r.0,
        r.1,
      )

  store-wrapped : 0 < chunk2 f len → Stored f src len
  unfolding store chunk2 empty_space
  store-wrapped h =
      let whole = ring.whole in
      let rd = ring.rd in
      let n2 = chunk2 f len in
      let n1 = len - n2 in
      let a : f.rdptr < f.wrptr = ground arith in
      let xs = take n1 src in
      let ys = take n2 (drop n1 src) in
      let l1 : length xs ≡ n1 = length-take_of n1 src (omega arith) in
      let d = length-drop n1 src in
      let l2 : length ys ≡ n2 = length-take_of n2 (drop n1 src) (ground arith) in
      let o = length-overwrite f.buff f.wrptr xs in
      let c1 = copy_in_lem f.buff f.wrptr src n1 (ground arith) (omega arith) in
      let c2 =
        copy_in_lem (overwrite f.buff f.wrptr xs) 0 (drop n1 src) n2 (ground arith)
          (ground arith) in
      let r = two_chunks f xs ys ring a (ground arith) (omega arith) (ground arith) n2 l2 in
      let j = take-append n1 n2 len src (ground arith) in
      (
        record f { buff = overwrite (overwrite f.buff f.wrptr xs) 0 ys; wrptr = n2 },
        copy_chunks-two f src (overwrite f.buff f.wrptr xs)
            (overwrite (overwrite f.buff f.wrptr xs) 0 ys) n1 n2 h c1 c2,
        r.0,
        r.1 ∙ ap (λ l. contents f ++ l) j,
      )

  store_lem : Stored f src len
  store_lem = elim (Bool-cases (ltb 0 (chunk2 f len))) [
    | inl e ↦ store-wrapped (ground arith)
    | inr e ↦ store-straight (ground arith)
  ]

empty_space-size : (f : Fifo) → IsRing f → empty_space f ≤ f.size
unfolding empty_space
empty_space-size f ring = let rd = ring.rd in ground arith

-- Learning the type leaves the ring as it is.
learn_type_lem :
    (f : Fifo) (msg : UbxData) (t : UbxType)
    → IsRing f
    → msg.type ≡ some t
    → (g : Fifo) × (learn_type f msg ≡ some g)
      × IsRing g
      × (contents g ≡ contents f)
      × (empty_space g ≡ empty_space f)
unfolding learn_type contents empty_space
learn_type_lem f msg t ring typed = elim (Option-cases f.type) [
  | inl e ↦ (
    record f { type = some t },
    rw (e, typed, ◌>>=◌) refl,
    record { whole = ring.whole; rd = ring.rd; wr = ring.wr; meet = ring.meet },
    refl,
    refl,
  )
  | inr (u, e) ↦ (f, rw e refl, ring, refl, refl)
]

-- A write of at least one byte less than there is space: the ring stays well-formed, and its
-- contents are the old ones followed by the bytes of the data.
pub fifo_write_lem :
    (f : Fifo) (msg : UbxData) (t : UbxType)
    → IsRing f
    → msg.type ≡ some t
    → data_size (some msg) < empty_space f
    → data_size (some msg) ≤ length (bytes msg)
    → (g : Fifo) × (fifo_write true f msg ≡ some g)
      × IsRing g
      × (contents g ≡ contents f ++ take (data_size (some msg)) (bytes msg))
unfolding fifo_write
fifo_write_lem f msg t ring typed room long =
    let len = data_size (some msg) in
    let (g, learned, ring', kept, same) = learn_type_lem f msg t ring typed in
    let room' : len < empty_space g = omega arith in
    let (r, stored, ring'', grown) = store_lem g (bytes msg) len ring' room' long in
    let most = empty_space-size f ring in
    let small : ltb f.size len ≡ false = ground arith in
    let none_missing : ltb (empty_space g) len ≡ false = ground arith in
    (
      r,
      rw (small, learned, ◌>>=◌, none_missing) stored,
      ring'',
      grown ∙ ap (λ l. l ++ take len (bytes msg)) kept,
    )
