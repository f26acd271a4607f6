-- ===== src/Fifo/Ring.antt =====
-- Writing to the ring: what is read later is what was written, in its order.
use collision_avoidance.Base.{
  ℕ, zero, suc, ◌+◌, ◌-◌, ◌≤◌, ◌<◌, ◌≡◌, refl, ap, ◌∙◌, sym, ◌⊎◌, inl, inr, ◌&&◌, Option, none,
  some, List, [], ◌∷◌, ◌++◌, arith, leb, ltb, if◌then◌else◌, Bool-cases, length, get_elem?, take,
  drop, length-take, length-drop, length-append,
}
use collision_avoidance.Fifo.{Fifo, overwrite, empty_space, used_space}

module _ {ℓ} {A : Type ℓ} where
  pub get-take :
      (n : ℕ) (xs : List A) (k : ℕ)
      → get_elem? (take n xs) k ≡ (if ltb k n then get_elem? xs k else none)
  get-take zero xs k = ground arith
  get-take (suc n) [] k = ground arith
  get-take (suc n) (x ∷ xs) zero = ground arith
  get-take (suc n) (x ∷ xs) (suc k) = get-take n xs k ∙ ground arith

  pub get-drop : (n : ℕ) (xs : List A) (k : ℕ) → get_elem? (drop n xs) k ≡ get_elem? xs (n + k)
  get-drop zero xs k = ap (get_elem? xs) (omega arith)
  get-drop (suc n) [] k = refl
  get-drop (suc n) (x ∷ xs) k = get-drop n xs k ∙ ground arith

  pub get-append :
      (xs ys : List A) (k : ℕ)
      → get_elem? (xs ++ ys) k
        ≡ (if ltb k (length xs) then get_elem? xs k else get_elem? ys (k - length xs))
  get-append [] ys k = ground arith
  get-append (x ∷ xs) ys zero = ground arith
  get-append (x ∷ xs) ys (suc k) = get-append xs ys k ∙ ground arith

  pub get-beyond : (xs : List A) (k : ℕ) → length xs ≤ k → get_elem? xs k ≡ none
  get-beyond [] k h = refl
  get-beyond (x ∷ xs) zero h = absurd (omega arith)
  get-beyond (x ∷ xs) (suc k) h = get-beyond xs k (omega arith)

  pub list_ext : (xs ys : List A) → ((k : ℕ) → get_elem? xs k ≡ get_elem? ys k) → xs ≡ ys
  list_ext [] [] h = refl
  list_ext [] (y ∷ ys) h = absurd (let e : none ≡ some y = h 0 in cc)
  list_ext (x ∷ xs) [] h = absurd (let e : some x ≡ none = h 0 in cc)
  list_ext (x ∷ xs) (y ∷ ys) h =
      let e : some x ≡ some y = h 0 in let t : xs ≡ ys = list_ext xs ys (λ k. h (suc k)) in cc

pub length-overwrite : (b : List ℕ) (o : ℕ) (xs : List ℕ) → length (overwrite b o xs) ≡ length b
unfolding overwrite
length-overwrite [] o xs = refl
length-overwrite (b ∷ bs) zero [] = refl
length-overwrite (b ∷ bs) zero (x ∷ xs) = ap suc (length-overwrite bs 0 xs)
length-overwrite (b ∷ bs) (suc o) xs = ap suc (length-overwrite bs o xs)

pub get-overwrite :
    (b : List ℕ) (o : ℕ) (xs : List ℕ) (k : ℕ)
    → o + length xs ≤ length b
    → get_elem? (overwrite b o xs) k
      ≡ (if leb o k && ltb k (o + length xs) then get_elem? xs (k - o) else get_elem? b k)
unfolding overwrite
get-overwrite [] o xs k h = ground arith
get-overwrite (b ∷ bs) zero [] k h = ground arith
get-overwrite (b ∷ bs) zero (x ∷ xs) zero h = ground arith
get-overwrite (b ∷ bs) zero (x ∷ xs) (suc k) h =
    get-overwrite bs 0 xs k (omega arith) ∙ ground arith
get-overwrite (b ∷ bs) (suc o) xs zero h = ground arith
get-overwrite (b ∷ bs) (suc o) xs (suc k) h = get-overwrite bs o xs k (omega arith) ∙ ground arith

pub get-overwrite_old :
    (b : List ℕ) (o : ℕ) (xs : List ℕ) (k : ℕ)
    → o + length xs ≤ length b
    → (k < o) ⊎ (o + length xs ≤ k)
    → get_elem? (overwrite b o xs) k ≡ get_elem? b k
get-overwrite_old b o xs k h c = get-overwrite b o xs k h ∙ ground arith

pub get-overwrite_new :
    (b : List ℕ) (o : ℕ) (xs : List ℕ) (k j : ℕ)
    → o + length xs ≤ length b
    → j < length xs
    → k ≡ o + j
    → get_elem? (overwrite b o xs) k ≡ get_elem? xs j
get-overwrite_new b o xs k j h c e = get-overwrite b o xs k h ∙ ground arith

-- The ring as its user sees it: the bytes from the read pointer to the write pointer.
unfoldable pub contents : Fifo → List ℕ
contents f =
    if leb f.rdptr f.wrptr
    then take (f.wrptr - f.rdptr) (drop f.rdptr f.buff)
    else drop f.rdptr f.buff ++ take f.wrptr f.buff

-- The pointers stand in the buffer, and they meet at its start only.
pub record IsRing (f : Fifo) : Type 0 where
  pub whole : length f.buff ≡ f.size
  pub rd : f.rdptr < f.size
  pub wr : f.wrptr < f.size
  pub meet : f.rdptr ≡ f.wrptr → f.rdptr ≡ 0

-- Where in the buffer a position of the contents is.
unfoldable pub offset : Fifo → ℕ → ℕ
offset f k = if ltb (f.rdptr + k) f.size then f.rdptr + k else f.rdptr + k - f.size

-- The byte at a position of the contents.
unfoldable pub slot : Fifo → ℕ → Option ℕ
slot f k = if ltb k (used_space f) then get_elem? f.buff (offset f k) else none

pub contents-slot : (f : Fifo) → IsRing f → (k : ℕ) → get_elem? (contents f) k ≡ slot f k
unfolding contents slot offset used_space
contents-slot f ring k = elim (Bool-cases (leb f.rdptr f.wrptr)) [
  | inl e ↦ rw e (
      get-take (f.wrptr - f.rdptr) (drop f.rdptr f.buff) k
      ∙ rw (get-drop f.rdptr f.buff k) (ground arith))
  | inr e ↦ rw e (
      let n : length (drop f.rdptr f.buff) ≡ f.size - f.rdptr =
        length-drop f.rdptr f.buff ∙ ap (λ l. l - f.rdptr) ring.whole in
      get-append (drop f.rdptr f.buff) (take f.wrptr f.buff) k
      ∙ rw (n, get-drop f.rdptr f.buff k, get-take f.wrptr f.buff (k - (f.size - f.rdptr)))
          (ground arith))
]

pub length-contents : (f : Fifo) → IsRing f → length (contents f) ≡ used_space f
unfolding contents used_space
length-contents f ring =
    let w = ring.whole in
    let d = length-drop f.rdptr f.buff in
    let t = length-take (f.wrptr - f.rdptr) (drop f.rdptr f.buff) in
    let u = length-take f.wrptr f.buff in
    let a = length-append (drop f.rdptr f.buff) (take f.wrptr f.buff) in
    elim (Bool-cases (leb f.rdptr f.wrptr)) [
      | inl e ↦ rw e (ground arith)
      | inr e ↦ rw e (ground arith)
    ]

pub contents-append :
    (f : Fifo) (xs : List ℕ) (k : ℕ)
    → IsRing f
    → get_elem? (contents f ++ xs) k
      ≡ (if ltb k (used_space f) then slot f k else get_elem? xs (k - used_space f))
contents-append f xs k ring =
    get-append (contents f) xs k ∙ rw (length-contents f ring, contents-slot f ring k) refl

-- A position of the contents after a copy to the write pointer; `old` and `new` are the places of
-- the byte in the ring and in the data.
pub slot-step :
    (f : Fifo) (xs buff : List ℕ) (w k : ℕ)
    → let g = record f { buff = buff; wrptr = w } in
      used_space g ≡ used_space f + length xs
      → (k < used_space f → get_elem? buff (offset f k) ≡ get_elem? f.buff (offset f k))
      → (used_space f ≤ k
          → k < used_space f + length xs
          → get_elem? buff (offset f k) ≡ get_elem? xs (k - used_space f))
      → slot g k ≡ (if ltb k (used_space f) then slot f k else get_elem? xs (k - used_space f))
unfolding slot offset
slot-step f xs buff w k used old new =
    let b = get-beyond xs (k - used_space f) in rw used (ground arith)

-- One copy to the write pointer, of data that does not fill the ring and does not wrap.
module _ (f : Fifo) (xs : List ℕ) (ring : IsRing f) (room : length xs < empty_space f)
    (fits : f.rdptr < f.wrptr → f.wrptr + length xs ≤ f.size) where
  copy-within : f.wrptr + length xs ≤ length f.buff
  unfolding empty_space
  copy-within =
      let whole = ring.whole in
      let wr = ring.wr in let rd = ring.rd in let meet = ring.meet in ground arith

  copy-used :
      (w : ℕ)
      → w ≡ (if leb f.size (f.wrptr + length xs) then 0 else f.wrptr + length xs)
      → used_space (record f { buff = overwrite f.buff f.wrptr xs; wrptr = w })
        ≡ used_space f + length xs
  unfolding empty_space used_space
  copy-used w e = let wr = ring.wr in let rd = ring.rd in let meet = ring.meet in ground arith

  copy-old :
      (k : ℕ) → k < used_space f → (offset f k < f.wrptr) ⊎ (f.wrptr + length xs ≤ offset f k)
  unfolding empty_space used_space offset
  copy-old k h = let wr = ring.wr in let rd = ring.rd in let meet = ring.meet in ground arith

  copy-new :
      (k : ℕ)
      → used_space f ≤ k
      → k < used_space f + length xs
      → offset f k ≡ f.wrptr + (k - used_space f)
  unfolding empty_space used_space offset
  copy-new k l h = let wr = ring.wr in let rd = ring.rd in let meet = ring.meet in ground arith

  pub one_chunk :
      (w : ℕ)
      → w ≡ (if leb f.size (f.wrptr + length xs) then 0 else f.wrptr + length xs)
      → let g = record f { buff = overwrite f.buff f.wrptr xs; wrptr = w } in
        IsRing g × (contents g ≡ contents f ++ xs)
  unfolding empty_space
  one_chunk w e =
      let g : Fifo = record f { buff = overwrite f.buff f.wrptr xs; wrptr = w } in
      let whole = ring.whole in
      let rd = ring.rd in
      let wr = ring.wr in
      let meet = ring.meet in
      let ring' : IsRing g = record {
        whole = length-overwrite f.buff f.wrptr xs ∙ ring.whole;
        rd = ring.rd;
        wr = ground arith;
        meet = λ h. ground arith;
      } in
      (
        ring',
        list_ext (contents g) (contents f ++ xs) (λ k.
            contents-slot g ring' k
            ∙ slot-step f xs (overwrite f.buff f.wrptr xs) w k (copy-used w e)
                (λ h. get-overwrite_old f.buff f.wrptr xs (offset f k) copy-within (copy-old k h))
                (λ l h.
                  get-overwrite_new f.buff f.wrptr xs (offset f k) (k - used_space f) copy-within
                    (omega arith) (copy-new k l h))
            ∙ sym (contents-append f xs k ring)),
      )
