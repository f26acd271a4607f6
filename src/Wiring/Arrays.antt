-- ===== src/Wiring/Arrays.antt =====
-- What `array_block_add` and `array_block_rm` do to the connected blocks of an array.
use collision_avoidance.Base.{
  ℕ, zero, suc, ◌+◌, ◌-◌, ◌<◌, ◌≡◌, ◌≢◌, refl, ap, ◌∙◌, ◌⊎◌, inl, inr, true, false, List, [], ◌∷◌,
  ◌++◌, Option, none, some, is_none, Perm, All, get_elem?, length, length-append, set, Bool-cases,
  swap_remove, swap_remove-perm, ◌==◌, if◌then◌else◌, arith,
}
use collision_avoidance.Base.Int.{ℤ}
use collision_avoidance.Cells.{
  resize, count, elems, take_out, IsTerminated, elems-append_cell, append_cell-IsTerminated,
  length-elems, elems-take_out, take_out-IsTerminated,
}
use collision_avoidance.Types.{BlockArray, ok, failed, eoutofmem}
use collision_avoidance.Wiring.{array_block_add, array_block_rm, last_match, rm_matched, cells_of}

-- The blocks that an array connects: those before its NULL.
unfoldable pub connected : BlockArray → List (Option ℕ)
unfolding cells_of
connected arr = elems is_none (cells_of arr)

-- NULL, or an array with a NULL in it.
abbrev pub IsArray : BlockArray → Type 0
IsArray none = Unit
IsArray (some cells) = IsTerminated is_none cells

append_block :
    (fill : ℕ → Option ℕ) (cells : List (Option ℕ)) (b : ℕ)
    → let k = count is_none cells in
      let new = set (set (resize fill (2 + k) cells) (2 + k - 2) (some b)) (2 + k - 1) none in
      (elems is_none new ≡ elems is_none cells ++ some b ∷ []) × IsTerminated is_none new
append_block fill cells b =
    let k = count is_none cells in
    let e : 2 + k ≡ suc (suc k) = omega arith in
    let f : 2 + k - 2 ≡ k = omega arith in
    let g : 2 + k - 1 ≡ suc k = omega arith in
    rw (f, g, e)
      (
        elems-append_cell is_none fill cells k (some b) none refl refl refl,
        append_cell-IsTerminated is_none fill cells k (some b) none refl refl,
      )

-- Where there is memory, `array_block_add` returns 0, connects the block after the others, and
-- leaves a terminated array.
pub array_block_add_grows :
    (fill : ℕ → Option ℕ) (arr : BlockArray) (b : ℕ)
    → let (ret, new) = array_block_add fill true arr b in
      (ret ≡ ok) × (connected new ≡ connected arr ++ some b ∷ []) × IsArray new
unfolding array_block_add connected count
array_block_add_grows fill none b = let r = append_block fill [] b in (refl, r.0, r.1)
array_block_add_grows fill (some cells) b = let r = append_block fill cells b in (refl, r.0, r.1)

pub connected-null : connected none ≡ []
unfolding connected elems
connected-null = refl

-- Where there is none, `array_block_add` fails with EOUTOFMEM and drops the array.
pub array_block_add_fails :
    (fill : ℕ → Option ℕ) (arr : BlockArray) (b : ℕ)
    → array_block_add fill false arr b ≡ (eoutofmem, none)
unfolding array_block_add
array_block_add_fails fill arr b = refl

-- What the scan has found: no match among the elements, or an index at which `b` stands.
abbrev Found : List (Option ℕ) → ℕ → ℕ → Option ℕ → Option ℕ → Type 0
Found cells b cnt acc result =
    ((result ≡ acc) × All (λ c. c ≢ some b) (elems is_none cells))
    ⊎ ((j : ℕ) × (result ≡ some (cnt + j))
        × (j < count is_none cells)
        × (get_elem? (elems is_none cells) j ≡ some (some b)))

Found-cons :
    (c : ℕ) (cells : List (Option ℕ)) (b cnt : ℕ) (acc result : Option ℕ)
    → Found cells b (suc cnt) (if c == b then some cnt else acc) result
    → Found (some c ∷ cells) b cnt acc result
unfolding elems count
Found-cons c cells b cnt acc result (inr (j, e, h, g)) = inr (suc j, ground arith, omega arith, g)
Found-cons c cells b cnt acc result (inl (e, a)) = elim (Bool-cases (c == b)) [
  | inl t ↦ inr (zero, ground arith, omega arith, ground arith)
  | inr t ↦ inl (ground arith, (ground arith, a))
]

last_match-Found :
    (cells : List (Option ℕ)) (b cnt : ℕ) (acc : Option ℕ)
    → Found cells b cnt acc (last_match cells b cnt acc)
unfolding last_match elems
last_match-Found [] b cnt acc = inl (refl, tt)
last_match-Found (none ∷ cells) b cnt acc = inl (refl, tt)
last_match-Found (some c ∷ cells) b cnt acc =
    Found-cons c cells b cnt acc _
      (last_match-Found cells b (suc cnt) (if c == b then some cnt else acc))

-- The two outcomes of a removal.
abbrev pub Removed : BlockArray → ℕ → ℤ × BlockArray → Type 0
Removed arr b r =
    ((r.0 ≡ ok) × Perm (some b ∷ connected r.1) (connected arr))
    ⊎ ((r.0 ≡ failed) × (r.1 ≡ arr) × All (λ c. c ≢ some b) (connected arr))

rm_matched-Removed :
    (cells : List (Option ℕ)) (b : ℕ) (match : Option ℕ)
    → IsTerminated is_none cells
    → Found cells b 0 none match
    → Removed (some cells) b (rm_matched cells match) × IsArray (rm_matched cells match).1
unfolding rm_matched connected
rm_matched-Removed cells b none t (inl (e, a)) = (inr (refl, refl, a), t)
rm_matched-Removed cells b (some i) t (inl (e, a)) = cc
rm_matched-Removed cells b none t (inr (j, e, h, g)) = cc
rm_matched-Removed cells b (some i) t (inr (j, e, h, g)) =
    let at_i : i ≡ j = ground arith in
    let below : i < count is_none cells = omega arith in
    (
      inl (
        refl,
        rw (elems-take_out is_none none cells i refl below)
            (swap_remove-perm (elems is_none cells) i (some b) (rw at_i g)),
      ),
      take_out-IsTerminated is_none none cells i below t,
    )

-- `array_block_rm` of a terminated array leaves a terminated array. It either removes one occurrence
-- of the block, keeps all others (their order aside) and returns 0, or there is no occurrence, and
-- it changes nothing and returns -1.
pub array_block_rm_lem :
    (cells : List (Option ℕ)) (b : ℕ)
    → IsTerminated is_none cells
    → (r : ℤ × BlockArray) × (array_block_rm (some cells) b ≡ some r)
      × Removed (some cells) b r
      × IsArray r.1
unfolding array_block_rm
array_block_rm_lem cells b t =
    let r = rm_matched-Removed cells b _ t (last_match-Found cells b 0 none) in
    (rm_matched cells (last_match cells b 0 none), rw t refl, r.0, r.1)

last_match_empty :
    (cells : List (Option ℕ)) (b cnt : ℕ) (acc : Option ℕ)
    → elems is_none cells ≡ []
    → last_match cells b cnt acc ≡ acc
unfolding last_match elems
last_match_empty [] b cnt acc e = refl
last_match_empty (none ∷ cells) b cnt acc e = refl
last_match_empty (some c ∷ cells) b cnt acc e = cc

-- The last match is at the end, if the block was the last one added.
last_match-append :
    (cells : List (Option ℕ)) (xs : List (Option ℕ)) (b cnt : ℕ) (acc : Option ℕ)
    → elems is_none cells ≡ xs ++ some b ∷ []
    → last_match cells b cnt acc ≡ some (cnt + length xs)
unfolding last_match elems
last_match-append [] [] b cnt acc e = cc
last_match-append [] (x ∷ xs) b cnt acc e = cc
last_match-append (none ∷ cells) [] b cnt acc e = cc
last_match-append (none ∷ cells) (x ∷ xs) b cnt acc e = cc
last_match-append (some c ∷ cells) [] b cnt acc e =
    last_match_empty cells b (suc cnt) _ (ground arith) ∙ ground arith
last_match-append (some c ∷ cells) (x ∷ xs) b cnt acc e =
    last_match-append cells xs b (suc cnt) (if c == b then some cnt else acc) (ground arith)
    ∙ ap some (omega arith)

swap_remove-append :
    (xs : List (Option ℕ)) (x : Option ℕ) → swap_remove (xs ++ x ∷ []) (length xs) ≡ xs
swap_remove-append [] x = refl
swap_remove-append (y ∷ ys) x = ap (λ l. y ∷ l) (swap_remove-append ys x)

pub array_block_rm_last :
    (cells xs : List (Option ℕ)) (b : ℕ)
    → IsTerminated is_none cells
    → elems is_none cells ≡ xs ++ some b ∷ []
    → (r : ℤ × BlockArray) × (array_block_rm (some cells) b ≡ some r)
      × (r.0 ≡ ok)
      × (connected r.1 ≡ xs)
      × IsArray r.1
unfolding array_block_rm rm_matched connected
array_block_rm_last cells xs b t e = (
  (ok, some (take_out is_none none cells i)),
  rw (t, at_end),
  refl,
  elems-take_out is_none none cells i refl below ∙ rw e (swap_remove-append xs (some b)),
  take_out-IsTerminated is_none none cells i below t,
)
  where
    i : ℕ
    i = length xs

    at_end : last_match cells b 0 none ≡ some i
    at_end = last_match-append cells xs b 0 none e ∙ ap some (omega arith)

    below : i < count is_none cells
    below = omega (arith, length-elems is_none cells, ap length e, length-append xs (some b ∷ []))

-- Removing the block that was added last restores the connections.
pub array_block_rm-add :
    (fill : ℕ → Option ℕ) (arr : BlockArray) (b : ℕ)
    → (r : ℤ × BlockArray) × (array_block_rm (array_block_add fill true arr b).1 b ≡ some r)
      × (r.0 ≡ ok)
      × (connected r.1 ≡ connected arr)
      × IsArray r.1
unfolding array_block_add connected
array_block_rm-add fill arr b =
    let g = array_block_add_grows fill arr b in array_block_rm_last _ (connected arr) b g.2 g.1
