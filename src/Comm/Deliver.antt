-- ===== src/Comm/Deliver.antt =====
-- What a write is to do: the blocks that it reaches, and the calls of their hooks with their counts.
use collision_avoidance.Base.{
  ℕ, ◌+◌, ◌%◌, ◌^◌, ◌≡◌, refl, true, false, Option, none, some, List, [], ◌∷◌, ◌==◌, if◌then◌else◌,
  inl, inr, Option-cases, ◌∙◌, arith,
}
use collision_avoidance.Types.{BlockArray, UbxData, Block, Memory, is_active}
use collision_avoidance.Hooks.{Hooks, state_of, SameStates}

-- The connected blocks that are active, in order; `m` is the memory before the call.
unfoldable pub active_in : Memory → List (Option ℕ) → List ℕ
active_in m [] = []
active_in m (none ∷ cells) = []
active_in m (some i ∷ cells) =
    let rest = active_in m cells in
    elim (state_of m i) [ none ↦ rest | some s ↦ if is_active s then i ∷ rest else rest ]

-- Every connected block is a live one, and the array is terminated.
abbrev pub AllLive : Memory → List (Option ℕ) → Type 0
AllLive m [] = ⊥
AllLive m (none ∷ cells) = Unit {0}
AllLive m (some i ∷ cells) = ((b : Block) × (m.blocks i ≡ some b)) × AllLive m cells

-- The write hook of the block at an address.
abbrev pub writer_of : Memory → ℕ → Option ℕ
writer_of m a = elim (m.blocks a) [ none ↦ none | some b ↦ b.write ]

-- Write hooks leave the hooks of the blocks alone.
abbrev pub KeepsWriters : Hooks → Type 0
KeepsWriters hooks =
    (f i : ℕ) (d : UbxData) (m : Memory) (a : ℕ) → writer_of (hooks.write f i d m) a ≡ writer_of m a

-- Every block of a list is a live one with a write hook.
abbrev pub HasWriters : Memory → List ℕ → Type 0
HasWriters m [] = Unit {0}
HasWriters m (i ∷ is) = ((f : ℕ) × (writer_of m i ≡ some f)) × HasWriters m is

-- The connections of the port at an address.
abbrev pub links_of : Memory → ℕ → Option BlockArray
links_of m a = elim (m.ports a) [ none ↦ none | some p ↦ some p.out_interaction ]

-- Write hooks leave the connections of the ports alone.
abbrev pub KeepsLinks : Hooks → Type 0
KeepsLinks hooks =
    (f i : ℕ) (d : UbxData) (m : Memory) (a : ℕ) → links_of (hooks.write f i d m) a ≡ links_of m a

-- The memory with one more write counted at a block, or at a port.
unfoldable pub one_more : ℕ → Memory → Memory
one_more i m = elim (m.blocks i) [
  | none ↦ m
  | some b ↦ record m {
    blocks = λ a.
        if i == a
        then some (record b { stat_num_writes = (b.stat_num_writes + 1) % 2 ^ 64 })
        else m.blocks a;
  }
]

unfoldable pub one_more_of : ℕ → Memory → Memory
one_more_of port m = elim (m.ports port) [
  | none ↦ m
  | some p ↦ record m {
    ports = λ a.
        if port == a
        then some (record p { stat_writes = (p.stat_writes + 1) % 2 ^ 64 })
        else m.ports a;
  }
]

-- The specification: for each block of a list one call of its write hook, and one more write.
unfoldable pub deliver : Hooks → UbxData → List ℕ → Memory → Memory
unfolding one_more
deliver hooks d [] m = m
deliver hooks d (i ∷ is) m = elim (writer_of m i) [
  | none ↦ deliver hooks d is m
  | some f ↦ deliver hooks d is (one_more i (hooks.write f i d m))
]

pub active_in-same :
    (m m' : Memory) (cells : List (Option ℕ))
    → SameStates m m'
    → active_in m' cells ≡ active_in m cells
unfolding active_in
active_in-same m m' [] same = refl
active_in-same m m' (none ∷ cells) same = refl
active_in-same m m' (some i ∷ cells) same = ground (arith, same i, active_in-same m m' cells same)

pub AllLive-same :
    (m m' : Memory) (cells : List (Option ℕ)) → SameStates m m' → AllLive m cells → AllLive m' cells
AllLive-same m m' [] same h = absurd h
AllLive-same m m' (none ∷ cells) same h = tt
AllLive-same m m' (some i ∷ cells) same ((b, here), h) = (
  elim (Option-cases (m'.blocks i)) [
    | inl gone ↦ absurd (ground (arith, same i))
    | inr found ↦ found
  ],
  AllLive-same m m' cells same h,
)

pub active_in-active :
    (m : Memory) (i : ℕ) (cells : List (Option ℕ)) (b : Block)
    → m.blocks i ≡ some b
    → is_active b.block_state ≡ true
    → active_in m (some i ∷ cells) ≡ i ∷ active_in m cells
unfolding active_in
active_in-active m i cells b here t = ground arith

pub active_in-idle :
    (m : Memory) (i : ℕ) (cells : List (Option ℕ)) (b : Block)
    → m.blocks i ≡ some b
    → is_active b.block_state ≡ false
    → active_in m (some i ∷ cells) ≡ active_in m cells
unfolding active_in
active_in-idle m i cells b here t = ground arith

pub HasWriters-same :
    (is : List ℕ) (m m' : Memory)
    → ((a : ℕ) → writer_of m' a ≡ writer_of m a)
    → HasWriters m is
    → HasWriters m' is
HasWriters-same [] m m' same h = tt
HasWriters-same (i ∷ is) m m' same ((f, e), h) = ((f, same i ∙ e), HasWriters-same is m m' same h)

-- What a write leaves as it was: the states and write hooks of the blocks and the connections of the
-- ports.
abbrev pub Same : Memory → Memory → Type 0
Same m m' =
    SameStates m m'
    × ((a : ℕ) → writer_of m' a ≡ writer_of m a)
    × ((a : ℕ) → links_of m' a ≡ links_of m a)
