-- ===== src/Examples/Removals.antt =====
-- A removal, at a concrete node.
use collision_avoidance.Base.{
  ℕ, ◌≡◌, refl, Bool, String, none, some, List, [], ◌∷◌, str_eq, ◌==◌, ◌&&◌, if◌then◌else◌,
}
use collision_avoidance.Hash.{assoc, lookup, IsDistinct}
use collision_avoidance.Types.{Block, Memory, ok, block_type_interaction, preinit}
use collision_avoidance.Registry.Resolve.{block_get}
use collision_avoidance.Removal.{block_rm}
use collision_avoidance.Removal.Laws.{CanRemove, block_rm_lem}
use collision_avoidance.Examples.{world, at, block_of}

-- An instance of a fifo that was cleaned up, at address 21.
abbrev idle : Block
idle = record (block_of block_type_interaction preinit (some 1)) { prototype = some "fifo" }

abbrev node : Memory
node = record world { blocks = at ((21, idle) ∷ []) }

abbrev listed : List (String × ℕ)
listed = ("a", 20) ∷ ("b", 21) ∷ []

-- Port 4 is the only one of the block at 21.
abbrev ports_of : ℕ → ℕ → Bool
ports_of a q = a == 21 && q == 4

CanRemove-idle : CanRemove (assoc ℕ) ports_of node listed "b" 21
unfolding lookup str_eq
CanRemove-idle = record {
  block = idle;
  listed = refl;
  at_a = refl;
  instance_block = refl;
  idle = refl;
}

block_rm_lem_example :
    (m' : Memory) × (blocks' : List (String × ℕ)) × (block_rm (assoc ℕ) ports_of node listed "b"
      ≡ some (ok, m', blocks'))
    × ((q : ℕ) → m'.blocks q ≡ (if 21 == q then none else node.blocks q))
    × ((q : ℕ) → m'.ports q ≡ (if ports_of 21 q then none else node.ports q))
    × ((j : String)
        → block_get (assoc ℕ) blocks' j
          ≡ (if str_eq "b" j then none else block_get (assoc ℕ) listed j))
    × IsDistinct blocks'
unfolding str_eq
block_rm_lem_example =
    block_rm_lem (assoc ℕ) ports_of node listed "b" 21 ((refl, tt), (tt, tt)) CanRemove-idle
