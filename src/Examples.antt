-- ===== src/Examples.antt =====
-- A node of six ports, three interactions and a computation, with the hooks of a small
-- interaction: the input of the examples below.
pub mod Links
pub mod Cycle
pub mod Samples
pub mod Clock
pub mod Names
pub mod Blocks
pub mod Buffers
pub mod Removals
pub mod Copies
pub mod Nodes
pub mod Rings
pub mod Runs
pub mod Robots
pub mod Bases
pub mod Arms
use collision_avoidance.Base.{
  ℕ, ◌≡◌, refl, Bool, if◌then◌else◌, true, false, Option, none, some, List, [], ◌∷◌, ◌==◌, ◌⊎◌, inl,
  inr, ◌∙◌, sym, subst, Bool-cases, Option-cases, arith,
}
use collision_avoidance.Base.Int.{ℤ, pos, negsuc}
use collision_avoidance.Types.{
  UbxType, UbxData, BlockArray, Port, Block, BlockState, preinit, inactive, active, Memory, update,
  ok, port_dir_in, port_dir_out, block_type_computation, block_type_interaction,
}
use collision_avoidance.Hooks.{Hooks, SameStates, IsQuiet}
use collision_avoidance.Lifecycle.{put_block}

abbrev pub double : UbxType
double = record { addr = 7; name = "double"; type_class = 1; size = 8 }

abbrev pub sample : UbxData
sample = record { type = some double; len = 1; buffer = some (0 ∷ []) }

abbrev pub port_of : ℕ → BlockArray → BlockArray → Port
port_of attrs ins outs = record {
  name = some "port";
  doc = none;
  attrs = attrs;
  state = 0;
  in_type_name = some "double";
  out_type_name = some "double";
  in_type = some double;
  out_type = some double;
  in_data_len = 1;
  out_data_len = 1;
  in_interaction = ins;
  out_interaction = outs;
  stat_writes = 0;
  stat_reades = 0;
  block = some 10;
}

abbrev pub block_of : ℕ → BlockState → Option ℕ → Block
block_of type state read = record {
  name = "block";
  meta_data = "";
  type = type;
  ports = none;
  configs = none;
  block_state = state;
  prototype = none;
  ni = some 1;
  init = some 1;
  start = none;
  stop = none;
  cleanup = none;
  step = some 1;
  stat_num_steps = 0;
  read = read;
  write = some 1;
  stat_num_reads = 0;
  stat_num_writes = 0;
  private_data = 0;
}

-- A store from its entries.
abbrev pub at : {A : Type 0} → List (ℕ × A) → ℕ → Option A
at [] n = none
at ((k, v) ∷ l) n = if k == n then some v else at l n

-- Ports 1 and 2 are not connected; 3 reads from an inactive and an active interaction, 4 writes to
-- both, 5 reads from the one whose hook fails.
abbrev pub ports : List (ℕ × Port)
ports =
    (1, port_of port_dir_out none none)
    ∷ (2, port_of port_dir_in none none)
    ∷ (3, port_of port_dir_in (some (some 21 ∷ some 20 ∷ none ∷ [])) none)
    ∷ (4, port_of port_dir_out none (some (some 21 ∷ some 20 ∷ none ∷ [])))
    ∷ (5, port_of port_dir_in (some (some 22 ∷ some 20 ∷ none ∷ [])) none)
    ∷ (6, port_of port_dir_in (some (some 21 ∷ none ∷ [])) none)
    ∷ []

abbrev pub blocks : List (ℕ × Block)
blocks =
    (10, block_of block_type_computation preinit none)
    ∷ (20, block_of block_type_interaction active (some 1))
    ∷ (21, block_of block_type_interaction inactive (some 1))
    ∷ (22, block_of block_type_interaction active (some 2))
    ∷ []

abbrev pub world : Memory
world = record { ports = at ports; blocks = at blocks; alloc = λ n. true }

abbrev store : ℕ → ℕ → Memory → Memory
store i v m = elim (m.blocks i) [
  | none ↦ m
  | some b ↦ put_block m i (record b { private_data = v })
]

-- Hook 1 reads a sample, hook 2 fails; a write keeps the length of the sample.
abbrev pub hooks : Hooks
hooks = record {
  init = λ f a m. (ok, m);
  start = λ f a m. (ok, m);
  stop = λ f a m. m;
  cleanup = λ f a m. m;
  step = λ f a m. m;
  read = λ f i d m. if f == 1 then (pos 1, d, m) else (negsuc 0, d, m);
  write = λ f i d m. store i d.len m;
}

store-SameStates : (i v : ℕ) (m : Memory) → SameStates m (store i v m)
store-SameStates i v m q = elim (Option-cases (m.blocks i)) [
  | inl gone ↦ ground arith
  | inr (b, here) ↦ ground arith
]

pub hooks-IsQuiet : IsQuiet hooks
hooks-IsQuiet = record {
  quiet_init = λ f a m q. refl;
  quiet_start = λ f a m q. refl;
  quiet_stop = λ f a m q. refl;
  quiet_cleanup = λ f a m q. refl;
  quiet_step = λ f a m q. refl;
  quiet_read = λ f a d m q. elim (Bool-cases (f == 1)) [ inl e ↦ rw e refl | inr e ↦ rw e refl ];
  quiet_write = λ f a d m. store-SameStates a d.len m;
}
