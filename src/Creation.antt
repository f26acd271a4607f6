-- ===== src/Creation.antt =====
-- The copy of a prototype (src/ubx.c: `ubx_block_clone`), by value; `self` is the address of the new
-- block, and `alloc` has the outcomes of the allocations, in their order. The outcome `none` is a
-- fault: `ubx_block_free` of NULL, a configuration without a type, an array without an end. NULL is
-- `some none`.
pub mod Laws
pub mod Create
use collision_avoidance.Base.{
  ℕ, ◌+◌, Bool, true, false, not, ◌&&◌, String, Option, none, some, List, [], ◌∷◌, ◌==◌,
  if◌then◌else◌, ◌>>=◌,
}
use collision_avoidance.Types.{
  Port, Config, Block, preinit, is_ok, block_type_computation, block_type_interaction,
}
use collision_avoidance.Ports.{zero_port, clone_port_data, type_name}
use collision_avoidance.Configs.{zero_config, clone_config_data}

-- The allocations after the first `k`.
abbrev pub skip : ℕ → (ℕ → Bool) → ℕ → Bool
skip k alloc n = alloc (k + n)

abbrev pub used : Option String → ℕ
used none = 0
used (some s) = 1

-- How many allocations a clone takes that does not fail.
abbrev pub config_allocs : Config → ℕ
config_allocs c = 3 + used c.doc

abbrev pub port_allocs : Port → ℕ
port_allocs p = 1 + used p.doc + used (type_name p.in_type) + used (type_name p.out_type)

-- Whether all were cloned, the new array, and the allocations after it.
pub clone_configs : List Config → (ℕ → Bool) → Option (Bool × List Config × (ℕ → Bool))
clone_configs [] alloc = none
clone_configs (c ∷ cs) alloc = elim c.name [
  | none ↦ some (true, zero_config ∷ [], alloc)
  | some name ↦ do
    t ← c.value.type
    let r = clone_config_data zero_config name c.doc t c.value.len alloc
    elim (is_ok r.0) [
      | false ↦ some (false, [], alloc)
      | true ↦ do
        rest ← clone_configs cs (skip (config_allocs c) alloc)
        some (rest.0, r.1 ∷ rest.1, rest.2)
    ]
]

pub clone_ports : ℕ → List Port → (ℕ → Bool) → Option (Bool × List Port × (ℕ → Bool))
clone_ports self [] alloc = none
clone_ports self (p ∷ ps) alloc = elim p.name [
  | none ↦ some (true, zero_port ∷ [], alloc)
  | some name ↦
      let r =
        clone_port_data zero_port (some name) p.doc p.in_type p.in_data_len p.out_type
          p.out_data_len p.state alloc in
      elim (is_ok r.0) [
        | false ↦ some (false, [], alloc)
        | true ↦ do
          rest ← clone_ports self ps (skip (port_allocs p) alloc)
          some (rest.0, record (r.1) { block = some self } ∷ rest.1, rest.2)
      ]
]

-- The array, where the prototype has one: first its allocation, then the loop.
pub clone_array :
    {A : Type 0}
    → (List A → (ℕ → Bool) → Option (Bool × List A × (ℕ → Bool)))
    → Option (List A)
    → (ℕ → Bool)
    → Option (Bool × Option (List A) × (ℕ → Bool))
clone_array run none alloc = some (true, none, alloc)
clone_array run (some xs) alloc = elim (alloc 0) [
  | false ↦ some (false, none, alloc)
  | true ↦ do r ← run xs (skip 1 alloc); some (r.0, some r.1, r.2)
]

-- The new block from its arrays; a hook is copied for blocks of its own kind.
abbrev pub new_block : Block → String → Option (List Config) → Option (List Port) → Block
new_block prot name configs ports = record {
  name = name;
  meta_data = prot.meta_data;
  type = prot.type;
  ports = ports;
  configs = configs;
  block_state = preinit;
  prototype = some prot.name;
  ni = none;
  init = prot.init;
  start = prot.start;
  stop = prot.stop;
  cleanup = prot.cleanup;
  step = if prot.type == block_type_computation then prot.step else none;
  stat_num_steps = 0;
  read = if prot.type == block_type_interaction then prot.read else none;
  write = if prot.type == block_type_interaction then prot.write else none;
  stat_num_reads = 0;
  stat_num_writes = 0;
  private_data = 0;
}

pub block_clone : Block → String → ℕ → (ℕ → Bool) → Option (Option Block)
unfolding clone_array clone_configs clone_ports
block_clone prot name self alloc =
    if not (alloc 0) then none else if not (alloc 1 && alloc 2 && alloc 3) then some none else (do
      cs ← clone_array clone_configs prot.configs (skip 4 alloc)
      elim cs.0 [
        | false ↦ some none
        | true ↦ do
          ps ← clone_array (clone_ports self) prot.ports cs.2
          some (if ps.0 then some (new_block prot name cs.1 ps.1) else none)
      ])
