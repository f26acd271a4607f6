-- ===== src/Examples/Blocks.antt =====
-- Ports and configurations, at a concrete block.
use collision_avoidance.Base.{
  ℕ, ◌≡◌, refl, inr, true, String, none, some, List, [], ◌∷◌, ◌++◌, str_eq, if◌then◌else◌,
}
use collision_avoidance.Cells.{has_mark, IsTerminated}
use collision_avoidance.Entries.{is_end}
use collision_avoidance.Entries.Laws.{or_else}
use collision_avoidance.Hash.{assoc, lookup}
use collision_avoidance.Types.{Port, Config, Block, block_type_computation, preinit, ok}
use collision_avoidance.Registry.{TypeRef, TypeTable, type_get}
use collision_avoidance.Ports.{
  zero_port, cells_or_none, port_name, port_type, port_add, port_rm, port_get,
}
use collision_avoidance.Ports.Laws.{
  ports_of, IsNewPort, CanAdd, PortRemoved, port_get-add, port_rm_lem,
}
use collision_avoidance.Configs.{
  zero_config, cloned_config, config_name, node_type, config_add, config_get,
}
use collision_avoidance.Configs.Laws.{IsNewConfig, configs_of, config_get-add}
use collision_avoidance.Examples.{double, port_of, block_of}

-- The type `double` alone.
abbrev table : TypeTable (assoc TypeRef)
table = record {
  types = ("double", record { type_ptr = double; seqid = 0; hash = 1 ∷ [] }) ∷ [];
  cur_seqid = 1;
}

abbrev two_ports : List Port
two_ports =
    port_of 1 none none ∷ record (port_of 2 none none) { name = some "out" } ∷ zero_port ∷ []

abbrev one_config : List Config
one_config = cloned_config "gain" none double 1 true ∷ zero_config ∷ []

abbrev block : Block
block = record (block_of block_type_computation preinit none) {
  prototype = some "prototype";
  ports = some two_ports;
  configs = some one_config;
}

abbrev blank : ℕ → Port
blank k = zero_port

abbrev blank_config : ℕ → Config
blank_config k = zero_config

known : type_get (assoc TypeRef) "double" table ≡ some double
unfolding type_get lookup str_eq
known = refl

-- Node 1 has these types.
abbrev tables : ℕ → TypeTable (assoc TypeRef)
tables ni = table

known_port : port_type (assoc TypeRef) tables (some 1) (some "double") ≡ some (true, some double)
unfolding port_type type_get lookup str_eq
known_port = refl

CanAdd-block :
    CanAdd (assoc TypeRef) tables block (some "double") none (some double) none (λ k. true)
unfolding port_type has_mark
CanAdd-block = record {
  instance_block = refl;
  has_end = inr (two_ports, refl, refl);
  in_known = known_port;
  out_known = refl;
  memory = λ k. refl;
}

port_get-add_example :
    (b' : Block) × (p : Port) × (port_add
        (assoc TypeRef)
        tables
        blank
        (λ k. true)
        10
        (some block)
        (some "new")
        none
        (some "double")
        1
        none
        0
        0
      ≡ some (ok, some b'))
    × IsNewPort p "new" none (some double) 1 none 0 0
    × (ports_of b' ≡ ports_of block ++ p ∷ [])
    × IsTerminated (is_end port_name) (cells_or_none b'.ports)
    × ((j : String)
        → port_get (some b') (some j)
          ≡ or_else (port_get (some block) (some j)) (if str_eq "new" j then some p else none))
port_get-add_example =
    port_get-add (assoc TypeRef) tables blank (λ k. true) 10 block "new" none (some "double") none 1
      0 0 (some double) none CanAdd-block

ports_end : IsTerminated (is_end port_name) two_ports
unfolding has_mark
ports_end = refl

port_rm_lem_example : PortRemoved block "out" (port_rm (some block) "out")
port_rm_lem_example = port_rm_lem block "out" two_ports refl refl ports_end

configs_end : IsTerminated (is_end config_name) one_config
unfolding has_mark
configs_end = refl

known_config : node_type (assoc TypeRef) tables (some 1) "double" ≡ some (some double)
unfolding node_type type_get lookup str_eq
known_config = refl

config_get-add_example :
    (b' : Block) × (c : Config) × (config_add
        (assoc TypeRef)
        tables
        blank_config
        (λ k. true)
        (some block)
        "limit"
        none
        "double"
        2
      ≡ some (ok, some b'))
    × IsNewConfig c "limit" none double 2
    × (configs_of b' ≡ configs_of block ++ c ∷ [])
    × IsTerminated (is_end config_name) (cells_or_none b'.configs)
    × ((j : String)
        → config_get (some b') (some j)
          ≡ or_else (config_get (some block) (some j)) (if str_eq "limit" j then some c else none))
config_get-add_example =
    config_get-add (assoc TypeRef) tables blank_config (λ k. true) block "limit" none "double" 2
      double known_config (inr (one_config, refl, configs_end)) (λ k. refl)
