-- ===== src/Examples/Copies.antt =====
-- A copy, at a concrete prototype.
use collision_avoidance.Base.{◌≡◌, refl, true, none, some, List, [], ◌∷◌}
use collision_avoidance.Cells.{has_mark, IsTerminated}
use collision_avoidance.Entries.{is_end}
use collision_avoidance.Types.{Port, Config, Block, block_type_computation, preinit}
use collision_avoidance.Ports.{zero_port, port_name}
use collision_avoidance.Configs.{zero_config, cloned_config}
use collision_avoidance.Creation.{block_clone}
use collision_avoidance.Creation.Laws.{IsCopyOf, AllConfigs, AllPorts, block_clone_lem}
use collision_avoidance.Examples.{double, port_of, block_of}

abbrev configs : List Config
configs = cloned_config "gain" (some "a factor") double 1 true ∷ zero_config ∷ []

abbrev ports_here : List Port
ports_here = port_of 1 none none ∷ zero_port ∷ []

abbrev prototype : Block
prototype = record (block_of block_type_computation preinit none) {
  ports = some ports_here;
  configs = some configs;
}

ports_end : IsTerminated (is_end port_name) ports_here
unfolding has_mark
ports_end = refl

block_clone_lem_example :
    (b : Block) × (cs' : List Config) × (ps' : List Port) × (block_clone prototype "copy" 30
        (λ k. true)
      ≡ some (some b))
    × IsCopyOf b "copy" prototype
    × (b.configs ≡ some cs')
    × AllConfigs cs' configs
    × (b.ports ≡ some ps')
    × AllPorts 30 ps' ports_here
block_clone_lem_example =
    block_clone_lem prototype "copy" 30 (λ k. true) configs ports_here (λ k. refl) refl refl
      ((double, refl), tt) ports_end
