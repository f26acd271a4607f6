-- ===== src/Examples/Nodes.antt =====
-- A node with a prototype, an instance of it and a module.
use collision_avoidance.Base.{
  ℕ, ◌≡◌, refl, ◌+◌, ◌⊎◌, inl, Bool, true, false, String, none, some, [], ◌∷◌, ◌==◌, str_eq,
  if◌then◌else◌,
}
use collision_avoidance.Hash.{Hash, assoc, lookup}
use collision_avoidance.Types.{Block, ok, block_type_interaction, active, preinit}
use collision_avoidance.Registry.{TypeRef}
use collision_avoidance.Lifecycle.Tags.{KeepsTags}
use collision_avoidance.Node.{
  Module, Node, Loader, Functions, module_load, module_unload, node_cleanup, node_init, num_blocks,
  num_types, num_modules,
}
use collision_avoidance.Node.Modules.{IsTidy, Loaded, module_load_lem, module_unload-load}
use collision_avoidance.Node.Sweep.{drop_instance}
use collision_avoidance.Node.Cleanup.{CanCleanUp, node_cleanup_lem}
use collision_avoidance.Examples.{world, at, block_of, hooks, hooks-IsQuiet}

abbrev Blocks : Hash ℕ
Blocks = assoc ℕ

abbrev TypeRefs : Hash TypeRef
TypeRefs = assoc TypeRef

abbrev Modules : Hash Module
Modules = assoc Module

-- The prototype "fifo" at 20, and an active instance of it at 21.
abbrev proto : Block
proto = record (block_of block_type_interaction preinit (some 1)) { name = "fifo" }

abbrev instance_block : Block
instance_block = record (block_of block_type_interaction active (some 1)) {
  name = "f1";
  prototype = some "fifo";
}

abbrev fifo_module : Module
fifo_module = record { id = "fifo.so"; handle = 5; init = 1; cleanup = 2; spdx_license_id = none }

abbrev node : Node Blocks TypeRefs Modules
node = record {
  name = some "node";
  memory = record world { blocks = at ((20, proto) ∷ (21, instance_block) ∷ []) };
  blocks = ("fifo", 20) ∷ ("f1", 21) ∷ [];
  types = record { types = []; cur_seqid = 0 };
  modules = ("fifo.so", fifo_module) ∷ [];
  refs = λ k. if k == 5 then 1 else 0;
}

-- Every library has the handle 6 and all symbols.
abbrev loader : Loader
loader = record { dlopen = λ lib. some 6; dlsym = λ h s. some 1 }

abbrev functions : Functions Blocks TypeRefs Modules
functions = record { init = λ f n. (ok, n); cleanup = λ f n. n }

functions-IsTidy : IsTidy loader functions
functions-IsTidy = record {
  init_modules = λ f n. refl;
  init_refs = λ f n k. refl;
  cleanup_modules = λ f n. refl;
  cleanup_refs = λ f n k. refl;
}

hooks-KeepsTags : KeepsTags hooks
hooks-KeepsTags = record { stop_tags = λ f a m q. refl; cleanup_tags = λ f a m q. refl }

no_ports : ℕ → ℕ → Bool
no_ports a q = false

abbrev is_instance : ℕ → Bool
is_instance a = a == 21

node-CanCleanUp : CanCleanUp hooks loader functions is_instance node
unfolding str_eq
node-CanCleanUp = record {
  quiet = hooks-IsQuiet;
  keeps = hooks-KeepsTags;
  tidy = functions-IsTidy;
  only = λ f n j. inl refl;
  distinct_blocks = ((refl, tt), (tt, tt));
  listed = (refl, (refl, tt));
  distinct_modules = (tt, tt);
  own = (refl, tt);
}

-- A new node is empty.
fresh_node : (node_init Blocks TypeRefs Modules (some "new") true node).0 ≡ ok
unfolding node_init
fresh_node = refl

node_counts : num_blocks node + num_types node + num_modules node ≡ 3
unfolding num_blocks num_types num_modules
node_counts = refl

node_cleanup_lem_example :
    (n' : Node Blocks TypeRefs Modules) × (node_cleanup hooks loader functions no_ports node
      ≡ some n')
    × (n'.name ≡ none)
    × (n'.modules ≡ [])
    × ((j : String)
        → (lookup j n'.blocks ≡ drop_instance is_instance (lookup j node.blocks))
          ⊎ (lookup j n'.blocks ≡ none))
node_cleanup_lem_example =
    node_cleanup_lem hooks loader functions no_ports is_instance node node-CanCleanUp

module_load_lem_example :
    Loaded loader functions "udp.so" node (module_load loader functions "udp.so" true node)
module_load_lem_example = module_load_lem loader functions "udp.so" true node functions-IsTidy

abbrev loaded : Node Blocks TypeRefs Modules
loaded = record node {
  modules =
      ("fifo.so", fifo_module)
      ∷ (
        "udp.so",
        record { id = "udp.so"; handle = 6; init = 1; cleanup = 1; spdx_license_id = some 1 },
      )
      ∷ [];
  refs = λ k. if 6 == k then node.refs k + 1 else node.refs k;
}

load_udp : module_load loader functions "udp.so" true node ≡ (ok, loaded)
unfolding module_load lookup str_eq
load_udp = refl

module_unload-load_example :
    ((module_unload loader functions "udp.so" loaded).modules ≡ node.modules)
    × ((k : ℕ) → (module_unload loader functions "udp.so" loaded).refs k ≡ node.refs k)
unfolding str_eq
module_unload-load_example =
    module_unload-load loader functions "udp.so" true node loaded functions-IsTidy (tt, tt) load_udp
