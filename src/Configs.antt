-- ===== src/Configs.antt =====
-- The configurations of a block (src/ubx.c: `ubx_config_free_data`, `ubx_clone_config_data`,
-- `get_num_configs` to `ubx_config_rm`), with the conventions of Ports. A name that is copied is not
-- NULL.
pub mod Laws
use collision_avoidance.Base.{
  ◌>>=◌, ℕ, suc, ◌+◌, ◌*◌, Bool, true, false, ◌&&◌, String, Option, none, some, is_none, List, [],
  ◌∷◌, ◌==◌, if◌then◌else◌, replicate, set,
}
use collision_avoidance.Base.Int.{ℤ}
use collision_avoidance.Cells.{has_mark, count, resize}
use collision_avoidance.Entries.{is_end, find_entry, remove_entry, append_entry}
use collision_avoidance.Hash.{Hash}
use collision_avoidance.Types.{UbxType, UbxData, Config, Block, ok, failed, is_ok}
use collision_avoidance.Registry.{TypeRef, TypeTable, type_get}
use collision_avoidance.Ports.{strdup, at_least_one, cells_or_none}

-- A configuration whose bytes are all 0.
abbrev pub zero_config : Config
zero_config = record {
  name = none;
  doc = none;
  type_name = none;
  attrs = 0;
  value = record { type = none; len = 0; buffer = none };
}

-- `ubx_config_free_data`: the configuration is cleared; what it had is freed.
unfoldable pub config_free_data : Config → Config
config_free_data c = zero_config

-- A buffer of `calloc`: zeros, or NULL.
abbrev pub calloc : Bool → ℕ → ℕ → Option (List ℕ)
calloc success len size = if success then some (replicate (len * size) 0) else none

abbrev pub cloned_config : String → Option String → UbxType → ℕ → Bool → Config
cloned_config name doc t len success = record zero_config {
  name = some name;
  doc = doc;
  type_name = some t.name;
  value = record {
    type = some t;
    len = at_least_one len;
    buffer = calloc success (at_least_one len) t.size;
  };
}

-- The allocation of the buffer is not checked.
pub clone_config_data : Config → String → Option String → UbxType → ℕ → (ℕ → Bool) → ℤ × Config
unfolding config_free_data strdup
clone_config_data c name doc t len alloc =
    let a = strdup (some name) alloc in
    let b = strdup doc a.1 in
    let d = strdup (some t.name) b.1 in
    if a.0 && b.0 && d.0
    then (ok, cloned_config name doc t len (d.1 0))
    else (failed, config_free_data c)

abbrev pub config_name : Config → Option String
config_name c = c.name

-- The number of configurations; an array without an end is a fault.
unfoldable pub get_num_configs : Block → Option ℕ
get_num_configs b = elim b.configs [
  | none ↦ some 0
  | some cs ↦
      if has_mark (is_end config_name) cs then some (count (is_end config_name) cs) else none
]

pub config_get : Option Block → Option String → Option Config
config_get none name = none
config_get (some b) none = none
config_get (some b) (some name) = find_entry config_name name (cells_or_none b.configs)

pub config_get_data : Option Block → Option String → Option UbxData
unfolding config_get
config_get_data b name = elim (config_get b name) [ none ↦ none | some c ↦ some c.value ]

-- The buffer, and the length of the data: that of the array, where the code's comment says bytes.
pub config_get_data_ptr : Option Block → Option String → Option (List ℕ) × ℕ
unfolding config_get_data
config_get_data_ptr b name = elim (config_get_data b name) [
  | none ↦ (none, 0)
  | some d ↦ (d.buffer, d.len)
]

-- The cells after the clone: where it failed the last one is not cleared.
add_cloned : (ℕ → Config) → List Config → ℤ × Config → ℤ × Option (List Config)
add_cloned fill cs (ret, c) =
    let i = count (is_end config_name) cs in
    if is_ok ret
    then (ret, some (append_entry config_name fill zero_config c cs))
    else (ret, some (set (resize fill (suc (suc i)) cs) i c))

-- The type of a name on a node; NULL as the node is a fault. `tables` has the types of the nodes by
-- address.
unfoldable pub node_type :
    (T : Hash TypeRef) → (ℕ → TypeTable T) → Option ℕ → String → Option (Option UbxType)
node_type T tables none type_name = none
node_type T tables (some ni) type_name = some (type_get T type_name (tables ni))

-- Prototypes are not refused.
pub config_add :
    (T : Hash TypeRef)
    → (ℕ → TypeTable T)
    → (ℕ → Config)
    → (ℕ → Bool)
    → Option Block
    → String
    → Option String
    → String
    → ℕ
    → Option (ℤ × Option Block)
unfolding node_type clone_config_data add_cloned get_num_configs
config_add T tables fill alloc none name meta type_name len = some (failed, none)
config_add T tables fill alloc (some b) name meta type_name len = do
  type ← node_type T tables b.ni type_name
  elim type [
    | none ↦ some (failed, some b)
    | some t ↦ do
      i ← get_num_configs b
      let added =
          add_cloned fill (cells_or_none b.configs)
            (clone_config_data (fill i) name meta t len (λ k. alloc (suc k)))
      if alloc 0
          then some (added.0, some (record b { configs = added.1 }))
          else some (failed, some b)
  ]

pub config_rm : Option Block → String → ℤ × Option Block
unfolding config_free_data
config_rm none name = (failed, none)
config_rm (some b) name =
    let removed = remove_entry config_name zero_config name (cells_or_none b.configs) in
    if is_none b.prototype then (failed, some b) else elim removed [
      | none ↦ (failed, some b)
      | some cs ↦ (ok, some (record b { configs = some cs }))
    ]
