-- ===== src/Configs/Laws.antt =====
-- Adding, finding and removing the configurations of a block.
use collision_avoidance.Base.{
  ◌==◌, ◌*◌, ◌>>=◌, replicate, ℕ, suc, ◌≡◌, refl, Bool, true, false, String, Option, none, some,
  is_none, List, [], ◌∷◌, ◌++◌, str_eq, if◌then◌else◌, Perm, ◌⊎◌, inl, inr, Option-cases,
}
use collision_avoidance.Base.Int.{ℤ}
use collision_avoidance.Cells.{elems, count, IsTerminated}
use collision_avoidance.Entries.{is_end, find_entry, remove_entry, append_entry}
use collision_avoidance.Entries.Laws.{
  or_else, elems-append_entry, append_entry-IsTerminated, find_entry-append_entry, RemovedEntry,
  remove_entry_lem,
}
use collision_avoidance.Hash.{Hash}
use collision_avoidance.Types.{UbxType, Config, Block, ok, failed}
use collision_avoidance.Registry.{TypeRef, TypeTable}
use collision_avoidance.Ports.{strdup, cells_or_none}
use collision_avoidance.Configs.{
  zero_config, cloned_config, clone_config_data, config_name, add_cloned, config_add, node_type,
  config_rm, config_get, config_get_data, config_get_data_ptr, get_num_configs,
}

-- The configurations of a block, up to the one without a name.
abbrev pub configs_of : Block → List Config
configs_of b = elems (is_end config_name) (cells_or_none b.configs)

pub clone_config_data_runs :
    (c : Config) (name : String) (doc : Option String) (t : UbxType) (len : ℕ) (alloc : ℕ → Bool)
    → ((k : ℕ) → alloc k ≡ true)
    → clone_config_data c name doc t len alloc ≡ (ok, cloned_config name doc t len true)
unfolding clone_config_data strdup
clone_config_data_runs c name none t len alloc h = rw (h 0, h 1, h 2) refl
clone_config_data_runs c name (some d) t len alloc h = rw (h 0, h 1, h 2, h 3) refl

-- A configuration of a type, with a buffer of zeros; a length of 0 has become 1.
abbrev pub IsNewConfig : Config → String → Option String → UbxType → ℕ → Type 0
IsNewConfig c name meta t len =
    (c.name ≡ some name)
    × (c.doc ≡ meta)
    × (c.value.type ≡ some t)
    × (c.value.len ≡ (if len == 0 then 1 else len))
    × (c.value.buffer ≡ some (replicate ((if len == 0 then 1 else len) * t.size) 0))

-- There are no configurations, or their array has an end.
abbrev pub HasEnd : Block → Type 0
HasEnd b =
    (b.configs ≡ none)
    ⊎ ((cs : List Config) × (b.configs ≡ some cs) × IsTerminated (is_end config_name) cs)

get_num_configs_returns : (b : Block) → HasEnd b → (i : ℕ) × (get_num_configs b ≡ some i)
unfolding get_num_configs
get_num_configs_returns b (inl e) = (0, rw e refl)
get_num_configs_returns b (inr (cs, e, t)) = (count (is_end config_name) cs, rw (e, t) refl)

-- With memory, and a type that the node of the block has, `ubx_config_add` on a block whose array of
-- configurations is NULL or ends returns 0: the new configuration, of the type and length given and
-- with a buffer of zeros, stands after the others in a terminated array, and lookups find it under
-- its name unless an older one has that name; all other lookups stay.
pub config_get-add :
    (T : Hash TypeRef) (tables : ℕ → TypeTable T) (fill : ℕ → Config) (alloc : ℕ → Bool) (b : Block)
    (name : String) (meta : Option String) (type_name : String) (len : ℕ) (t : UbxType)
    → node_type T tables b.ni type_name ≡ some (some t)
    → HasEnd b
    → ((k : ℕ) → alloc k ≡ true)
    → (b' : Block) × (c : Config) × (config_add T tables fill alloc (some b) name meta type_name len
        ≡ some (ok, some b'))
      × IsNewConfig c name meta t len
      × (configs_of b' ≡ configs_of b ++ c ∷ [])
      × IsTerminated (is_end config_name) (cells_or_none b'.configs)
      × ((j : String)
          → config_get (some b') (some j)
            ≡ or_else (config_get (some b) (some j)) (if str_eq name j then some c else none))
unfolding config_add add_cloned config_get find_entry
config_get-add T tables fill alloc b name meta type_name len t known end memory =
    let c = cloned_config name meta t len true in
    let cells = cells_or_none b.configs in
    let (i, counted) = get_num_configs_returns b end in
    let clone =
      clone_config_data_runs (fill i) name meta t len (λ k. alloc (suc k)) (λ k. memory (suc k)) in
    (
      record b { configs = some (append_entry config_name fill zero_config c cells) },
      c,
      rw (known, ◌>>=◌) (rw (counted, ◌>>=◌) (rw (memory 0) (rw (clone, add_cloned) refl))),
      (refl, refl, refl, refl, refl),
      elems-append_entry config_name fill zero_config c cells refl refl,
      append_entry-IsTerminated config_name fill zero_config c cells refl,
      λ j. find_entry-append_entry config_name fill zero_config c cells j refl refl,
    )

-- The two outcomes of `ubx_config_rm` on an instance.
abbrev pub ConfigRemoved : Block → String → ℤ × Option Block → Type 0
ConfigRemoved b name r =
    ((b' : Block) × (c : Config) × (r ≡ (ok, some b'))
      × (config_get (some b) (some name) ≡ some c)
      × Perm (c ∷ configs_of b') (configs_of b)
      × IsTerminated (is_end config_name) (cells_or_none b'.configs))
    ⊎ ((r ≡ (failed, some b)) × (config_get (some b) (some name) ≡ none))

-- On an instance with a terminated array, `ubx_config_rm` either returns 0: the configuration that a
-- lookup finds is gone, the others stay up to their order, and the array is terminated; or a lookup
-- finds none, and it returns -1 and changes nothing.
pub config_rm_lem :
    (b : Block) (name : String) (cs : List Config)
    → is_none b.prototype ≡ false
    → b.configs ≡ some cs
    → IsTerminated (is_end config_name) cs
    → ConfigRemoved b name (config_rm (some b) name)
unfolding config_rm config_get
config_rm_lem b name cs inst at_cs t =
    outcome
      (remove_entry_lem config_name zero_config name (cells_or_none b.configs) refl (rw at_cs t))
  where
    outcome :
        RemovedEntry config_name name
          (cells_or_none b.configs)
          (remove_entry config_name zero_config name (cells_or_none b.configs))
        → ConfigRemoved b name (config_rm (some b) name)
    outcome (inl (x, cs', run, found, perm, term)) =
        inl (record b { configs = some cs' }, x, rw inst (rw run refl), found, perm, term)
    outcome (inr (run, missing)) = inr (rw inst (rw run refl), missing)

-- The buffer and the length that `ubx_config_get_data_ptr` returns are those of the configuration
-- that a lookup finds, with the length in elements and not in bytes; where there is none they are
-- NULL and 0.
pub config_get_data_ptr_lem :
    (b : Option Block) (name : Option String)
    → ((config_get b name ≡ none) × (config_get_data_ptr b name ≡ (none, 0)))
      ⊎ ((c : Config) × (config_get b name ≡ some c)
          × (config_get_data_ptr b name ≡ (c.value.buffer, c.value.len)))
unfolding config_get_data_ptr config_get_data
config_get_data_ptr_lem b name = elim (Option-cases (config_get b name)) [
  | inl e ↦ inl (e, rw (e, config_get_data_ptr, config_get_data) refl)
  | inr (c, e) ↦ inr (c, e, rw (e, config_get_data_ptr, config_get_data) refl)
]
