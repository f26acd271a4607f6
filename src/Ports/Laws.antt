-- ===== src/Ports/Laws.antt =====
-- Adding, finding and removing the ports of a block.
use collision_avoidance.Base.{
  not, ◌==◌, ◌>>=◌, ℕ, suc, ◌≡◌, refl, Bool, true, false, String, Option, none, some, is_none, List,
  [], ◌∷◌, ◌++◌, str_eq, if◌then◌else◌, Perm, ◌⊎◌, inl, inr,
}
use collision_avoidance.Base.Int.{ℤ}
use collision_avoidance.Cells.{elems, count, IsTerminated}
use collision_avoidance.Entries.{is_end, find_entry, remove_entry, append_entry}
use collision_avoidance.Entries.Laws.{
  or_else, elems-append_entry, append_entry-IsTerminated, find_entry-append_entry, RemovedEntry,
  remove_entry_lem,
}
use collision_avoidance.Hash.{Hash}
use collision_avoidance.Types.{
  UbxType, Port, Block, ok, failed, has_attr, port_dir_in, port_dir_out,
}
use collision_avoidance.Registry.{TypeRef, TypeTable}
use collision_avoidance.Ports.{
  with_attr, zero_port, strdup, cloned_port, clone_port_data, cells_or_none, port_name, port_type,
  add_cloned, port_add, port_rm, port_get, get_num_ports,
}

-- The ports of a block, up to the one without a name.
abbrev pub ports_of : Block → List Port
ports_of b = elems (is_end port_name) (cells_or_none b.ports)

pub clone_port_data_runs :
    (p : Port) (name : String) (doc : Option String) (in_t out_t : Option UbxType)
    (in_len out_len state : ℕ) (alloc : ℕ → Bool)
    → ((k : ℕ) → alloc k ≡ true)
    → clone_port_data p (some name) doc in_t in_len out_t out_len state alloc
      ≡ (ok, cloned_port name doc in_t in_len out_t out_len state)
unfolding clone_port_data strdup
clone_port_data_runs p name none none none in_len out_len state alloc h = rw (h 0) refl
clone_port_data_runs p name none none (some u) in_len out_len state alloc h = rw (h 0, h 1) refl
clone_port_data_runs p name none (some t) none in_len out_len state alloc h = rw (h 0, h 1) refl
clone_port_data_runs p name none (some t) (some u) in_len out_len state alloc h =
    rw (h 0, h 1, h 2) refl
clone_port_data_runs p name (some d) none none in_len out_len state alloc h = rw (h 0, h 1) refl
clone_port_data_runs p name (some d) none (some u) in_len out_len state alloc h =
    rw (h 0, h 1, h 2) refl
clone_port_data_runs p name (some d) (some t) none in_len out_len state alloc h =
    rw (h 0, h 1, h 2) refl
clone_port_data_runs p name (some d) (some t) (some u) in_len out_len state alloc h =
    rw (h 0, h 1, h 2, h 3) refl

-- The directions of a port are those that it has types for.
pub cloned_attrs :
    (in_t out_t : Option UbxType)
    → let attrs = with_attr out_t port_dir_out (with_attr in_t port_dir_in 0) in
      (has_attr attrs port_dir_in ≡ not (is_none in_t))
      × (has_attr attrs port_dir_out ≡ not (is_none out_t))
cloned_attrs none none = (refl, refl)
cloned_attrs none (some u) = (refl, refl)
cloned_attrs (some t) none = (refl, refl)
cloned_attrs (some t) (some u) = (refl, refl)

-- A port that is not connected and has no block, with its directions from its types; a length of 0
-- has become 1.
abbrev pub IsNewPort :
    Port → String → Option String → Option UbxType → ℕ → Option UbxType → ℕ → ℕ → Type 0
IsNewPort p name doc in_t in_len out_t out_len state =
    (p.name ≡ some name)
    × (p.doc ≡ doc)
    × (p.state ≡ state)
    × (p.in_type ≡ in_t)
    × (p.out_type ≡ out_t)
    × (has_attr p.attrs port_dir_in ≡ not (is_none in_t))
    × (has_attr p.attrs port_dir_out ≡ not (is_none out_t))
    × (p.in_data_len ≡ (if in_len == 0 then 1 else in_len))
    × (p.out_data_len ≡ (if out_len == 0 then 1 else out_len))
    × (p.in_interaction ≡ none)
    × (p.out_interaction ≡ none)
    × (p.block ≡ none)

-- There are no ports, or their array has an end.
abbrev pub HasEnd : Block → Type 0
HasEnd b =
    (b.ports ≡ none) ⊎ ((ps : List Port) × (b.ports ≡ some ps) × IsTerminated (is_end port_name) ps)

get_num_ports_returns : (b : Block) → HasEnd b → (i : ℕ) × (get_num_ports b ≡ some i)
unfolding get_num_ports
get_num_ports_returns b (inl e) = (0, rw e refl)
get_num_ports_returns b (inr (ps, e, t)) = (count (is_end port_name) ps, rw (e, t) refl)

module _ (T : Hash TypeRef) (tables : ℕ → TypeTable T) where
  -- What `ubx_port_add` needs: an instance whose array of ports ends, types that its node has, and
  -- memory.
  pub record CanAdd (b : Block) (in_name out_name : Option String) (in_t out_t : Option UbxType)
      (alloc : ℕ → Bool) : Type 0 where
    pub instance_block : is_none b.prototype ≡ false
    pub has_end : HasEnd b
    pub in_known : port_type T tables b.ni in_name ≡ some (true, in_t)
    pub out_known : port_type T tables b.ni out_name ≡ some (true, out_t)
    pub memory : (k : ℕ) → alloc k ≡ true

  -- Where it has them, `ubx_port_add` returns 0: the new port, of the types and lengths that were
  -- given, stands after the others, in an array that is terminated, and lookups find it under its
  -- name unless an older port has that name; all other lookups stay. The new port has no pointer to
  -- its block.
  pub port_get-add :
      (fill : ℕ → Port) (alloc : ℕ → Bool) (self : ℕ) (b : Block) (name : String)
      (doc in_name out_name : Option String) (in_len out_len state : ℕ)
      (in_t out_t : Option UbxType)
      → CanAdd b in_name out_name in_t out_t alloc
      → (b' : Block) × (p : Port) × (port_add T tables fill alloc self
            (some b)
            (some name)
            doc
            in_name
            in_len
            out_name
            out_len
            state
          ≡ some (ok, some b'))
        × IsNewPort p name doc in_t in_len out_t out_len state
        × (ports_of b' ≡ ports_of b ++ p ∷ [])
        × IsTerminated (is_end port_name) (cells_or_none b'.ports)
        × ((j : String)
            → port_get (some b') (some j)
              ≡ or_else (port_get (some b) (some j)) (if str_eq name j then some p else none))
  unfolding port_add add_cloned port_get find_entry
  port_get-add fill alloc self b name doc in_name out_name in_len out_len state in_t out_t can =
      let p = cloned_port name doc in_t in_len out_t out_len state in
      let (i, counted) = get_num_ports_returns b can.has_end in
      let (ins, outs) = cloned_attrs in_t out_t in
      let cell = record (fill i) { block = some self } in
      let cells = cells_or_none b.ports in
      let clone =
        clone_port_data_runs cell name doc in_t out_t in_len out_len state (λ k. alloc (suc k))
          (λ k. can.memory (suc k)) in
      (
        record b { ports = some (append_entry port_name fill zero_port p cells) },
        p,
        rw can.instance_block (
            rw (can.in_known, ◌>>=◌)
              (rw (can.out_known, ◌>>=◌)
                (rw (counted, ◌>>=◌) (rw (can.memory 0) (rw (clone, add_cloned) refl))))),
        (refl, refl, refl, refl, refl, ins, outs, refl, refl, refl, refl, refl),
        elems-append_entry port_name fill zero_port p cells refl refl,
        append_entry-IsTerminated port_name fill zero_port p cells refl,
        (λ j. find_entry-append_entry port_name fill zero_port p cells j refl refl),
      )

-- The two outcomes of `ubx_port_rm` on an instance.
abbrev pub PortRemoved : Block → String → ℤ × Option Block → Type 0
PortRemoved b name r =
    ((b' : Block) × (p : Port) × (r ≡ (ok, some b'))
      × (port_get (some b) (some name) ≡ some p)
      × Perm (p ∷ ports_of b') (ports_of b)
      × IsTerminated (is_end port_name) (cells_or_none b'.ports))
    ⊎ ((r ≡ (failed, some b)) × (port_get (some b) (some name) ≡ none))

-- On an instance with a terminated array, `ubx_port_rm` either returns 0: the port that a lookup
-- finds is gone, the others stay up to their order, and the array is terminated; or a lookup finds
-- no such port, and it returns -1 and changes nothing.
pub port_rm_lem :
    (b : Block) (name : String) (ps : List Port)
    → is_none b.prototype ≡ false
    → b.ports ≡ some ps
    → IsTerminated (is_end port_name) ps
    → PortRemoved b name (port_rm (some b) name)
unfolding port_rm port_get
port_rm_lem b name ps inst at_ps t =
    outcome (remove_entry_lem port_name zero_port name (cells_or_none b.ports) refl (rw at_ps t))
  where
    outcome :
        RemovedEntry port_name name
          (cells_or_none b.ports)
          (remove_entry port_name zero_port name (cells_or_none b.ports))
        → PortRemoved b name (port_rm (some b) name)
    outcome (inl (x, ps', run, found, perm, term)) =
        inl (record b { ports = some ps' }, x, rw inst (rw run refl), found, perm, term)
    outcome (inr (run, missing)) = inr (rw inst (rw run refl), missing)
