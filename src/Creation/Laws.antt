-- ===== src/Creation/Laws.antt =====
-- What a copy of a prototype is.
use collision_avoidance.Base.{
  ◌==◌, ◌*◌, none, not, sym, replicate, ℕ, ◌+◌, ◌≡◌, refl, ap, subst, Bool, true, String, some,
  is_none, List, [], ◌∷◌, if◌then◌else◌, ◌>>=◌, Option-cases, inl, inr, arith,
}
use collision_avoidance.Cells.{has_mark, IsTerminated}
use collision_avoidance.Entries.{is_end}
use collision_avoidance.Types.{
  UbxType, Port, Config, Block, ok, preinit, has_attr, port_dir_in, port_dir_out,
}
use collision_avoidance.Ports.{zero_port, cloned_port, clone_port_data, port_name}
use collision_avoidance.Ports.Laws.{clone_port_data_runs, cloned_attrs}
use collision_avoidance.Configs.{zero_config, cloned_config, clone_config_data}
use collision_avoidance.Configs.Laws.{clone_config_data_runs}
use collision_avoidance.Creation.{
  skip, config_allocs, port_allocs, clone_configs, clone_ports, clone_array, new_block, block_clone,
}

-- A copy of a configuration: of its name, its documentation, its type and its length, of which 0
-- becomes 1, with a buffer of zeros.
abbrev pub IsCopyOfConfig : Config → Config → Type 0
IsCopyOfConfig c' c =
    (t : UbxType) × (c.value.type ≡ some t)
    × (c'.name ≡ c.name)
    × (c'.doc ≡ c.doc)
    × (c'.type_name ≡ some t.name)
    × (c'.value.type ≡ some t)
    × (c'.value.len ≡ (if c.value.len == 0 then 1 else c.value.len))
    × (c'.value.buffer
        ≡ some (replicate ((if c.value.len == 0 then 1 else c.value.len) * t.size) 0))

-- A copy of a port of the block at `self`: of its name, its documentation, its state, its types and
-- their lengths, of which 0 becomes 1, without connections and with counters of 0. Its directions are
-- those that it has types for.
abbrev pub IsCopyOfPort : ℕ → Port → Port → Type 0
IsCopyOfPort self p' p =
    (p'.name ≡ p.name)
    × (p'.doc ≡ p.doc)
    × (p'.state ≡ p.state)
    × (p'.in_type ≡ p.in_type)
    × (p'.out_type ≡ p.out_type)
    × (has_attr p'.attrs port_dir_in ≡ not (is_none p.in_type))
    × (has_attr p'.attrs port_dir_out ≡ not (is_none p.out_type))
    × (p'.in_data_len ≡ (if p.in_data_len == 0 then 1 else p.in_data_len))
    × (p'.out_data_len ≡ (if p.out_data_len == 0 then 1 else p.out_data_len))
    × (p'.in_interaction ≡ none)
    × (p'.out_interaction ≡ none)
    × (p'.stat_writes ≡ 0)
    × (p'.stat_reades ≡ 0)
    × (p'.block ≡ some self)

cloned_config-IsCopyOfConfig :
    (c : Config) (name : String) (t : UbxType)
    → c.name ≡ some name
    → c.value.type ≡ some t
    → IsCopyOfConfig (cloned_config name c.doc t c.value.len true) c
cloned_config-IsCopyOfConfig c name t named typed =
    (t, typed, sym named, refl, refl, refl, refl, refl)

cloned_port-IsCopyOfPort :
    (self : ℕ) (p : Port) (name : String)
    → p.name ≡ some name
    → IsCopyOfPort self
        (record (cloned_port name p.doc p.in_type p.in_data_len p.out_type p.out_data_len p.state) {
          block = some self;
        })
        p
cloned_port-IsCopyOfPort self p name named =
    let (ins, outs) = cloned_attrs p.in_type p.out_type in
    (sym named, refl, refl, refl, refl, ins, outs, refl, refl, refl, refl, refl, refl, refl)

-- Two lists of one length whose elements are related, up to the end of the source.
abbrev pub AllConfigs : List Config → List Config → Type 0
AllConfigs [] [] = ⊥
AllConfigs [] (c ∷ cs) = ⊥
AllConfigs (c' ∷ cs') [] = ⊥
AllConfigs (c' ∷ cs') (c ∷ cs) =
    if is_none c.name
    then (c' ∷ cs' ≡ zero_config ∷ [])
    else (IsCopyOfConfig c' c × AllConfigs cs' cs)

abbrev pub AllPorts : ℕ → List Port → List Port → Type 0
AllPorts self [] [] = ⊥
AllPorts self [] (p ∷ ps) = ⊥
AllPorts self (p' ∷ ps') [] = ⊥
AllPorts self (p' ∷ ps') (p ∷ ps) =
    if is_none p.name
    then (p' ∷ ps' ≡ zero_port ∷ [])
    else (IsCopyOfPort self p' p × AllPorts self ps' ps)

-- Configurations that can be copied: those up to the end have their types, and there is an end.
abbrev pub CanCopy : List Config → Type 0
CanCopy [] = ⊥
CanCopy (c ∷ cs) =
    if is_none c.name then Unit {0} else (((t : UbxType) × (c.value.type ≡ some t)) × CanCopy cs)

clone_configs_step :
    (c c' : Config) (cs cs' : List Config) (name : String) (t : UbxType) (alloc rest : ℕ → Bool)
    → c.name ≡ some name
    → c.value.type ≡ some t
    → clone_config_data zero_config name c.doc t c.value.len alloc ≡ (ok, c')
    → clone_configs cs (skip (config_allocs c) alloc) ≡ some (true, cs', rest)
    → clone_configs (c ∷ cs) alloc ≡ some (true, c' ∷ cs', rest)
unfolding clone_configs
clone_configs_step c c' cs cs' name t alloc rest named typed cloned run =
    rw (named, clone_configs)
      (rw (typed, ◌>>=◌)
        (rw (ap (λ r. r.0) cloned) (rw (run, ◌>>=◌) (rw (ap (λ r. r.1) cloned) refl))))

clone_configs_lem :
    (cs : List Config) (alloc : ℕ → Bool)
    → ((k : ℕ) → alloc k ≡ true)
    → CanCopy cs
    → (cs' : List Config) × (rest : ℕ → Bool) × (clone_configs cs alloc ≡ some (true, cs', rest))
      × ((k : ℕ) → rest k ≡ true)
      × AllConfigs cs' cs
unfolding clone_configs
clone_configs_lem [] alloc h can = absurd can
clone_configs_lem (c ∷ cs) alloc h can = elim (Option-cases c.name) [
  | inl e ↦ (zero_config ∷ [], alloc, rw (e, clone_configs) refl, h, rw e refl)
  | inr (name, e) ↦
      let can' : ((t : UbxType) × (c.value.type ≡ some t)) × CanCopy cs =
        subst
          (λ b. if b then Unit {0} else (((t : UbxType) × (c.value.type ≡ some t)) × CanCopy cs))
          (ap is_none e) can in
      let (t, typed) = can'.0 in
      let more =
        clone_configs_lem cs (skip (config_allocs c) alloc) (λ k. h (config_allocs c + k)) can'.1 in
      let (cs', rest, run, h', all) = more in
      (
        cloned_config name c.doc t c.value.len true ∷ cs',
        rest,
        clone_configs_step c _ cs cs' name t alloc rest e typed
            (clone_config_data_runs zero_config name c.doc t c.value.len alloc h) run,
        h',
        rw (ap is_none e) (cloned_config-IsCopyOfConfig c name t e typed, all),
      )
]

clone_ports_step :
    (self : ℕ) (p p' : Port) (ps ps' : List Port) (name : String) (alloc rest : ℕ → Bool)
    → p.name ≡ some name
    → clone_port_data zero_port
        (some name)
        p.doc
        p.in_type
        p.in_data_len
        p.out_type
        p.out_data_len
        p.state
        alloc
      ≡ (ok, p')
    → clone_ports self ps (skip (port_allocs p) alloc) ≡ some (true, ps', rest)
    → clone_ports self (p ∷ ps) alloc ≡ some (true, record p' { block = some self } ∷ ps', rest)
unfolding clone_ports
clone_ports_step self p p' ps ps' name alloc rest named cloned run =
    rw (named, clone_ports)
      (rw (ap (λ r. r.0) cloned) (rw (run, ◌>>=◌) (rw (ap (λ r. r.1) cloned) refl)))

clone_ports_lem :
    (self : ℕ) (ps : List Port) (alloc : ℕ → Bool)
    → ((k : ℕ) → alloc k ≡ true)
    → IsTerminated (is_end port_name) ps
    → (ps' : List Port) × (rest : ℕ → Bool) × (clone_ports self ps alloc ≡ some (true, ps', rest))
      × AllPorts self ps' ps
unfolding clone_ports has_mark
clone_ports_lem self [] alloc h t = cc
clone_ports_lem self (p ∷ ps) alloc h t = elim (Option-cases p.name) [
  | inl e ↦ (zero_port ∷ [], alloc, rw (e, clone_ports) refl, rw e refl)
  | inr (name, e) ↦
      let more =
        clone_ports_lem self ps (skip (port_allocs p) alloc) (λ k. h (port_allocs p + k))
          (ground arith) in
      let (ps', rest, run, all) = more in
      (
        record (cloned_port name p.doc p.in_type p.in_data_len p.out_type p.out_data_len p.state) {
          block = some self;
        }
            ∷ ps',
        rest,
        clone_ports_step self p _ ps ps' name alloc rest e
            (clone_port_data_runs zero_port name p.doc p.in_type p.out_type p.in_data_len
              p.out_data_len p.state alloc h)
            run,
        rw (ap is_none e) (cloned_port-IsCopyOfPort self p name e, all),
      )
]

-- What a copy has from its prototype and what it does not: the hooks of the kind of the prototype,
-- no private data, and counters of 0.
abbrev pub IsCopyOf : Block → String → Block → Type 0
IsCopyOf b name prot =
    (b.name ≡ name)
    × (b.prototype ≡ some prot.name)
    × (b.block_state ≡ preinit)
    × (b.ni ≡ none)
    × (b.meta_data ≡ prot.meta_data)
    × (b.type ≡ prot.type)
    × (b.init ≡ prot.init)
    × (b.start ≡ prot.start)
    × (b.stop ≡ prot.stop)
    × (b.cleanup ≡ prot.cleanup)
    × (b.step ≡ (if prot.type == 1 then prot.step else none))
    × (b.read ≡ (if prot.type == 2 then prot.read else none))
    × (b.write ≡ (if prot.type == 2 then prot.write else none))
    × (b.stat_num_steps ≡ 0)
    × (b.stat_num_reads ≡ 0)
    × (b.stat_num_writes ≡ 0)
    × (b.private_data ≡ 0)

-- With memory, the copy of a block whose arrays end and whose configurations have their types is a
-- block in preinit of the new name and of no node, with the prototype's name as its prototype, its
-- kind, its meta data and its hooks, and with copies of its configurations, whose buffers are zeros,
-- and of its ports, which are not connected and have the new block as theirs.
pub block_clone_lem :
    (prot : Block) (name : String) (self : ℕ) (alloc : ℕ → Bool) (cs : List Config) (ps : List Port)
    → ((k : ℕ) → alloc k ≡ true)
    → prot.configs ≡ some cs
    → prot.ports ≡ some ps
    → CanCopy cs
    → IsTerminated (is_end port_name) ps
    → (b : Block) × (cs' : List Config) × (ps' : List Port) × (block_clone prot name self alloc
        ≡ some (some b))
      × IsCopyOf b name prot
      × (b.configs ≡ some cs')
      × AllConfigs cs' cs
      × (b.ports ≡ some ps')
      × AllPorts self ps' ps
unfolding block_clone clone_array
block_clone_lem prot name self alloc cs ps h at_cs at_ps can t =
    let (cs', rest, run, h', all) =
      clone_configs_lem cs (skip 1 (skip 4 alloc)) (λ k. h (4 + (1 + k))) can in
    let (ps', rest', run', all') = clone_ports_lem self ps (skip 1 rest) (λ k. h' (1 + k)) t in
    (
      new_block prot name (some cs') (some ps'),
      cs',
      ps',
      rw (h 0, h 1, h 2, h 3)
          (rw (at_cs, clone_array)
            (rw (h 4)
              (rw (run, ◌>>=◌) (rw (at_ps, clone_array) (rw (h' 0) (rw (run', ◌>>=◌) refl)))))),
      (
        refl, refl, refl, refl, refl, refl, refl, refl, refl, refl, refl, refl, refl, refl, refl,
        refl, refl,
      ),
      refl,
      all,
      refl,
      all',
    )
