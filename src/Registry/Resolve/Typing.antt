-- ===== src/Registry/Resolve/Typing.antt =====
-- What a resolution of types achieves.
use collision_avoidance.Base.{
  ◌≡◌, refl, ◌∙◌, true, false, String, Option, none, some, is_none, List, [], ◌∷◌, if◌then◌else◌,
  Bool-cases, Option-cases, inl, inr, arith, sym, ap, subst,
}
use collision_avoidance.Hash.{Hash}
use collision_avoidance.Types.{UbxType, Port, Config, Block, ok}
use collision_avoidance.Registry.{TypeRef, TypeTable, type_get}
use collision_avoidance.Registry.Resolve.{
  resolve_name, resolve_in, resolve_out, resolve_port, resolve_ports, resolve_block_ports,
  resolve_block_configs, resolve_config, resolve_configs, resolve_types,
}

module _ (T : Hash TypeRef) (n : TypeTable T) where
  -- A name and its descriptor agree with the table: no name, or the descriptor is what the table has
  -- under it.
  abbrev pub Matches : Option String → Option UbxType → Type 0
  Matches none t? = Unit {0}
  Matches (some name) t? = (t : UbxType) × (type_get T name n ≡ some t) × (t? ≡ some t)

  -- Both types of a port are resolved.
  abbrev pub IsTyped : Port → Type 0
  IsTyped p = Matches p.in_type_name p.in_type × Matches p.out_type_name p.out_type

  -- All ports up to the one without a name.
  abbrev pub AllTyped : List Port → Type 0
  AllTyped [] = Unit {0}
  AllTyped (p ∷ ps) = if is_none p.name then Unit {0} else (IsTyped p × AllTyped ps)

  resolve_name_lem :
      (name? : Option String) (t? : Option UbxType)
      → (resolve_name T n name? t?).0 ≡ true
      → Matches name? (resolve_name T n name? t?).1
  unfolding resolve_name
  resolve_name_lem none t? e = tt
  resolve_name_lem (some name) t? e = elim (Option-cases (type_get T name n)) [
    | inl missing ↦ absurd (ground arith)
    | inr (t, found) ↦ (t, found, ground arith)
  ]

  -- Where a name is not in the table, the resolution fails.
  resolve_name_complete :
      (name? : Option String) (t? t' : Option UbxType)
      → Matches name? t'
      → (resolve_name T n name? t?).0 ≡ true
  unfolding resolve_name
  resolve_name_complete none t? t' h = refl
  resolve_name_complete (some name) t? t' (t, found, e) = rw (found, resolve_name)

  resolve_port_lem :
      (p : Port)
      → (resolve_port T n p).0 ≡ true
      → IsTyped (resolve_port T n p).1 × ((resolve_port T n p).1.name ≡ p.name)
  unfolding resolve_port resolve_in resolve_out
  resolve_port_lem p e = elim (Bool-cases (resolve_name T n p.in_type_name p.in_type).0) [
    | inl t ↦ rw t (
      (
        resolve_name_lem p.in_type_name p.in_type t,
        resolve_name_lem p.out_type_name p.out_type (ground arith),
      ),
      refl,
    )
    | inr f ↦ absurd (ground arith)
  ]

  resolve_ports_lem :
      (ps : List Port) → (resolve_ports T n ps).0 ≡ true → AllTyped (resolve_ports T n ps).1
  unfolding resolve_ports
  resolve_ports_lem [] e = tt
  resolve_ports_lem (p ∷ ps) e = elim (Bool-cases (is_none p.name)) [
    | inl t ↦ rw t (rw t tt)
    | inr f ↦ elim (Bool-cases (resolve_port T n p).0) [
      | inr u ↦ absurd (ground arith)
      | inl t ↦
          let one = resolve_port_lem p t in
          let rest = resolve_ports_lem ps (ground arith) in rw (f, t) (rw (one.1, f) (one.0, rest))
    ]
  ]

  -- The value of a configuration has the descriptor that the table has under its type name.
  abbrev pub IsTypedConfig : Config → Type 0
  IsTypedConfig c =
      (name : String) × (t : UbxType) × (c.type_name ≡ some name)
      × (type_get T name n ≡ some t)
      × (c.value.type ≡ some t)

  abbrev pub AllConfigsTyped : List Config → Type 0
  AllConfigsTyped [] = Unit {0}
  AllConfigsTyped (c ∷ cs) =
      if is_none c.name then Unit {0} else (IsTypedConfig c × AllConfigsTyped cs)

  resolve_config_lem :
      (c c' : Config)
      → resolve_config T n c ≡ some (true, c')
      → IsTypedConfig c' × (c'.name ≡ c.name)
  unfolding resolve_config
  resolve_config_lem c c' e = elim (Option-cases c.type_name) [
    | inl none_named ↦ absurd (ground arith)
    | inr (name, named) ↦ elim (Option-cases (type_get T name n)) [
      | inl missing ↦ absurd (ground arith)
      | inr (t, found) ↦ ((name, t, ground arith, found, ground arith), ground arith)
    ]
  ]

  resolve_configs_lem :
      (cs cs' : List Config) → resolve_configs T n cs ≡ some (true, cs') → AllConfigsTyped cs'
  unfolding resolve_configs
  resolve_configs_lem [] cs' e = let g : [] ≡ cs' = ground arith in subst AllConfigsTyped g tt
  resolve_configs_lem (c ∷ cs) cs' e = elim (Bool-cases (is_none c.name)) [
    | inl t ↦ let g : c ∷ cs ≡ cs' = ground arith in subst AllConfigsTyped g (rw t tt)
    | inr f ↦ elim (Option-cases (resolve_config T n c)) [
      | inl fault ↦ absurd (ground arith)
      | inr ((false, c'), one) ↦ absurd (ground arith)
      | inr ((true, c'), one) ↦ elim (Option-cases (resolve_configs T n cs)) [
        | inl fault ↦ absurd (ground arith)
        | inr ((false, rest), more) ↦ absurd (ground arith)
        | inr ((true, rest), more) ↦
            let h = resolve_config_lem c c' one in
            let g : c' ∷ rest ≡ cs' = ground arith in
            let running : is_none c'.name ≡ false = ap is_none h.1 ∙ f in
            subst AllConfigsTyped g (rw running (h.0, resolve_configs_lem cs rest more))
      ]
    ]
  ]

  -- All types of a block are resolved.
  pub record IsResolved (b : Block) : Type 0 where
    pub ports_typed : (ps : List Port) → b.ports ≡ some ps → AllTyped ps
    pub configs_typed : (cs : List Config) → b.configs ≡ some cs → AllConfigsTyped cs

  resolve_block_ports_lem :
      (b : Block)
      → (resolve_block_ports T n b).0 ≡ true
      → (ps : List Port) → (resolve_block_ports T n b).1.ports ≡ some ps
      → AllTyped ps
  unfolding resolve_block_ports
  resolve_block_ports_lem b e ps at_ps = elim (Option-cases b.ports) [
    | inl null ↦ absurd (ground arith)
    | inr (old, at_old) ↦
        let g : (resolve_ports T n old).1 ≡ ps = ground arith in
        subst AllTyped g (resolve_ports_lem old (ground arith))
  ]

  resolve_block_configs_lem :
      (b b' : Block)
      → resolve_block_configs T n b ≡ some (ok, b')
      → ((cs : List Config) → b'.configs ≡ some cs → AllConfigsTyped cs) × (b'.ports ≡ b.ports)
  unfolding resolve_block_configs
  resolve_block_configs_lem b b' e = elim (Option-cases b.configs) [
    | inl null ↦ ((λ cs at_cs. absurd (ground arith)), ground arith)
    | inr (old, at_old) ↦ elim (Option-cases (resolve_configs T n old)) [
      | inl fault ↦ absurd (ground arith)
      | inr ((false, cs'), run) ↦ absurd (ground arith)
      | inr ((true, cs'), run) ↦ (
        (λ cs at_cs.
            let g : cs' ≡ cs = ground arith in
            subst AllConfigsTyped g (resolve_configs_lem old cs' run)),
        ground arith,
      )
    ]
  ]

  -- Where `ubx_resolve_types` returns 0, every port and every configuration of the block has the
  -- descriptors that the node has under their type names.
  pub resolve_types-IsResolved :
      (b b' : Block) → resolve_types T n b ≡ some (ok, b') → IsResolved b'
  unfolding resolve_types
  resolve_types-IsResolved b b' e = elim (Bool-cases (resolve_block_ports T n b).0) [
    | inr f ↦ absurd (ground arith)
    | inl t ↦
        let run : resolve_block_configs T n (resolve_block_ports T n b).1 ≡ some (ok, b') =
          ground arith in
        let h = resolve_block_configs_lem (resolve_block_ports T n b).1 b' run in
        record {
          ports_typed = λ ps at_ps. resolve_block_ports_lem b t ps (sym h.1 ∙ at_ps);
          configs_typed = h.0;
        }
  ]
