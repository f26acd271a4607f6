-- ===== src/Examples/Links.antt =====
-- Connections, at concrete ports.
use collision_avoidance.Base.{
  ℕ, ◌≡◌, refl, Option, none, some, is_none, List, [], ◌∷◌, ◌==◌, inl, inr, Bool-cases, arith,
}
use collision_avoidance.Base.Int.{ℤ}
use collision_avoidance.Cells.{has_mark, IsTerminated}
use collision_avoidance.Types.{BlockArray, Port, Memory, ok, eoutofmem}
use collision_avoidance.Wiring.{array_block_rm, ports_connect_uni, ports_disconnect_uni}
use collision_avoidance.Wiring.Arrays.{IsArray, Removed, array_block_rm_lem}
use collision_avoidance.Wiring.Update.{out_links, in_links, IsWired, Grown, Lost, Same, SameAttrs}
use collision_avoidance.Wiring.Uni.{
  CanConnect, ports_connect_uni_lem, ports_connect_uni_partial, disconnect-connect,
}
use collision_avoidance.Examples.{world, ports, at}

abbrev fresh : ℕ → Option ℕ
fresh n = some 99

abbrev AllWired : List (ℕ × Port) → Type 0
AllWired [] = Unit {0}
AllWired ((k, p) ∷ l) = (IsArray p.out_interaction × IsArray p.in_interaction) × AllWired l

at-IsArray :
    (l : List (ℕ × Port)) (a : ℕ) (p : Port)
    → AllWired l
    → at l a ≡ some p
    → IsArray p.out_interaction × IsArray p.in_interaction
at-IsArray [] a p h e = absurd (ground arith)
at-IsArray ((k, q) ∷ l) a p (h, g) e = elim (Bool-cases (k == a)) [
  | inl t ↦ let same : q ≡ p = ground arith in rw (← same) h
  | inr f ↦ at-IsArray l a p g (ground arith)
]

ports-AllWired : AllWired ports
unfolding has_mark
ports-AllWired = ((tt, tt), ((tt, tt), ((tt, refl), ((refl, tt), ((tt, refl), ((tt, refl), tt))))))

world-IsWired : IsWired world
world-IsWired = record {
  outs = λ a p e. (at-IsArray ports a p ports-AllWired e).0;
  ins = λ a p e. (at-IsArray ports a p ports-AllWired e).1;
}

-- One allocation succeeds, the next one fails.
abbrev tight : Memory
tight = record world { alloc = λ n. n == 0 }

CanConnect-world : CanConnect world 1 2 20
CanConnect-world = record {
  iblock = _;
  out_port = _;
  in_port = _;
  at_i = refl;
  at_o = refl;
  at_p = refl;
  kind = refl;
  is_out = refl;
  is_in = refl;
}

CanConnect-tight : CanConnect tight 1 3 20
CanConnect-tight = record {
  iblock = _;
  out_port = _;
  in_port = _;
  at_i = refl;
  at_o = refl;
  at_p = refl;
  kind = refl;
  is_out = refl;
  is_in = refl;
}

ports_connect_uni_lem_example :
    (m' : Memory) × (ports_connect_uni fresh (some 1) (some 2) (some 20) world ≡ some (ok, m'))
    × Grown out_links world m' 1 20
    × Grown in_links world m' 2 20
    × SameAttrs world m'
    × (m'.blocks ≡ world.blocks)
    × IsWired m'
ports_connect_uni_lem_example =
    ports_connect_uni_lem fresh world 1 2 20 CanConnect-world world-IsWired refl refl

disconnect-connect_example :
    (m' m'' : Memory) × (ports_connect_uni fresh (some 1) (some 2) (some 20) world ≡ some (ok, m'))
    × (ports_disconnect_uni (some 1) (some 2) (some 20) m' ≡ some (ok, m''))
    × Same out_links world m''
    × Same in_links world m''
    × IsWired m''
disconnect-connect_example =
    disconnect-connect fresh world 1 2 20 CanConnect-world world-IsWired refl refl

ports_connect_uni_partial_example :
    (m' : Memory) × (ports_connect_uni fresh (some 1) (some 3) (some 20) tight
      ≡ some (eoutofmem, m'))
    × Grown out_links tight m' 1 20
    × Lost in_links tight m' 3
ports_connect_uni_partial_example =
    ports_connect_uni_partial fresh tight 1 3 20 CanConnect-tight refl refl

abbrev pair : List (Option ℕ)
pair = some 21 ∷ some 20 ∷ none ∷ []

pair-IsTerminated : IsTerminated is_none pair
unfolding has_mark
pair-IsTerminated = refl

array_block_rm_lem_example :
    (r : ℤ × BlockArray) × (array_block_rm (some pair) 21 ≡ some r)
    × Removed (some pair) 21 r
    × IsArray r.1
array_block_rm_lem_example = array_block_rm_lem pair 21 pair-IsTerminated
