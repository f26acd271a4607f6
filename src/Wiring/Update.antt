-- ===== src/Wiring/Update.antt =====
-- Connecting one side of a pair of ports: what a call does to the connections of every port.
use collision_avoidance.Base.{
  ℕ, suc, ◌≡◌, refl, Bool, true, false, List, [], ◌∷◌, ◌++◌, Option, none, some, ◌==◌, Bool-cases,
  inl, inr, subst, ◌>>=◌, ◌∙◌, if◌then◌else◌, arith,
}
use collision_avoidance.Base.Int.{ℤ}
use collision_avoidance.Types.{
  Port, BlockArray, Memory, update, has_attr, port_dir_in, port_dir_out, ok, eoutofmem,
}
use collision_avoidance.Wiring.{
  array_block_add, array_block_rm, port_connect_out, port_connect_in, port_disconnect_out,
  port_disconnect_in, cells_of,
}
use collision_avoidance.Wiring.Arrays.{
  connected, IsArray, array_block_add_grows, array_block_add_fails, connected-null,
  array_block_rm_last,
}

-- The interactions that the port at `a` writes to, and those that it reads from.
abbrev pub out_links : Memory → ℕ → List (Option ℕ)
out_links m a = elim (m.ports a) [ none ↦ [] | some p ↦ connected p.out_interaction ]

abbrev pub in_links : Memory → ℕ → List (Option ℕ)
in_links m a = elim (m.ports a) [ none ↦ [] | some p ↦ connected p.in_interaction ]

-- Every array of connections is terminated.
pub record IsWired (m : Memory) : Type 0 where
  pub outs : (a : ℕ) (p : Port) → m.ports a ≡ some p → IsArray p.out_interaction
  pub ins : (a : ℕ) (p : Port) → m.ports a ≡ some p → IsArray p.in_interaction

-- `m'` is `m` with the array of out-connections at `o` changed to `arr`.
pub record OutSet (m m' : Memory) (o : ℕ) (arr : BlockArray) : Type 0 where
  pub outs_at : (a : ℕ) → out_links m' a ≡ (if o == a then connected arr else out_links m a)
  pub ins_at : (a : ℕ) → in_links m' a ≡ in_links m a
  pub kept :
      (a : ℕ) (p : Port)
      → m.ports a ≡ some p
      → (p' : Port) × (m'.ports a ≡ some p') × (p'.attrs ≡ p.attrs)
  pub wired : IsWired m → IsWired m'

pub record InSet (m m' : Memory) (o : ℕ) (arr : BlockArray) : Type 0 where
  pub ins_at : (a : ℕ) → in_links m' a ≡ (if o == a then connected arr else in_links m a)
  pub outs_at : (a : ℕ) → out_links m' a ≡ out_links m a
  pub kept :
      (a : ℕ) (p : Port)
      → m.ports a ≡ some p
      → (p' : Port) × (m'.ports a ≡ some p') × (p'.attrs ≡ p.attrs)
  pub wired : IsWired m → IsWired m'

abbrev pub set_out : Memory → (ℕ → Bool) → ℕ → Port → BlockArray → Memory
set_out m al o q arr = record m {
  ports = update m.ports o (record q { out_interaction = arr });
  alloc = al;
}

abbrev pub set_in : Memory → (ℕ → Bool) → ℕ → Port → BlockArray → Memory
set_in m al o q arr = record m {
  ports = update m.ports o (record q { in_interaction = arr });
  alloc = al;
}

module _ (m : Memory) (al : ℕ → Bool) (o : ℕ) (q : Port) (arr : BlockArray)
    (at_o : m.ports o ≡ some q) (good : IsArray arr) where
  pub set_out-OutSet : OutSet m (set_out m al o q arr) o arr
  set_out-OutSet = record {
    outs_at = λ a. ground arith;
    ins_at = λ a. elim (Bool-cases (o == a)) [ inl e ↦ ground arith | inr e ↦ ground arith ];
    kept = λ a p at_a. elim (Bool-cases (o == a)) [
      | inl e ↦ (record q { out_interaction = arr }, ground arith, ground arith)
      | inr e ↦ (p, ground arith, refl)
    ];
    wired = λ w. record {
      outs = λ a p at_a. elim (Bool-cases (o == a)) [
        | inl e ↦ let f : arr ≡ p.out_interaction = ground arith in subst IsArray f good
        | inr e ↦ w.outs a p (ground arith)
      ];
      ins = λ a p at_a. elim (Bool-cases (o == a)) [
        | inl e ↦
            let f : q.in_interaction ≡ p.in_interaction = ground arith in
            subst IsArray f (w.ins o q at_o)
        | inr e ↦ w.ins a p (ground arith)
      ];
    };
  }

  pub set_in-InSet : InSet m (set_in m al o q arr) o arr
  set_in-InSet = record {
    ins_at = λ a. ground arith;
    outs_at = λ a. elim (Bool-cases (o == a)) [ inl e ↦ ground arith | inr e ↦ ground arith ];
    kept = λ a p at_a. elim (Bool-cases (o == a)) [
      | inl e ↦ (record q { in_interaction = arr }, ground arith, ground arith)
      | inr e ↦ (p, ground arith, refl)
    ];
    wired = λ w. record {
      ins = λ a p at_a. elim (Bool-cases (o == a)) [
        | inl e ↦ let f : arr ≡ p.in_interaction = ground arith in subst IsArray f good
        | inr e ↦ w.ins a p (ground arith)
      ];
      outs = λ a p at_a. elim (Bool-cases (o == a)) [
        | inl e ↦
            let f : q.out_interaction ≡ p.out_interaction = ground arith in
            subst IsArray f (w.outs o q at_o)
        | inr e ↦ w.outs a p (ground arith)
      ];
    };
  }

-- The connections at one address grow by `i`.
abbrev pub Grown : (Memory → ℕ → List (Option ℕ)) → Memory → Memory → ℕ → ℕ → Type 0
Grown links m m' o i =
    (a : ℕ) → links m' a ≡ (if o == a then links m a ++ some i ∷ [] else links m a)

-- The connections at one address are lost.
abbrev pub Lost : (Memory → ℕ → List (Option ℕ)) → Memory → Memory → ℕ → Type 0
Lost links m m' o = (a : ℕ) → links m' a ≡ (if o == a then [] else links m a)

abbrev pub Same : (Memory → ℕ → List (Option ℕ)) → Memory → Memory → Type 0
Same links m m' = (a : ℕ) → links m' a ≡ links m a

-- The part of a port that a change of its out-connections leaves alone.
abbrev pub SameAttrs : Memory → Memory → Type 0
SameAttrs m m' =
    (a : ℕ) (p : Port)
    → m.ports a ≡ some p
    → (p' : Port) × (m'.ports a ≡ some p') × (p'.attrs ≡ p.attrs)

rm_last_of :
    (arr : BlockArray) (xs : List (Option ℕ)) (b : ℕ)
    → IsArray arr
    → connected arr ≡ xs ++ some b ∷ []
    → (r : ℤ × BlockArray) × (array_block_rm arr b ≡ some r)
      × (r.0 ≡ ok)
      × (connected r.1 ≡ xs)
      × IsArray r.1
unfolding connected cells_of
rm_last_of none [] b good e = ground (arith, connected-null)
rm_last_of none (x ∷ xs) b good e = ground (arith, connected-null)
rm_last_of (some cells) xs b good e = array_block_rm_last cells xs b good e

module _ (fill : ℕ → Option ℕ) (m : Memory) (o i : ℕ) (q : Port) (at_o : m.ports o ≡ some q) where
  pub connect_out_runs :
      has_attr q.attrs port_dir_out ≡ true
      → let added = array_block_add fill (m.alloc 0) q.out_interaction i in
        port_connect_out fill o i m ≡ some (added.0, set_out m (λ n. m.alloc (suc n)) o q added.1)
  unfolding port_connect_out
  connect_out_runs is_out = rw (at_o, ◌>>=◌) (rw is_out)

  pub connect_in_runs :
      has_attr q.attrs port_dir_in ≡ true
      → let added = array_block_add fill (m.alloc 0) q.in_interaction i in
        port_connect_in fill o i m ≡ some (added.0, set_in m (λ n. m.alloc (suc n)) o q added.1)
  unfolding port_connect_in
  connect_in_runs is_in = rw (at_o, ◌>>=◌) (rw is_in)

  pub connect_out_grows :
      has_attr q.attrs port_dir_out ≡ true
      → m.alloc 0 ≡ true
      → (m' : Memory) × (port_connect_out fill o i m ≡ some (ok, m'))
        × Grown out_links m m' o i
        × Same in_links m m'
        × SameAttrs m m'
        × (m'.blocks ≡ m.blocks)
        × (m'.alloc 0 ≡ m.alloc 1)
        × (IsWired m → IsWired m')
  connect_out_grows is_out mem =
      let g = array_block_add_grows fill q.out_interaction i in
      let arr = (array_block_add fill true q.out_interaction i).1 in
      let s = set_out-OutSet m (λ n. m.alloc (suc n)) o q arr at_o g.2 in
      (
        set_out m (λ n. m.alloc (suc n)) o q arr,
        connect_out_runs is_out ∙ rw (mem, g.0),
        (λ a. ground (arith, s.outs_at a, g.1)),
        s.ins_at,
        s.kept,
        refl,
        refl,
        s.wired,
      )

  pub connect_in_grows :
      has_attr q.attrs port_dir_in ≡ true
      → m.alloc 0 ≡ true
      → (m' : Memory) × (port_connect_in fill o i m ≡ some (ok, m'))
        × Grown in_links m m' o i
        × Same out_links m m'
        × SameAttrs m m'
        × (m'.blocks ≡ m.blocks)
        × (IsWired m → IsWired m')
  connect_in_grows is_in mem =
      let g = array_block_add_grows fill q.in_interaction i in
      let arr = (array_block_add fill true q.in_interaction i).1 in
      let s = set_in-InSet m (λ n. m.alloc (suc n)) o q arr at_o g.2 in
      (
        set_in m (λ n. m.alloc (suc n)) o q arr,
        connect_in_runs is_in ∙ rw (mem, g.0),
        (λ a. ground (arith, s.ins_at a, g.1)),
        s.outs_at,
        s.kept,
        refl,
        s.wired,
      )

  pub connect_in_fails :
      has_attr q.attrs port_dir_in ≡ true
      → m.alloc 0 ≡ false
      → (m' : Memory) × (port_connect_in fill o i m ≡ some (eoutofmem, m'))
        × Lost in_links m m' o
        × Same out_links m m'
        × (m'.blocks ≡ m.blocks)
        × (IsWired m → IsWired m')
  connect_in_fails is_in mem =
      let s = set_in-InSet m (λ n. m.alloc (suc n)) o q none at_o tt in
      (
        set_in m (λ n. m.alloc (suc n)) o q none,
        connect_in_runs is_in ∙ rw (mem, array_block_add_fails fill q.in_interaction i),
        (λ a. ground (arith, s.ins_at a, connected-null)),
        s.outs_at,
        refl,
        s.wired,
      )

module _ (m : Memory) (o i : ℕ) (q : Port) (at_o : m.ports o ≡ some q) where
  pub disconnect_out_runs :
      has_attr q.attrs port_dir_out ≡ true
      → (r : ℤ × BlockArray) → array_block_rm q.out_interaction i ≡ some r
      → port_disconnect_out o i m ≡ some (r.0, set_out m m.alloc o q r.1)
  unfolding port_disconnect_out
  disconnect_out_runs is_out r e = rw (at_o, ◌>>=◌) (rw is_out (rw (e, ◌>>=◌)))

  pub disconnect_in_runs :
      has_attr q.attrs port_dir_in ≡ true
      → (r : ℤ × BlockArray) → array_block_rm q.in_interaction i ≡ some r
      → port_disconnect_in o i m ≡ some (r.0, set_in m m.alloc o q r.1)
  unfolding port_disconnect_in
  disconnect_in_runs is_in r e = rw (at_o, ◌>>=◌) (rw is_in (rw (e, ◌>>=◌)))

  -- The block that stands last is the one that goes.
  pub disconnect_out_last :
      (xs : List (Option ℕ))
      → has_attr q.attrs port_dir_out ≡ true
      → IsWired m
      → out_links m o ≡ xs ++ some i ∷ []
      → (m' : Memory) × (port_disconnect_out o i m ≡ some (ok, m'))
        × ((a : ℕ) → out_links m' a ≡ (if o == a then xs else out_links m a))
        × Same in_links m m'
        × SameAttrs m m'
        × (m'.blocks ≡ m.blocks)
        × (IsWired m → IsWired m')
  disconnect_out_last xs is_out w e =
      let e' : connected q.out_interaction ≡ xs ++ some i ∷ [] = ground arith in
      let (r, run, ret, rest, good) = rm_last_of q.out_interaction xs i (w.outs o q at_o) e' in
      let s = set_out-OutSet m m.alloc o q r.1 at_o good in
      (
        set_out m m.alloc o q r.1,
        disconnect_out_runs is_out r run ∙ rw ret,
        (λ a. ground (arith, s.outs_at a)),
        s.ins_at,
        s.kept,
        refl,
        s.wired,
      )

  pub disconnect_in_last :
      (xs : List (Option ℕ))
      → has_attr q.attrs port_dir_in ≡ true
      → IsWired m
      → in_links m o ≡ xs ++ some i ∷ []
      → (m' : Memory) × (port_disconnect_in o i m ≡ some (ok, m'))
        × ((a : ℕ) → in_links m' a ≡ (if o == a then xs else in_links m a))
        × Same out_links m m'
        × (m'.blocks ≡ m.blocks)
        × (IsWired m → IsWired m')
  disconnect_in_last xs is_in w e =
      let e' : connected q.in_interaction ≡ xs ++ some i ∷ [] = ground arith in
      let (r, run, ret, rest, good) = rm_last_of q.in_interaction xs i (w.ins o q at_o) e' in
      let s = set_in-InSet m m.alloc o q r.1 at_o good in
      (
        set_in m m.alloc o q r.1,
        disconnect_in_runs is_in r run ∙ rw ret,
        (λ a. ground (arith, s.ins_at a)),
        s.outs_at,
        refl,
        s.wired,
      )
