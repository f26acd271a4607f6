-- ===== src/Node/Sweep.antt =====
-- The third loop removes the instances.
use collision_avoidance.Base.{
  ℕ, ◌≡◌, refl, ◌∙◌, sym, ap, Bool, true, false, not, ◌&&◌, String, Option, none, some, is_none,
  List, [], ◌∷◌, if◌then◌else◌, ◌>>=◌, str_eq, str_eq_iff, str_eq_refl, Bool-cases, Option-cases,
  ==_iff, inl, inr, arith,
}
use collision_avoidance.Base.Int.{ℤ}
use collision_avoidance.Hash.{Hash, IsDistinct, Absent, lookup}
use collision_avoidance.Types.{is_preinit, Block, Memory, ok}
use collision_avoidance.Lifecycle.Tags.{tag_of}
use collision_avoidance.Removal.{block_free, block_rm}
use collision_avoidance.Removal.Laws.{block_rm_runs}
use collision_avoidance.Registry.Resolve.{block_get}
use collision_avoidance.Node.{rm_all}
use collision_avoidance.Node.Quiesce.{Listed, AllPreinit}

-- What a lookup of `j` gives once the instances of a list are gone.
unfoldable pub kept : (ℕ → Bool) → List (String × ℕ) → String → Option ℕ → Option ℕ
kept inst [] j o = o
kept inst ((k, a) ∷ l) j o =
    let rest = kept inst l j o in if inst a && str_eq k j then none else rest

kept-none : (inst : ℕ → Bool) (l : List (String × ℕ)) (j : String) → kept inst l j none ≡ none
unfolding kept
kept-none inst [] j = refl
kept-none inst ((k, a) ∷ l) j = ground (arith, kept-none inst l j)

module _ (B : Hash ℕ) (owned : ℕ → ℕ → Bool) (inst : ℕ → Bool) where
  abbrev pub Found : List (String × ℕ) → B.Table → Type 0
  Found [] blocks = Unit {0}
  Found ((k, a) ∷ l) blocks = (B.find k blocks ≡ some a) × Found l blocks

  Found-without :
      (k : String) (l : List (String × ℕ)) (blocks blocks' : B.Table)
      → Absent k l
      → ((j : String) → B.find j blocks' ≡ (if str_eq k j then none else B.find j blocks))
      → Found l blocks
      → Found l blocks'
  Found-without k [] blocks blocks' n less h = tt
  Found-without k ((j, a) ∷ l) blocks blocks' (e, n) less (f, h) = (
    ground (arith, less j, str_eq_iff j k, str_eq_iff k j),
    Found-without k l blocks blocks' n less h,
  )

  Listed-free :
      (k : String) (a : ℕ) (i : Bool) (l : List (String × ℕ)) (m : Memory)
      → tag_of m a ≡ some (k, i)
      → Absent k l
      → Listed inst l m
      → Listed inst l (block_free (owned a) a m)
  unfolding block_free
  Listed-free k a i [] m e n h = tt
  Listed-free k a i ((j, c) ∷ l) m e (d, n) (f, h) =
      (ground (arith, ==_iff a c, str_eq_iff j k), Listed-free k a i l m e n h)

  AllPreinit-free :
      (k : String) (a : ℕ) (i : Bool) (l : List (String × ℕ)) (m : Memory)
      → tag_of m a ≡ some (k, i)
      → Absent k l
      → Listed inst l m
      → AllPreinit l m
      → AllPreinit l (block_free (owned a) a m)
  unfolding block_free
  AllPreinit-free k a i [] m e n h p = tt
  AllPreinit-free k a i ((j, c) ∷ l) m e (d, n) (f, h) (g, p) =
      (ground (arith, ==_iff a c, str_eq_iff j k), AllPreinit-free k a i l m e n h p)

  rm_all_skip :
      (k : String) (a : ℕ) (l : List (String × ℕ)) (m : Memory) (blocks : B.Table) (b : Block)
      → m.blocks a ≡ some b
      → not (is_none b.prototype) ≡ false
      → rm_all B owned ((k, a) ∷ l) m blocks ≡ rm_all B owned l m blocks
  unfolding rm_all
  rm_all_skip k a l m blocks b here e =
      rw (here, ◌>>=◌)
        (elim (Bool-cases (is_preinit b.block_state)) [
          | inl t ↦ rw (t, e) refl
          | inr f ↦ rw f refl
        ])

  rm_all_step :
      (k : String) (a : ℕ) (l : List (String × ℕ)) (m m1 : Memory) (blocks blocks1 : B.Table)
      (b : Block) (ret : ℤ)
      → m.blocks a ≡ some b
      → is_preinit b.block_state ≡ true
      → not (is_none b.prototype) ≡ true
      → block_rm B owned m blocks b.name ≡ some (ret, m1, blocks1)
      → rm_all B owned ((k, a) ∷ l) m blocks ≡ rm_all B owned l m1 blocks1
  unfolding rm_all
  rm_all_step k a l m m1 blocks blocks1 b ret here idle e rm =
      rw (here, ◌>>=◌) (rw (idle, e) (rw (rm, ◌>>=◌) refl))

  kept-less :
      (k j : String) (a : ℕ) (l : List (String × ℕ)) (o o1 : Option ℕ)
      → inst a ≡ true
      → o1 ≡ (if str_eq k j then none else o)
      → kept inst l j o1 ≡ kept inst ((k, a) ∷ l) j o
  unfolding kept
  kept-less k j a l o o1 t e = elim (Bool-cases (str_eq k j)) [
    | inl s ↦
        let gone : o1 ≡ none = e ∙ rw s refl in
        ap (kept inst l j) gone ∙ kept-none inst l j ∙ rw (t, s) refl
    | inr s ↦ let same : o1 ≡ o = e ∙ rw s refl in ap (kept inst l j) same ∙ rw (t, s) refl
  ]

  kept-skip :
      (k j : String) (a : ℕ) (l : List (String × ℕ)) (o : Option ℕ)
      → inst a ≡ false
      → kept inst ((k, a) ∷ l) j o ≡ kept inst l j o
  unfolding kept
  kept-skip k j a l o f = rw f refl

  pub rm_all_lem :
      (l : List (String × ℕ)) (m : Memory) (blocks : B.Table)
      → IsDistinct l
      → IsDistinct (B.entries blocks)
      → Listed inst l m
      → AllPreinit l m
      → Found l blocks
      → (m' : Memory) × (blocks' : B.Table) × (rm_all B owned l m blocks ≡ some (m', blocks'))
        × ((j : String) → B.find j blocks' ≡ kept inst l j (B.find j blocks))
  unfolding rm_all kept block_get
  rm_all_lem [] m blocks dl db h p f = (m, blocks, refl, λ j. refl)
  rm_all_lem ((k, a) ∷ l) m blocks (n, dl) db (e, h) (p_a, p) (f_a, f) =
      elim (Option-cases (m.blocks a)) [
        | inl gone ↦ absurd (ground arith)
        | inr (b, here) ↦
            let name : b.name ≡ k = ground arith in
            let kind : not (is_none b.prototype) ≡ inst a = ground arith in
            let idle : is_preinit b.block_state ≡ true = ground arith in
            elim (Bool-cases (inst a)) [
              | inr f_i ↦
                  let (m', blocks', run, found) = rm_all_lem l m blocks dl db h p f in
                  (
                    m',
                    blocks',
                    rm_all_skip k a l m blocks b here (kind ∙ f_i) ∙ run,
                    λ j. found j ∙ sym (kept-skip k j a l (B.find j blocks) f_i),
                  )
              | inl t ↦
                  let listed : B.find b.name blocks ≡ some a =
                    ap (λ s. B.find s blocks) name ∙ f_a in
                  let (blocks1, rm, less, db1) =
                    block_rm_runs B owned m blocks b.name a db (record {
                      block = b;
                      listed = listed;
                      at_a = here;
                      instance_block = ground arith;
                      idle = idle;
                    }) in
                  let fewer : (j : String)
                      → B.find j blocks1 ≡ (if str_eq k j then none else B.find j blocks) =
                    λ j. less j ∙ rw name refl in
                  let (m', blocks', run, found) =
                    rm_all_lem l (block_free (owned a) a m) blocks1 dl db1
                      (Listed-free k a (inst a) l m e n h)
                      (AllPreinit-free k a (inst a) l m e n h p)
                      (Found-without k l blocks blocks1 n fewer f) in
                  (
                    m',
                    blocks',
                    rm_all_step k a l m (block_free (owned a) a m) blocks blocks1 b ok here idle
                          (kind ∙ t) rm
                        ∙ run,
                    λ j.
                        found j
                        ∙ kept-less k j a l (B.find j blocks) (B.find j blocks1) t (fewer j),
                  )
            ]
      ]

lookup-later :
    (k j : String) (a c : ℕ) (l : List (String × ℕ))
    → Absent k l
    → lookup j l ≡ some c
    → lookup j ((k, a) ∷ l) ≡ some c
unfolding lookup
lookup-later k j a c [] n e = cc
lookup-later k j a c ((i, b) ∷ l) (d, n) e =
    ground (arith, str_eq_iff k j, str_eq_iff i j, str_eq_iff i k, lookup-later k j a c l n)

pub entries-Found :
    (B : Hash ℕ) (owned : ℕ → ℕ → Bool) (inst : ℕ → Bool) (l : List (String × ℕ)) (blocks : B.Table)
    → IsDistinct l
    → ((j : String) (a : ℕ) → lookup j l ≡ some a → B.find j blocks ≡ some a)
    → Found B owned inst l blocks
unfolding lookup
entries-Found B owned inst [] blocks d f = tt
entries-Found B owned inst ((k, a) ∷ l) blocks (n, d) f = (
  f k a (rw (str_eq_refl k) refl),
  entries-Found B owned inst l blocks d (λ j c e. f j c (lookup-later k j a c l n e)),
)

-- A lookup without the instances.
abbrev pub drop_instance : (ℕ → Bool) → Option ℕ → Option ℕ
drop_instance inst none = none
drop_instance inst (some a) = if inst a then none else some a

kept-Absent :
    (inst : ℕ → Bool) (l : List (String × ℕ)) (j : String) (o : Option ℕ)
    → Absent j l
    → kept inst l j o ≡ o
unfolding kept
kept-Absent inst [] j o n = refl
kept-Absent inst ((k, a) ∷ l) j o (d, n) = ground (arith, kept-Absent inst l j o n)

pub kept-lookup :
    (inst : ℕ → Bool) (l : List (String × ℕ)) (j : String)
    → IsDistinct l
    → kept inst l j (lookup j l) ≡ drop_instance inst (lookup j l)
unfolding kept lookup
kept-lookup inst [] j d = refl
kept-lookup inst ((k, a) ∷ l) j (n, d) = elim (Bool-cases (str_eq k j)) [
  | inr f ↦ ground (arith, kept-lookup inst l j d)
  | inl t ↦
      let same : k ≡ j = (str_eq_iff k j).0 t in
      let absent : Absent j l = rw (← same) n in
      ground (arith, kept-Absent inst l j (some a) absent)
]
