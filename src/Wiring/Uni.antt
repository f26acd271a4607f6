-- ===== src/Wiring/Uni.antt =====
-- Connecting and disconnecting a pair of ports: what each call does to the connections of every
-- port, on each outcome.
use collision_avoidance.Base.{
  ℕ, ◌≡◌, true, false, List, [], ◌∷◌, ◌++◌, Option, none, some, ◌==◌, Bool-cases, inl, inr, ◌>>=◌,
  ◌∙◌, if◌then◌else◌, arith,
}
use collision_avoidance.Base.Int.{ℤ}
use collision_avoidance.Types.{
  Port, Block, Memory, has_attr, port_dir_in, port_dir_out, ok, eoutofmem, block_type_interaction,
}
use collision_avoidance.Wiring.{
  array_block_rm, port_connect_out, port_connect_in, port_disconnect_out, port_disconnect_in,
  ports_connect_uni, ports_disconnect_uni,
}
use collision_avoidance.Wiring.Update.{
  out_links, in_links, IsWired, Grown, Lost, Same, connect_out_grows, connect_in_grows,
  connect_in_fails, SameAttrs, disconnect_out_last, disconnect_in_last,
}

-- What `ports_connect_uni` demands of its arguments: live pointers to an interaction, an out-port
-- and an in-port, which may be one port.
pub record CanConnect (m : Memory) (o p i : ℕ) : Type 0 where
  pub iblock : Block
  pub out_port : Port
  pub in_port : Port
  pub at_i : m.blocks i ≡ some iblock
  pub at_o : m.ports o ≡ some out_port
  pub at_p : m.ports p ≡ some in_port
  pub kind : iblock.type ≡ block_type_interaction
  pub is_out : has_attr out_port.attrs port_dir_out ≡ true
  pub is_in : has_attr in_port.attrs port_dir_in ≡ true

SameAttrs-trans : (m m1 m2 : Memory) → SameAttrs m m1 → SameAttrs m1 m2 → SameAttrs m m2
SameAttrs-trans m m1 m2 f g a p at_a =
    let (q, at_q, e) = f a p at_a in let (r, at_r, e') = g a q at_q in (r, at_r, e' ∙ e)

uni_runs :
    (fill : ℕ → Option ℕ) (m m1 : Memory) (o p i : ℕ) (b : Block) (r : ℤ × Memory)
    → m.blocks i ≡ some b
    → b.type ≡ block_type_interaction
    → port_connect_out fill o i m ≡ some (ok, m1)
    → port_connect_in fill p i m1 ≡ some r
    → ports_connect_uni fill (some o) (some p) (some i) m ≡ some r
unfolding ports_connect_uni
uni_runs fill m m1 o p i b r at_i kind first second =
    rw (at_i, ◌>>=◌) (rw kind (rw (first, ◌>>=◌) second))

-- Where all arrays are terminated and there is memory for both, `ports_connect_uni` returns 0; it appends the interaction to the
-- out-connections of the one port and to the in-connections of the other, changes no other
-- connection, no attributes and no block, and keeps all arrays terminated. The two ports may be the same.
pub ports_connect_uni_lem :
    (fill : ℕ → Option ℕ) (m : Memory) (o p i : ℕ)
    → CanConnect m o p i
    → IsWired m
    → m.alloc 0 ≡ true
    → m.alloc 1 ≡ true
    → (m' : Memory) × (ports_connect_uni fill (some o) (some p) (some i) m ≡ some (ok, m'))
      × Grown out_links m m' o i
      × Grown in_links m m' p i
      × SameAttrs m m'
      × (m'.blocks ≡ m.blocks)
      × IsWired m'
ports_connect_uni_lem fill m o p i can w mem0 mem1 =
    let (m1, run1, out1, in1, kept1, blocks1, alloc1, wired1) =
      connect_out_grows fill m o i can.out_port can.at_o can.is_out mem0 in
    let (q, at_q, same) = kept1 p can.in_port can.at_p in
    let (m2, run2, in2, out2, kept2, blocks2, wired2) =
      connect_in_grows fill m1 p i q at_q (rw same can.is_in) (alloc1 ∙ mem1) in
    (
      m2,
      uni_runs fill m m1 o p i can.iblock _ can.at_i can.kind run1 run2,
      (λ a. out2 a ∙ out1 a),
      (λ a. rw (← in1 a) (in2 a)),
      SameAttrs-trans m m1 m2 kept1 kept2,
      blocks2 ∙ blocks1,
      wired2 (wired1 w),
    )

-- `ports_connect_uni` is not atomic. Where the second allocation fails, it returns EOUTOFMEM with
-- the out-port connected, and the in-port has lost all the connections that it had.
pub ports_connect_uni_partial :
    (fill : ℕ → Option ℕ) (m : Memory) (o p i : ℕ)
    → CanConnect m o p i
    → m.alloc 0 ≡ true
    → m.alloc 1 ≡ false
    → (m' : Memory) × (ports_connect_uni fill (some o) (some p) (some i) m ≡ some (eoutofmem, m'))
      × Grown out_links m m' o i
      × Lost in_links m m' p
ports_connect_uni_partial fill m o p i can mem0 mem1 =
    let (m1, run1, out1, in1, kept1, blocks1, alloc1, wired1) =
      connect_out_grows fill m o i can.out_port can.at_o can.is_out mem0 in
    let (q, at_q, same) = kept1 p can.in_port can.at_p in
    let (m2, run2, in2, out2, blocks2, wired2) =
      connect_in_fails fill m1 p i q at_q (rw same can.is_in) (alloc1 ∙ mem1) in
    (
      m2,
      uni_runs fill m m1 o p i can.iblock _ can.at_i can.kind run1 run2,
      (λ a. out2 a ∙ out1 a),
      (λ a. rw (← in1 a) (in2 a)),
    )

restored :
    (f g h : ℕ → List (Option ℕ)) (o i : ℕ)
    → ((a : ℕ) → g a ≡ (if o == a then f a ++ some i ∷ [] else f a))
    → ((a : ℕ) → h a ≡ (if o == a then f o else g a))
    → (a : ℕ) → h a ≡ f a
restored f g h o i grown shrunk a = elim (Bool-cases (o == a)) [
  | inl e ↦ ground (arith, shrunk a)
  | inr e ↦ ground (arith, shrunk a, grown a)
]

undo_runs :
    (m m1 : Memory) (o p i : ℕ) (b : Block) (r : ℤ × Memory)
    → m.blocks i ≡ some b
    → b.type ≡ block_type_interaction
    → port_disconnect_out o i m ≡ some (ok, m1)
    → port_disconnect_in p i m1 ≡ some r
    → ports_disconnect_uni (some o) (some p) (some i) m ≡ some r
unfolding ports_disconnect_uni
undo_runs m m1 o p i b r at_i kind first second =
    rw (at_i, ◌>>=◌) (rw kind (rw (first, ◌>>=◌) second))

-- Disconnecting two ports right after they were connected succeeds, and every port of the memory
-- has the connections that it had before.
pub disconnect-connect :
    (fill : ℕ → Option ℕ) (m : Memory) (o p i : ℕ)
    → CanConnect m o p i
    → IsWired m
    → m.alloc 0 ≡ true
    → m.alloc 1 ≡ true
    → (m' m'' : Memory) × (ports_connect_uni fill (some o) (some p) (some i) m ≡ some (ok, m'))
      × (ports_disconnect_uni (some o) (some p) (some i) m' ≡ some (ok, m''))
      × Same out_links m m''
      × Same in_links m m''
      × IsWired m''
disconnect-connect fill m o p i can w mem0 mem1 =
    let (m2, run, outs, ins, kept, blocks, wired) =
      ports_connect_uni_lem fill m o p i can w mem0 mem1 in
    let (q, at_q, same) = kept o can.out_port can.at_o in
    let (m3, run3, out3, in3, kept3, blocks3, wired3) =
      disconnect_out_last m2 o i q at_q (out_links m o) (rw same can.is_out) wired
        (outs o ∙ ground arith) in
    let (q', at_q', same') = kept p can.in_port can.at_p in
    let (q'', at_q'', same'') = kept3 p q' at_q' in
    let (m4, run4, in4, out4, blocks4, wired4) =
      disconnect_in_last m3 p i q'' at_q'' (in_links m p) (rw (same'' ∙ same') can.is_in)
        (wired3 wired) (in3 p ∙ ins p ∙ ground arith) in
    (
      m2,
      m4,
      run,
      undo_runs m2 m3 o p i can.iblock _ (rw blocks can.at_i) can.kind run3 run4,
      (λ a. out4 a ∙ restored (out_links m) (out_links m2) (out_links m3) o i outs out3 a),
      restored (in_links m) (in_links m3) (in_links m4) p i (λ a. in3 a ∙ ins a) in4,
      wired4 (wired3 wired),
    )

-- A port that was never connected has no array: disconnecting it reads through NULL.
pub disconnect_unconnected :
    (m : Memory) (o i : ℕ) (q : Port)
    → m.ports o ≡ some q
    → has_attr q.attrs port_dir_out ≡ true
    → q.out_interaction ≡ none
    → port_disconnect_out o i m ≡ none
unfolding port_disconnect_out array_block_rm
disconnect_unconnected m o i q at_o is_out e = rw (at_o, ◌>>=◌) (rw is_out (rw e))
