-- ===== src/Comm/Write.antt =====
-- `__port_write` writes once to each active interaction, in the order of the connections.
use collision_avoidance.Base.{
  ℕ, suc, length, get_elem?, ◌+◌, ◌≡◌, refl, true, false, Option, none, some, List, [], ◌∷◌, ◌==◌,
  ◌>>=◌, ◌⊎◌, sym, subst, inl, inr, Bool-cases, Option-cases, ap, ◌∙◌, arith,
}
use collision_avoidance.Types.{UbxType, UbxData, Port, Memory, has_attr, port_dir_out, is_active}
use collision_avoidance.Hooks.{Hooks, IsQuiet}
use collision_avoidance.Comm.{
  out_cell, write_one, write_to, write_array, count_write, port_write, same_type, mismatch,
}
use collision_avoidance.Comm.Deliver.{
  active_in, AllLive, writer_of, KeepsWriters, HasWriters, links_of, KeepsLinks, one_more,
  one_more_of, deliver, Same, active_in-same, AllLive-same, active_in-active, active_in-idle,
  HasWriters-same,
}

module _ (hooks : Hooks) (quiet : IsQuiet hooks) (writers : KeepsWriters hooks)
    (links : KeepsLinks hooks) (d : UbxData) where
  one_more-Same : (f i : ℕ) (m : Memory) → Same m (one_more i (hooks.write f i d m))
  unfolding one_more
  one_more-Same f i m = (
    λ a. elim (Option-cases ((hooks.write f i d m).blocks i)) [
      | inl gone ↦ ground (arith, quiet.quiet_write f i d m a)
      | inr (b, here) ↦ elim (Bool-cases (i == a)) [
        | inl t ↦ ground (arith, quiet.quiet_write f i d m a)
        | inr t ↦ ground (arith, quiet.quiet_write f i d m a)
      ]
    ],
    λ a. elim (Option-cases ((hooks.write f i d m).blocks i)) [
      | inl gone ↦ ground (arith, writers f i d m a)
      | inr (b, here) ↦ elim (Bool-cases (i == a)) [
        | inl t ↦ ground (arith, writers f i d m a)
        | inr t ↦ ground (arith, writers f i d m a)
      ]
    ],
    λ a. elim (Option-cases ((hooks.write f i d m).blocks i)) [
      | inl gone ↦ rw (gone, links_of) (links f i d m a)
      | inr (b, here) ↦ rw (here, links_of) (links f i d m a)
    ],
  )

  out_cell_at :
      (port k : ℕ) (all : List (Option ℕ)) (c : Option ℕ) (m : Memory)
      → links_of m port ≡ some (some all)
      → get_elem? all k ≡ some c
      → out_cell hooks port (length all) k m ≡ some c
  unfolding out_cell
  out_cell_at port k all c m wired at_k = elim (Option-cases (m.ports port)) [
    | inl gone ↦ absurd (ground arith)
    | inr (p, here) ↦
        let w : p.out_interaction ≡ some all = ground arith in
        let whole : (length all == length all) ≡ true = ground arith in
        rw (here, ◌>>=◌) (rw (w, ◌>>=◌) (rw whole at_k))
  ]

  write_one-one_more :
      (port k f i : ℕ) (all : List (Option ℕ)) (m : Memory)
      → links_of m port ≡ some (some all)
      → get_elem? all k ≡ some (some i)
      → writer_of m i ≡ some f
      → write_one hooks port (length all) k f i d m ≡ some (one_more i (hooks.write f i d m))
  unfolding write_one one_more
  write_one-one_more port k f i all m wired at_k e =
      let m' = hooks.write f i d m in
      let cell = out_cell_at port k all (some i) m' (links f i d m port ∙ wired) at_k in
      elim (Option-cases (m'.blocks i)) [
        | inl gone ↦ absurd (ground (arith, writers f i d m i))
        | inr (b, here) ↦ rw (cell, ◌>>=◌) (rw (here, ◌>>=◌) (rw (one_more, here) refl))
      ]

  -- From the cell `k` on, whose cells are `rest`.
  write_to-deliver :
      (port k : ℕ) (all rest : List (Option ℕ)) (m : Memory)
      → links_of m port ≡ some (some all)
      → ((j : ℕ) → get_elem? all (k + j) ≡ get_elem? rest j)
      → AllLive m rest
      → HasWriters m (active_in m rest)
      → write_to hooks port (length all) k (length rest) d m
        ≡ some (deliver hooks d (active_in m rest) m)
  unfolding write_to deliver active_in
  write_to-deliver port k all [] m wired at_j live has = absurd live
  write_to-deliver port k all (none ∷ rest) m wired at_j live has =
      let at_k : get_elem? all k ≡ some none = ap (get_elem? all) (omega arith) ∙ at_j 0 in
      rw (out_cell_at port k all none m wired at_k, ◌>>=◌) refl
  write_to-deliver port k all (some i ∷ rest) m wired at_j ((b, here), live) has =
      let at_k : get_elem? all k ≡ some (some i) = ap (get_elem? all) (omega arith) ∙ at_j 0 in
      let cell = out_cell_at port k all (some i) m wired at_k in
      let next : (j : ℕ) → get_elem? all (suc k + j) ≡ get_elem? rest j =
        λ j. ap (get_elem? all) (omega arith) ∙ at_j (suc j) in
      elim (Bool-cases (is_active b.block_state)) [
        | inr t ↦
            let idle = active_in-idle m i rest b here t in
            let h = subst (HasWriters m) idle has in
            rw (idle, cell, ◌>>=◌)
              (rw (here, ◌>>=◌) (rw t (write_to-deliver port (suc k) all rest m wired next live h)))
        | inl t ↦
            let busy = active_in-active m i rest b here t in
            let ((f, e), h) = subst (HasWriters m) busy has in
            let w : b.write ≡ some f = ground arith in
            let m2 = one_more i (hooks.write f i d m) in
            let (states, writes, wires) = one_more-Same f i m in
            let same = active_in-same m m2 rest states in
            let h2 =
              subst (HasWriters m2) (sym same) (HasWriters-same (active_in m rest) m m2 writes h) in
            let more =
              write_to-deliver port (suc k) all rest m2 (wires port ∙ wired) next
                (AllLive-same m m2 rest states live) h2 in
            let one = write_one-one_more port k f i all m wired at_k e in
            rw (busy, cell, ◌>>=◌)
              (rw (here, ◌>>=◌)
                (rw t (
                  rw (w, ◌>>=◌)
                    (rw (one, ◌>>=◌)
                      (more ∙ ap (λ l. some (deliver hooks d l m2)) same ∙ rw (deliver, e) refl)))))
      ]

  deliver_links :
      (is : List ℕ) (m : Memory) (port : ℕ) → links_of (deliver hooks d is m) port ≡ links_of m port
  unfolding deliver
  deliver_links [] m port = refl
  deliver_links (i ∷ is) m port = elim (Option-cases (writer_of m i)) [
    | inl e ↦ rw (deliver, e) (deliver_links is m port)
    | inr (f, e) ↦
        rw (deliver, e)
          (deliver_links is (one_more i (hooks.write f i d m)) port ∙ (one_more-Same f i m).2 port)
  ]

-- What a write needs: a live out-port whose type is that of the data, with connections to live blocks.
pub record CanWrite (m : Memory) (port : ℕ) (d : UbxData) : Type 0 where
  pub owner : Port
  pub cells : List (Option ℕ)
  pub at_port : m.ports port ≡ some owner
  pub is_out : has_attr owner.attrs port_dir_out ≡ true
  pub typed : same_type owner.out_type d.type ≡ true
  pub wired : owner.out_interaction ≡ some cells
  pub targets : AllLive m cells

-- `__port_write` on a connected out-port of the type of the data calls the write hook of each
-- connected interaction that is active at the call, once and in the order of the connections, and no
-- other hook; after each call it counts one more write of the interaction, modulo 2^64, and in the
-- end one more write of the port. The interactions are live and have write hooks, and write hooks
-- change no state, no write hook and no connection.
pub port_write_lem :
    (hooks : Hooks) (m : Memory) (port : ℕ) (d : UbxData) (can : CanWrite m port d)
    → IsQuiet hooks
    → KeepsWriters hooks
    → KeepsLinks hooks
    → HasWriters m (active_in m can.cells)
    → port_write hooks (some port) d m
      ≡ some (one_more_of port (deliver hooks d (active_in m can.cells) m))
unfolding port_write write_array count_write one_more_of
port_write_lem hooks m port d can quiet writers links has =
    let wired : links_of m port ≡ some (some can.cells) =
      rw (can.at_port, links_of) (ap (λ x. some x) can.wired) in
    let run =
      write_to-deliver hooks quiet writers links d port 0 can.cells can.cells m wired
        (λ j. ap (get_elem? can.cells) (omega arith)) can.targets has in
    let m' = deliver hooks d (active_in m can.cells) m in
    let kept : links_of m' port ≡ some (some can.cells) =
      deliver_links hooks quiet writers links d (active_in m can.cells) m port ∙ wired in
    rw (can.at_port, ◌>>=◌)
      (rw can.is_out (
        rw can.typed (
          rw (can.wired, write_array)
            (rw (run, ◌>>=◌)
              (elim (Option-cases (m'.ports port)) [
                | inl gone ↦ absurd (ground arith)
                | inr (p, here) ↦ rw (here, ◌>>=◌) (rw (one_more_of, here) refl)
              ])))))

-- Nothing is written and nothing is counted where the port is NULL, is no out-port, carries another
-- type than the data, or is not connected.
pub port_write_refused :
    (hooks : Hooks) (m : Memory) (port : ℕ) (d : UbxData) (p : Port)
    → m.ports port ≡ some p
    → (has_attr p.attrs port_dir_out ≡ false)
      ⊎ ((t : UbxType) × (p.out_type ≡ some t) × (same_type p.out_type d.type ≡ false))
      ⊎ ((p.out_interaction ≡ none) × (same_type p.out_type d.type ≡ true))
    → (port_write hooks none d m ≡ some m) × (port_write hooks (some port) d m ≡ some m)
unfolding port_write write_array mismatch
port_write_refused hooks m port d p at_port (inl e) = (refl, rw (at_port, ◌>>=◌) (rw e))
port_write_refused hooks m port d p at_port (inr (inl (t, e, f))) =
    (refl, rw (at_port, ◌>>=◌) (rw (f, e) (ground arith)))
port_write_refused hooks m port d p at_port (inr (inr (e, f))) =
    (refl, rw (at_port, ◌>>=◌) (rw (f, e) (ground arith)))
