-- ===== src/Comm/Read.antt =====
-- `__port_read` asks the active interactions in the order of the connections, until one has data.
use collision_avoidance.Base.{
  ℕ, ◌-◌, ◌≡◌, ◌<◌, ◌^◌, refl, true, false, Option, none, some, List, [], ◌∷◌, ◌++◌, ◌==◌, ltb,
  ◌>>=◌, ◌⊎◌, inl, inr, map, ap, ◌∙◌, arith,
}
use collision_avoidance.Base.Int.{ℤ, pos, negsuc}
use collision_avoidance.Types.{
  UbxType, UbxData, Port, Block, Memory, has_attr, port_dir_in, is_active, failed, eport_invalid,
  eport_invalid_type,
}
use collision_avoidance.Hooks.{Hooks}
use collision_avoidance.Comm.{
  Reading, to_u32, count_read, after_read, read_from, read_array, port_read, same_type, mismatch,
}

module _ (hooks : Hooks) (m : Memory) (d : UbxData) where
  -- An interaction that has nothing to read: it is not active, or its hook returns 0 and changes
  -- neither data nor memory.
  abbrev pub IsSilent : ℕ → Type 0
  IsSilent i =
      (b : Block) × (m.blocks i ≡ some b)
      × ((is_active b.block_state ≡ false)
          ⊎ ((is_active b.block_state ≡ true)
              × (f : ℕ) × (b.read ≡ some f)
              × (hooks.read f i d m ≡ (pos 0, d, m))))

  abbrev pub AllSilent : List ℕ → Type 0
  AllSilent [] = Unit {0}
  AllSilent (i ∷ is) = IsSilent i × AllSilent is

  -- An active interaction whose hook returns `status` with data `d'` and memory `m'`.
  pub record Answers (i : ℕ) (status : ℤ) (d' : UbxData) (m' : Memory) : Type 0 where
    pub iblock : Block
    pub hook : ℕ
    pub at_i : m.blocks i ≡ some iblock
    pub running : is_active iblock.block_state ≡ true
    pub readable : iblock.read ≡ some hook
    pub result : hooks.read hook i d m ≡ (status, d', m')

  after_read-zero :
      (port i : ℕ) (rest : ℕ → UbxData → Memory → Option Reading)
      → after_read port i rest (pos 0, d, m) ≡ rest 0 d m
  unfolding after_read
  after_read-zero port i rest = refl

  after_read-positive :
      (port i : ℕ) (rest : ℕ → UbxData → Memory → Option Reading) (status : ℤ) (d' : UbxData)
      (m' : Memory)
      → ltb 0 (to_u32 status) ≡ true
      → after_read port i rest (status, d', m')
        ≡ (count_read port i m' >>= λ m''. some (to_u32 status, d', m''))
  unfolding after_read
  after_read-positive port i rest status d' m' e = rw (e, after_read)

  read_from-silent :
      (port i : ℕ) (cells : List (Option ℕ)) (ret : ℕ)
      → IsSilent i
      → ret ≡ 0
      → read_from hooks port (some i ∷ cells) ret d m ≡ read_from hooks port cells 0 d m
  unfolding read_from
  read_from-silent port i cells ret (b, here, inl idle) e = rw (here, ◌>>=◌) (rw (idle, e))
  read_from-silent port i cells ret (b, here, inr (t, f, has, out)) e =
      rw (here, ◌>>=◌)
        (rw t (
          rw (has, ◌>>=◌)
            (ap (after_read port i (read_from hooks port cells)) out
              ∙ after_read-zero port i (read_from hooks port cells))))

  read_from-answer :
      (port i : ℕ) (cells : List (Option ℕ)) (ret : ℕ) (status : ℤ) (d' : UbxData) (m' : Memory)
      → Answers i status d' m'
      → ltb 0 (to_u32 status) ≡ true
      → read_from hooks port (some i ∷ cells) ret d m
        ≡ (count_read port i m' >>= λ m''. some (to_u32 status, d', m''))
  unfolding read_from
  read_from-answer port i cells ret status d' m' a e =
      rw (a.at_i, ◌>>=◌)
        (rw a.running (
          rw (a.readable, ◌>>=◌)
            (ap (after_read port i (read_from hooks port cells)) a.result
              ∙ after_read-positive port i (read_from hooks port cells) status d' m' e)))

  read_from-first :
      (port : ℕ) (pre : List ℕ) (i : ℕ) (cells : List (Option ℕ)) (status : ℤ) (d' : UbxData)
      (m' : Memory)
      → AllSilent pre
      → Answers i status d' m'
      → ltb 0 (to_u32 status) ≡ true
      → read_from hooks port (map some pre ++ some i ∷ cells) 0 d m
        ≡ (count_read port i m' >>= λ m''. some (to_u32 status, d', m''))
  read_from-first port [] i cells status d' m' h a e =
      read_from-answer port i cells 0 status d' m' a e
  read_from-first port (j ∷ pre) i cells status d' m' (s, h) a e =
      read_from-silent port j (map some pre ++ some i ∷ cells) 0 s refl
      ∙ read_from-first port pre i cells status d' m' h a e

  read_from-none :
      (port : ℕ) (pre : List ℕ)
      → AllSilent pre
      → read_from hooks port (map some pre ++ none ∷ []) 0 d m ≡ some (0, d, m)
  unfolding read_from
  read_from-none port [] h = refl
  read_from-none port (j ∷ pre) (s, h) =
      read_from-silent port j (map some pre ++ none ∷ []) 0 s refl ∙ read_from-none port pre h

-- What a read needs: a live in-port with connections, whose type is that of the data, and room for
-- one element at least.
pub record CanRead (m : Memory) (port : ℕ) (d : UbxData) (cells : List (Option ℕ)) : Type 0 where
  pub owner : Port
  pub room : (d.len == 0) ≡ false
  pub at_port : m.ports port ≡ some owner
  pub is_in : has_attr owner.attrs port_dir_in ≡ true
  pub typed : same_type owner.in_type d.type ≡ true
  pub wired : owner.in_interaction ≡ some cells

port_read-read_from :
    (hooks : Hooks) (m : Memory) (port : ℕ) (d : UbxData) (cells : List (Option ℕ))
    → CanRead m port d cells
    → port_read hooks (some port) (some d) m
      ≡ (read_from hooks port cells 0 d m >>= λ r. some (r.0, some r.1, r.2))
unfolding port_read read_array
port_read-read_from hooks m port d cells can =
    rw can.room (rw (can.at_port, ◌>>=◌) (rw can.is_in (rw can.typed (rw (can.wired, read_array)))))

-- A read returns the first answer: past interactions that are not active or have no data, the first
-- whose hook returns a status other than 0 decides the status (as an unsigned number), the data and
-- the memory, to which one read of the port and one of the interaction are counted.
pub port_read_first :
    (hooks : Hooks) (m : Memory) (port : ℕ) (d : UbxData) (pre : List ℕ) (i : ℕ)
    (cells : List (Option ℕ)) (status : ℤ) (d' : UbxData) (m' m'' : Memory)
    → CanRead m port d (map some pre ++ some i ∷ cells)
    → AllSilent hooks m d pre
    → Answers hooks m d i status d' m'
    → 0 < to_u32 status
    → count_read port i m' ≡ some m''
    → port_read hooks (some port) (some d) m ≡ some (to_u32 status, some d', m'')
port_read_first hooks m port d pre i cells status d' m' m'' can silent a h counted =
    port_read-read_from hooks m port d (map some pre ++ some i ∷ cells) can
    ∙ rw (read_from-first hooks m d port pre i cells status d' m' silent a (ground arith))
        (rw (counted, ◌>>=◌))

-- Where no interaction has data, a read returns 0 and changes nothing.
pub port_read_nodata :
    (hooks : Hooks) (m : Memory) (port : ℕ) (d : UbxData) (pre : List ℕ)
    → CanRead m port d (map some pre ++ none ∷ [])
    → AllSilent hooks m d pre
    → port_read hooks (some port) (some d) m ≡ some (0, some d, m)
port_read_nodata hooks m port d pre can silent =
    port_read-read_from hooks m port d (map some pre ++ none ∷ []) can
    ∙ rw (read_from-none hooks m d port pre silent)

-- The status is compared as an unsigned number: an error of the first interaction ends the loop as
-- if data had been read. The error comes back as a positive status and is counted as a read; the
-- interactions after it are never asked.
pub port_read_error :
    (hooks : Hooks) (m : Memory) (port : ℕ) (d : UbxData) (i n : ℕ) (cells : List (Option ℕ))
    (d' : UbxData) (m' m'' : Memory)
    → CanRead m port d (some i ∷ cells)
    → Answers hooks m d i (negsuc n) d' m'
    → n < 2 ^ 31
    → count_read port i m' ≡ some m''
    → (port_read hooks (some port) (some d) m ≡ some (2 ^ 32 - 1 - n, some d', m''))
      × (0 < 2 ^ 32 - 1 - n)
port_read_error hooks m port d i n cells d' m' m'' can a h counted =
    let e : to_u32 (negsuc n) ≡ 2 ^ 32 - 1 - n = omega arith in
    (
      port_read_first hooks m port d [] i cells (negsuc n) d' m' m'' can tt a (omega arith) counted
          ∙ rw e,
      omega arith,
    )

-- What a read is refused for, and the status it then returns: no room for data, a port that is no
-- in-port, or data of another type than the port's.
abbrev pub IsRefused : Port → UbxData → ℕ → Type 0
IsRefused p d status =
    ((d.len ≡ 0) × (status ≡ to_u32 failed))
    ⊎ (((d.len == 0) ≡ false)
        × (has_attr p.attrs port_dir_in ≡ false)
        × (status ≡ to_u32 eport_invalid_type))
    ⊎ (((d.len == 0) ≡ false)
        × (has_attr p.attrs port_dir_in ≡ true)
        × (same_type p.in_type d.type ≡ false)
        × (status ≡ 0))

-- The checks before the loop, in their order, on a port with an in-type: each failing one has its
-- status, and changes nothing. So have NULL for the port and for the data.
port_read_refused :
    (hooks : Hooks) (m : Memory) (port : ℕ) (d : UbxData) (p : Port) (t : UbxType) (status : ℕ)
    → m.ports port ≡ some p
    → p.in_type ≡ some t
    → IsRefused p d status
    → (port_read hooks none (some d) m ≡ some (to_u32 eport_invalid, some d, m))
      × (port_read hooks (some port) none m ≡ some (to_u32 failed, none, m))
      × (port_read hooks (some port) (some d) m ≡ some (status, some d, m))
unfolding port_read mismatch
port_read_refused hooks m port d p t status at_port typed (inl (e, s)) = (refl, refl, rw e (rw s))
port_read_refused hooks m port d p t status at_port typed (inr (inl (room, e, s))) =
    (refl, refl, rw room (rw (at_port, ◌>>=◌) (rw e (rw s))))
port_read_refused hooks m port d p t status at_port typed (inr (inr (room, e, f, s))) =
    (refl, refl, rw room (rw (at_port, ◌>>=◌) (rw e (rw f (rw (typed, mismatch) (rw s))))))
