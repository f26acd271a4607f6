-- ===== src/Examples/Samples.antt =====
-- Reads and writes, at concrete ports.
use collision_avoidance.Base.{
  Option-cases, Bool-cases, inl, inr, ◌==◌, arith, ℕ, ◌≡◌, refl, ◌-◌, ◌^◌, ◌<◌, none, some, List,
  [], ◌∷◌, inl, Option, arith,
}
use collision_avoidance.Base.Int.{pos, negsuc}
use collision_avoidance.Types.{Memory}
use collision_avoidance.Comm.{to_u32, get_typename, same_type, count_read, port_read, port_write}
use collision_avoidance.Comm.Deliver.{
  active_in, deliver, one_more_of, KeepsWriters, KeepsLinks, HasWriters,
}
use collision_avoidance.Comm.Write.{CanWrite, port_write_lem}
use collision_avoidance.Comm.Read.{Answers, AllSilent, CanRead, port_read_first, port_read_error}
use collision_avoidance.Examples.{world, hooks, hooks-IsQuiet, sample}

abbrev pair : List (Option ℕ)
pair = some 21 ∷ some 20 ∷ none ∷ []

CanRead-pair : CanRead world 3 sample pair
unfolding same_type
CanRead-pair = record {
  owner = _;
  room = refl;
  at_port = refl;
  is_in = refl;
  typed = refl;
  wired = refl;
}

CanRead-faulty : CanRead world 5 sample (some 22 ∷ some 20 ∷ none ∷ [])
unfolding same_type
CanRead-faulty = record {
  owner = _;
  room = refl;
  at_port = refl;
  is_in = refl;
  typed = refl;
  wired = refl;
}

CanRead-idle : CanRead world 6 sample (some 21 ∷ none ∷ [])
unfolding same_type
CanRead-idle = record {
  owner = _;
  room = refl;
  at_port = refl;
  is_in = refl;
  typed = refl;
  wired = refl;
}

silent : AllSilent hooks world sample (21 ∷ [])
silent = ((_, refl, inl refl), tt)

answers : Answers hooks world sample 20 (pos 1) sample world
answers = record {
  iblock = _;
  hook = 1;
  at_i = refl;
  running = refl;
  readable = refl;
  result = refl;
}

fails : Answers hooks world sample 22 (negsuc 0) sample world
fails = record { iblock = _; hook = 2; at_i = refl; running = refl; readable = refl; result = refl }

first_counted : (m : Memory) × (count_read 3 20 world ≡ some m)
unfolding count_read
first_counted = (_, refl)

fault_counted : (m : Memory) × (count_read 5 22 world ≡ some m)
unfolding count_read
fault_counted = (_, refl)

port_read_first_example :
    port_read hooks (some 3) (some sample) world
    ≡ some (to_u32 (pos 1), some sample, first_counted.0)
port_read_first_example =
    port_read_first hooks world 3 sample (21 ∷ []) 20 (none ∷ []) (pos 1) sample world
      first_counted.0 CanRead-pair silent answers (omega arith) first_counted.1

port_read_error_example :
    (port_read hooks (some 5) (some sample) world
      ≡ some (2 ^ 32 - 1 - 0, some sample, fault_counted.0))
    × (0 < 2 ^ 32 - 1 - 0)
port_read_error_example =
    port_read_error hooks world 5 sample 22 0 (some 20 ∷ none ∷ []) sample world fault_counted.0
      CanRead-faulty fails (omega arith) fault_counted.1

CanWrite-pair : CanWrite world 4 sample
unfolding same_type
CanWrite-pair = record {
  owner = _;
  cells = pair;
  at_port = refl;
  is_out = refl;
  typed = refl;
  wired = refl;
  targets = ((_, refl), ((_, refl), tt));
}

KeepsWriters-hooks : KeepsWriters hooks
KeepsWriters-hooks f i d m a = elim (Option-cases (m.blocks i)) [
  | inl gone ↦ ground arith
  | inr (b, here) ↦ elim (Bool-cases (i == a)) [ inl t ↦ ground arith | inr t ↦ ground arith ]
]

KeepsLinks-hooks : KeepsLinks hooks
KeepsLinks-hooks f i d m a = elim (Option-cases (m.blocks i)) [
  | inl gone ↦ ground arith
  | inr (b, here) ↦ ground arith
]

HasWriters-pair : HasWriters world (active_in world pair)
unfolding active_in
HasWriters-pair = ((1, refl), tt)

port_write_lem_example :
    port_write hooks (some 4) sample world
    ≡ some (one_more_of 4 (deliver hooks sample (active_in world CanWrite-pair.cells) world))
unfolding CanWrite-pair
port_write_lem_example =
    port_write_lem hooks world 4 sample CanWrite-pair hooks-IsQuiet KeepsWriters-hooks
      KeepsLinks-hooks HasWriters-pair

-- The name of a type, at some data and at NULL.
names_of_types : (get_typename (some sample) ≡ some "double") × (get_typename none ≡ none)
unfolding get_typename
names_of_types = (refl, refl)
