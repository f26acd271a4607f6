-- ===== src/Ports.antt =====
-- The ports of a block (src/ubx.c: `ubx_port_free_data`, `ubx_clone_port_data`, `get_num_ports` to
-- `ubx_port_get`). A string is copied with its contents; `alloc` has the outcomes of the allocations
-- of a call, in their order. A block is passed by value: NULL is `none`. Memory that is freed is
-- left out.
pub mod Laws
use collision_avoidance.Base.{
  ℕ, suc, ◌+◌, Bool, true, false, ◌&&◌, String, Option, none, some, is_none, not, ◌>>=◌, List, [],
  ◌∷◌, ◌==◌, if◌then◌else◌, get_or,
}
use collision_avoidance.Base.Int.{ℤ}
use collision_avoidance.Cells.{count, has_mark}
use collision_avoidance.Entries.{is_end, find_entry, remove_entry, append_entry}
use collision_avoidance.Hash.{Hash}
use collision_avoidance.Types.{
  UbxType, Port, Block, port_dir_in, port_dir_out, ok, failed, is_ok, eoutofmem,
}
use collision_avoidance.Registry.{TypeRef, TypeTable, type_get}
use Prim.Native.Nat.{bit_or}

-- A port whose bytes are all 0.
abbrev pub zero_port : Port
zero_port = record {
  name = none;
  doc = none;
  attrs = 0;
  state = 0;
  in_type_name = none;
  out_type_name = none;
  in_type = none;
  out_type = none;
  in_data_len = 0;
  out_data_len = 0;
  in_interaction = none;
  out_interaction = none;
  stat_writes = 0;
  stat_reades = 0;
  block = none;
}

-- `ubx_port_free_data`: the port is cleared; the strings and arrays that it had are freed.
unfoldable pub port_free_data : Port → Port
port_free_data p = zero_port

-- `if(s) if((copy=strdup(s))==NULL) goto err`: whether to go on, and the allocations after it.
unfoldable pub strdup : Option String → (ℕ → Bool) → Bool × (ℕ → Bool)
strdup none alloc = (true, alloc)
strdup (some s) alloc = (alloc 0, λ n. alloc (suc n))

abbrev pub type_name : Option UbxType → Option String
type_name none = none
type_name (some t) = some t.name

-- `len==0 ? 1 : len`
abbrev pub at_least_one : ℕ → ℕ
at_least_one len = if len == 0 then 1 else len

-- `attrs |= flag` where there is a type.
abbrev pub with_attr : Option UbxType → ℕ → ℕ → ℕ
with_attr none flag attrs = attrs
with_attr (some t) flag attrs = bit_or attrs flag

-- The port that a clone without a failure makes.
abbrev pub cloned_port : String → Option String → Option UbxType → ℕ → Option UbxType → ℕ → ℕ → Port
cloned_port name doc in_type in_data_len out_type out_data_len state = record zero_port {
  name = some name;
  doc = doc;
  attrs = with_attr out_type port_dir_out (with_attr in_type port_dir_in 0);
  state = state;
  in_type_name = type_name in_type;
  out_type_name = type_name out_type;
  in_type = in_type;
  out_type = out_type;
  in_data_len = at_least_one in_data_len;
  out_data_len = at_least_one out_data_len;
}

pub clone_port_data :
    Port
    → Option String
    → Option String
    → Option UbxType
    → ℕ
    → Option UbxType
    → ℕ
    → ℕ
    → (ℕ → Bool)
    → ℤ × Port
unfolding port_free_data strdup
clone_port_data p none doc in_type in_data_len out_type out_data_len state alloc = (eoutofmem, p)
clone_port_data p (some name) doc in_type in_data_len out_type out_data_len state alloc =
    let a = strdup (some name) alloc in
    let b = strdup doc a.1 in
    let c = strdup (type_name in_type) b.1 in
    let d = strdup (type_name out_type) c.1 in
    if a.0 && b.0 && c.0 && d.0
    then (ok, cloned_port name doc in_type in_data_len out_type out_data_len state)
    else (eoutofmem, port_free_data p)

-- The cells of an array, none for NULL.
abbrev pub cells_or_none : {A : Type 0} → Option (List A) → List A
cells_or_none none = []
cells_or_none (some xs) = xs

-- An array without an end is a fault.
unfoldable pub get_num_ports : Block → Option ℕ
get_num_ports b = elim b.ports [
  | none ↦ some 0
  | some ps ↦
      if has_mark (is_end (λ p. p.name)) ps then some (count (is_end (λ p. p.name)) ps) else none
]

abbrev pub port_name : Port → Option String
port_name p = p.name

-- The type of a name, and whether to go on: a failure where there is a name that the node does not
-- have. `tables` has the types of the nodes by address; a name is a fault where the node is NULL.
unfoldable pub port_type :
    (T : Hash TypeRef)
    → (ℕ → TypeTable T)
    → Option ℕ
    → Option String
    → Option (Bool × Option UbxType)
port_type T tables ni none = some (true, none)
port_type T tables none (some name) = none
port_type T tables (some ni) (some name) = elim (type_get T name (tables ni)) [
  | none ↦ some (false, none)
  | some t ↦ some (true, some t)
]

-- The new cells from the outcome of the clone: a port or, after a failure, a cleared one.
add_cloned : (ℕ → Port) → List Port → ℤ × Port → ℤ × Option (List Port)
add_cloned fill ps (ret, p) =
    (ret, some (append_entry port_name fill zero_port (if is_ok ret then p else zero_port) ps))

-- `fill` gives the cells that `realloc` adds, `self` is the address of the block. The cell of the new
-- port gets its block, and then the clone clears it again.
pub port_add :
    (T : Hash TypeRef)
    → (ℕ → TypeTable T)
    → (ℕ → Port)
    → (ℕ → Bool)
    → ℕ
    → Option Block
    → Option String
    → Option String
    → Option String
    → ℕ
    → Option String
    → ℕ
    → ℕ
    → Option (ℤ × Option Block)
unfolding clone_port_data port_type add_cloned get_num_ports
port_add T tables fill alloc self none name doc in_name in_len out_name out_len state =
    some (failed, none)
port_add T tables fill alloc self (some b) name doc in_name in_len out_name out_len state =
    if is_none b.prototype then some (failed, some b) else (do
      in_type ← port_type T tables b.ni in_name
      if not in_type.0 then some (failed, some b) else (do
        out_type ← port_type T tables b.ni out_name
        if not out_type.0 then some (failed, some b) else (do
          i ← get_num_ports b
          let cell = record (fill i) { block = some self }
          let added = add_cloned fill (cells_or_none b.ports) (
              clone_port_data cell name doc in_type.1 in_len out_type.1 out_len state
                (λ k. alloc (suc k)))
          if not (alloc 0)
              then some (failed, some b)
              else some (added.0, some (record b { ports = added.1 })))))

-- A NULL block, a prototype, a block without ports and an unknown name are refused.
pub port_rm : Option Block → String → ℤ × Option Block
unfolding port_free_data
port_rm none name = (failed, none)
port_rm (some b) name =
    let removed = remove_entry port_name zero_port name (cells_or_none b.ports) in
    if is_none b.prototype then (failed, some b) else elim removed [
      | none ↦ (failed, some b)
      | some ps ↦ (ok, some (record b { ports = some ps }))
    ]

pub port_get : Option Block → Option String → Option Port
port_get none name = none
port_get (some b) none = none
port_get (some b) (some name) = find_entry port_name name (cells_or_none b.ports)
