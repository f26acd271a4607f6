-- ===== src/Types.antt =====
-- The structs and constants of src/ubx_types.h. A pointer is its address, a number; NULL is `none`
-- where the code allows it. A type descriptor is a value with its address: the code never changes
-- one, except for the hash that `ubx_type_register` writes (see Registry), and compares them by
-- address. The function pointers of a block are addresses too; what the functions do is a
-- parameter of the definitions that call them. The anonymous union of `ubx_block` (the hooks and
-- statistics of a computation over those of an interaction) is a record of all its fields: each is
-- used for blocks of its own kind only.
use collision_avoidance.Base.{
  ℕ, ◌+◌, ◌%◌, ◌^◌, Bool, true, false, not, String, List, Option, some, ◌==◌, if◌then◌else◌,
}
use collision_avoidance.Base.Int.{ℤ, pos, negsuc}
use Prim.Native.Nat.{bit_and}

-- `ubx_type_t`
pub record UbxType : Type 0 where
  pub addr : ℕ
  pub name : String
  pub type_class : ℕ
  pub size : ℕ

abbrev pub type_class_basic : ℕ
type_class_basic = 1

abbrev pub type_class_struct : ℕ
type_class_struct = 2

abbrev pub type_class_custom : ℕ
type_class_custom = 3

-- `ubx_data_t`; the buffer that `data` points to is the list of its bytes.
pub record UbxData : Type 0 where
  pub type : Option UbxType
  pub len : ℕ
  pub buffer : Option (List ℕ)

abbrev pub port_dir_in : ℕ
port_dir_in = 1

abbrev pub port_dir_out : ℕ
port_dir_out = 2

-- `PORT_DIR_IN & PORT_DIR_OUT`, as the header has it.
abbrev pub port_dir_inout : ℕ
port_dir_inout = bit_and port_dir_in port_dir_out

-- `attrs & flag`, as a condition.
abbrev pub has_attr : ℕ → ℕ → Bool
has_attr attrs flag = not (bit_and attrs flag == 0)

-- A NULL-terminated array of pointers to blocks, or no array: `struct ubx_block**`.
abbrev pub BlockArray : Type 0
BlockArray = Option (List (Option ℕ))

-- `ubx_port_t`; `block` is the address of the block that the port belongs to.
pub record Port : Type 0 where
  pub name : Option String
  pub doc : Option String
  pub attrs : ℕ
  pub state : ℕ
  pub in_type_name : Option String
  pub out_type_name : Option String
  pub in_type : Option UbxType
  pub out_type : Option UbxType
  pub in_data_len : ℕ
  pub out_data_len : ℕ
  pub in_interaction : BlockArray
  pub out_interaction : BlockArray
  pub stat_writes : ℕ
  pub stat_reades : ℕ
  pub block : Option ℕ

-- `ubx_config_t`
pub record Config : Type 0 where
  pub name : Option String
  pub doc : Option String
  pub type_name : Option String
  pub attrs : ℕ
  pub value : UbxData

abbrev pub block_type_computation : ℕ
block_type_computation = 1

abbrev pub block_type_interaction : ℕ
block_type_interaction = 2

-- `BLOCK_STATE_*`, the values that the code gives `block_state`.
pub data BlockState : Type 0 where
  preinit inactive active : BlockState

abbrev pub is_preinit : BlockState → Bool
is_preinit BlockState.preinit = true
is_preinit BlockState.inactive = false
is_preinit BlockState.active = false

abbrev pub is_inactive : BlockState → Bool
is_inactive BlockState.preinit = false
is_inactive BlockState.inactive = true
is_inactive BlockState.active = false

abbrev pub is_active : BlockState → Bool
is_active BlockState.preinit = false
is_active BlockState.inactive = false
is_active BlockState.active = true

-- `ubx_block_t`; `ni` is the address of its node.
pub record Block : Type 0 where
  pub name : String
  pub meta_data : String
  pub type : ℕ
  pub ports : Option (List Port)
  pub configs : Option (List Config)
  pub block_state : BlockState
  pub prototype : Option String
  pub ni : Option ℕ
  pub init : Option ℕ
  pub start : Option ℕ
  pub stop : Option ℕ
  pub cleanup : Option ℕ
  pub step : Option ℕ
  pub stat_num_steps : ℕ
  pub read : Option ℕ
  pub write : Option ℕ
  pub stat_num_reads : ℕ
  pub stat_num_writes : ℕ
  pub private_data : ℕ

-- The memory that the operations on ports and blocks share: the ports and blocks by address, and
-- the outcomes of the allocations to come (`alloc 0` is whether the next one succeeds).
pub record Memory : Type 0 where
  pub ports : ℕ → Option Port
  pub blocks : ℕ → Option Block
  pub alloc : ℕ → Bool

-- Change of one address.
abbrev pub update : {A : Type 0} → (ℕ → Option A) → ℕ → A → ℕ → Option A
update f p v q = if p == q then some v else f q

-- `unsigned long` counters wrap.
abbrev pub increment : ℕ → ℕ
increment n = (n + 1) % 2 ^ 64

-- Return values: 0, -1, and the named errors.
abbrev pub ok : ℤ
ok = pos 0

abbrev pub failed : ℤ
failed = negsuc 0

abbrev pub eport_invalid : ℤ
eport_invalid = negsuc 2

abbrev pub eport_invalid_type : ℤ
eport_invalid_type = negsuc 3

abbrev pub enosuchblock : ℤ
enosuchblock = negsuc 5

abbrev pub eoutofmem : ℤ
eoutofmem = negsuc 7

-- `ret == 0`
abbrev pub is_ok : ℤ → Bool
is_ok (pos n) = n == 0
is_ok (negsuc n) = false
