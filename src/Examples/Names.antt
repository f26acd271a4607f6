-- ===== src/Examples/Names.antt =====
-- Registration, at a table of two types.
use collision_avoidance.Base.{
  ℕ, ◌≡◌, refl, Bool, true, none, some, String, List, [], ◌∷◌, str_eq, ◌==◌, if◌then◌else◌, arith,
}
use collision_avoidance.Hash.{assoc, lookup}
use collision_avoidance.Types.{
  UbxType, Block, Memory, update, block_type_computation, preinit, failed, ok,
}
use collision_avoidance.Registry.{TypeRef, TypeTable, type_register, type_unregister, type_get}
use collision_avoidance.Registry.TypeLaws.{
  IsValid, type_register-IsValid, type_get-register, type_unregister-register,
}
use collision_avoidance.Registry.Resolve.{
  resolve_types, resolve_block_ports, resolve_block_configs, resolve_ports, resolve_port,
  resolve_in, resolve_out, resolve_name, block_register, block_get, block_unregister,
}
use collision_avoidance.Registry.Resolve.Typing.{IsResolved, resolve_types-IsResolved}
use collision_avoidance.Registry.Resolve.Register.{CanRegister, block_get-register}
use collision_avoidance.Examples.{double, port_of, block_of}

abbrev md5 : String → List ℕ
md5 name = 1 ∷ []

abbrev float : UbxType
float = record { addr = 8; name = "float"; type_class = 1; size = 4 }

-- The type `double` alone.
abbrev table : TypeTable (assoc TypeRef)
table = record {
  types = ("double", record { type_ptr = double; seqid = 0; hash = 1 ∷ [] }) ∷ [];
  cur_seqid = 1;
}

table-IsValid : IsValid (assoc TypeRef) table
table-IsValid = record {
  distinct = (tt, tt);
  named = (refl, tt);
  ordered = (omega arith, omega arith);
}

unknown : type_get (assoc TypeRef) "float" table ≡ none
unfolding type_get lookup str_eq
unknown = refl

type_register-IsValid_example :
    IsValid (assoc TypeRef) (type_register (assoc TypeRef) md5 (some float) true table).1
type_register-IsValid_example =
    type_register-IsValid (assoc TypeRef) md5 (some float) true table (omega arith) table-IsValid

type_get-register_example :
    (n' : TypeTable (assoc TypeRef)) × (type_register (assoc TypeRef) md5 (some float) true table
      ≡ (ok, n'))
    × ((j : String)
        → type_get (assoc TypeRef) j n'
          ≡ (if str_eq "float" j then some float else type_get (assoc TypeRef) j table))
    × ((addr type_class size : ℕ) (allocated : Bool)
        → type_register
            (assoc TypeRef)
            md5
            (some (record float { addr = addr; type_class = type_class; size = size }))
            allocated
            n'
          ≡ (failed, n'))
type_get-register_example = type_get-register (assoc TypeRef) md5 float table table-IsValid unknown

type_unregister-register_example :
    (n' n'' : TypeTable (assoc TypeRef)) × (type_register
        (assoc TypeRef)
        md5
        (some float)
        true
        table
      ≡ (ok, n'))
    × (type_unregister (assoc TypeRef) "float" n' ≡ (some float, n''))
    × (n''.types ≡ table.types)
type_unregister-register_example =
    type_unregister-register (assoc TypeRef) md5 float table table-IsValid unknown

-- A computation with one port of type double.
abbrev block : Block
block = record (block_of block_type_computation preinit none) {
  ports = some (port_of 1 none none ∷ []);
}

resolved : resolve_types (assoc TypeRef) table block ≡ some (ok, block)
unfolding resolve_types resolve_block_ports resolve_block_configs resolve_ports resolve_port
    resolve_in resolve_out resolve_name type_get lookup str_eq
resolved = refl

resolve_types-IsResolved_example : IsResolved (assoc TypeRef) table block
resolve_types-IsResolved_example =
    resolve_types-IsResolved (assoc TypeRef) table block block resolved

-- The block at address 10, in the node at address 1.
abbrev shop : Memory
shop = record {
  ports = λ a. none;
  blocks = λ a. if a == 10 then some block else none;
  alloc = λ n. true;
}

CanRegister-shop :
    CanRegister (assoc ℕ) (assoc TypeRef) table 1 10 shop [] block (record block { ni = some 1 })
unfolding lookup resolve_types resolve_block_ports resolve_block_configs resolve_ports resolve_port
    resolve_in resolve_out resolve_name type_get str_eq
CanRegister-shop = record {
  at_a = refl;
  free = refl;
  kind = refl;
  new_name = refl;
  resolves = refl;
}

block_get-register_example :
    (m' : Memory) × (blocks' : List (String × ℕ)) × (block_register
        (assoc ℕ)
        (assoc TypeRef)
        table
        1
        10
        shop
        []
      ≡ some (ok, m', blocks'))
    × ((name : String)
        → block_get (assoc ℕ) blocks' name
          ≡ (if str_eq "block" name then some 10 else block_get (assoc ℕ) [] name))
    × (m'.blocks ≡ update shop.blocks 10 (record block { ni = some 1 }))
    × IsResolved (assoc TypeRef) table (record block { ni = some 1 })
    × ((block_unregister (assoc ℕ) blocks' "block").0 ≡ some 10)
    × ((block_unregister (assoc ℕ) blocks' "block").1 ≡ [])
block_get-register_example =
    block_get-register (assoc ℕ) (assoc TypeRef) table 1 10 shop [] block
      (record block { ni = some 1 }) tt CanRegister-shop
