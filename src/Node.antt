-- ===== src/Node.antt =====
-- The node and its modules (src/ubx.c: `ubx_module_load` to `ubx_node_cleanup`, and the counts). The
-- dynamic loader and the functions of a module are parameters. Each HASH_ITER visits the entries
-- that the table has when the loop starts: hooks and modules do not change the tables under it.
pub mod Modules
pub mod Quiesce
pub mod Sweep
pub mod Cleanup
use collision_avoidance.Base.{
  ℕ, ◌+◌, ◌-◌, Bool, true, false, ◌&&◌, not, String, Option, none, some, is_none, List, [], ◌∷◌,
  ◌==◌, if◌then◌else◌, ◌>>=◌,
}
use collision_avoidance.Base.Int.{ℤ, pos}
use collision_avoidance.Hash.{Hash}
use collision_avoidance.Types.{Block, Memory, is_active, is_inactive, is_preinit, ok, failed, is_ok}
use collision_avoidance.Hooks.{Hooks}
use collision_avoidance.Lifecycle.{block_stop, block_cleanup}
use collision_avoidance.Registry.{TypeRef, TypeTable}
use collision_avoidance.Removal.{block_rm}

-- `ubx_module_t`; a handle and a function are numbers.
pub record Module : Type 0 where
  pub id : String
  pub handle : ℕ
  pub init : ℕ
  pub cleanup : ℕ
  pub spdx_license_id : Option ℕ

-- `ubx_node_info_t`, with the memory that its blocks live in, and how often each library is open.
pub record Node (B : Hash ℕ) (T : Hash TypeRef) (M : Hash Module) : Type 0 where
  pub name : Option String
  pub memory : Memory
  pub blocks : B.Table
  pub types : TypeTable T
  pub modules : M.Table
  pub refs : ℕ → ℕ

-- dlopen (the handle of a library) and dlsym (the address of a symbol; none is an error of dlerror).
pub record Loader : Type 0 where
  pub dlopen : String → Option ℕ
  pub dlsym : ℕ → String → Option ℕ

module _ (B : Hash ℕ) (T : Hash TypeRef) (M : Hash Module) where
  -- What the functions of the modules do to the node.
  pub record Functions : Type 0 where
    pub init : ℕ → Node B T M → ℤ × Node B T M
    pub cleanup : ℕ → Node B T M → Node B T M

  abbrev pub opened : ℕ → Node B T M → Node B T M
  opened h n = record n { refs = λ k. if h == k then n.refs k + 1 else n.refs k }

  abbrev pub dlclose : ℕ → Node B T M → Node B T M
  dlclose h n = record n { refs = λ k. if h == k then n.refs k - 1 else n.refs k }

module _ {B : Hash ℕ} {T : Hash TypeRef} {M : Hash Module} (loader : Loader)
    (run : Functions B T M) where
  -- From the call of the module's init on: on a failure the library is closed again.
  init_module : Module → ℤ × Node B T M → ℤ × Node B T M
  init_module m (ret, n) =
      if is_ok ret
      then (ok, record n { modules = M.add m.id m n.modules })
      else (failed, dlclose B T M m.handle n)

  -- The lookup of the two functions, and of the licence, which may be missing.
  link_module : String → ℕ → Node B T M → ℤ × Node B T M
  unfolding init_module
  link_module lib h n = elim (loader.dlsym h "__ubx_initialize_module") [
    | none ↦ (failed, dlclose B T M h n)
    | some f ↦ elim (loader.dlsym h "__ubx_cleanup_module") [
      | none ↦ (failed, dlclose B T M h n)
      | some g ↦
          init_module
            (record {
              id = lib;
              handle = h;
              init = f;
              cleanup = g;
              spdx_license_id = loader.dlsym h "__ubx_module_license_spdx";
            })
            (run.init f n)
    ]
  ]

  -- `alloc` is whether the module data and its name could be allocated.
  unfoldable pub module_load : String → Bool → Node B T M → ℤ × Node B T M
  unfolding link_module
  module_load lib alloc n = elim (M.find lib n.modules) [
    | some m ↦ (failed, n)
    | none ↦ elim (loader.dlopen lib) [
      | none ↦ (failed, n)
      | some h ↦ if alloc then link_module lib h (opened B T M h n) else (failed, n)
    ]
  ]

  pub module_unload : String → Node B T M → Node B T M
  module_unload lib n = elim (M.find lib n.modules) [
    | none ↦ n
    | some m ↦
        dlclose B T M m.handle (run.cleanup m.cleanup (record n { modules = M.del lib n.modules }))
  ]

  -- The last loop of the cleanup.
  pub unload_all : List (String × Module) → Node B T M → Node B T M
  unfolding module_unload
  unload_all [] n = n
  unload_all ((k, m) ∷ l) n = unload_all l (module_unload m.id n)

-- `ubx_node_init`: an empty node; `alloc` is whether the name could be copied.
unfoldable pub node_init :
    (B : Hash ℕ) (T : Hash TypeRef) (M : Hash Module)
    → Option String
    → Bool
    → Node B T M
    → ℤ × Node B T M
node_init B T M none alloc n = (failed, n)
node_init B T M (some name) alloc n =
    if alloc
    then (
      ok,
      record n {
        name = some name;
        blocks = B.empty;
        types = record { types = T.empty; cur_seqid = 0 };
        modules = M.empty;
      },
    )
    else (failed, record n { name = none })

module _ (hooks : Hooks) where
  -- The three loops over the blocks. The return values of the calls are only reported.
  pub stop_all : List (String × ℕ) → Memory → Option Memory
  stop_all [] m = some m
  stop_all ((k, a) ∷ l) m = do
    b ← m.blocks a
    elim (is_active b.block_state) [
      | false ↦ stop_all l m
      | true ↦ do r ← block_stop hooks (some a) m; stop_all l r.1
    ]

  pub cleanup_all : List (String × ℕ) → Memory → Option Memory
  cleanup_all [] m = some m
  cleanup_all ((k, a) ∷ l) m = do
    b ← m.blocks a
    elim (is_inactive b.block_state) [
      | false ↦ cleanup_all l m
      | true ↦ do r ← block_cleanup hooks (some a) m; cleanup_all l r.1
    ]

pub rm_all :
    (B : Hash ℕ) → (ℕ → ℕ → Bool) → List (String × ℕ) → Memory → B.Table → Option (Memory × B.Table)
rm_all B owned [] m blocks = some (m, blocks)
rm_all B owned ((k, a) ∷ l) m blocks = do
  b ← m.blocks a
  elim (is_preinit b.block_state && not (is_none b.prototype)) [
    | false ↦ rm_all B owned l m blocks
    | true ↦ do r ← block_rm B owned m blocks b.name; rm_all B owned l r.1 r.2
  ]

module _ {B : Hash ℕ} {T : Hash TypeRef} {M : Hash Module} (hooks : Hooks) (loader : Loader)
    (run : Functions B T M) where
  -- `owned` says which addresses lie in the array of ports of a block.
  pub node_cleanup : (ℕ → ℕ → Bool) → Node B T M → Option (Node B T M)
  unfolding stop_all cleanup_all rm_all unload_all
  node_cleanup owned n = do
    m1 ← stop_all hooks (B.entries n.blocks) n.memory
    m2 ← cleanup_all hooks (B.entries n.blocks) m1
    r ← rm_all B owned (B.entries n.blocks) m2 n.blocks
    let n' = unload_all loader run (M.entries n.modules) (record n { memory = r.0; blocks = r.1 })
    some (record n' { name = none })

unfoldable pub num_blocks : {B : Hash ℕ} {T : Hash TypeRef} {M : Hash Module} → Node B T M → ℕ
num_blocks {B} n = B.size n.blocks

unfoldable pub num_types : {B : Hash ℕ} {T : Hash TypeRef} {M : Hash Module} → Node B T M → ℕ
num_types {T} n = T.size n.types.types

unfoldable pub num_modules : {B : Hash ℕ} {T : Hash TypeRef} {M : Hash Module} → Node B T M → ℕ
num_modules {M} n = M.size n.modules
