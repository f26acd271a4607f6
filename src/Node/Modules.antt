-- ===== src/Node/Modules.antt =====
-- Loading and unloading of modules.
use collision_avoidance.Base.{
  ℕ, ◌+◌, ◌≡◌, refl, ◌∙◌, sym, ap, subst, Bool, String, none, some, ◌==◌, if◌then◌else◌, ◌⊎◌, inl,
  inr, Bool-cases, Option-cases, str_eq_refl, arith,
}
use collision_avoidance.Base.Int.{ℤ}
use collision_avoidance.Hash.{Hash, IsDistinct, find-add, del-add}
use collision_avoidance.Types.{ok, failed, is_ok}
use collision_avoidance.Registry.{TypeRef}
use collision_avoidance.Node.{
  Module, Node, Loader, Functions, opened, dlclose, init_module, link_module, module_load,
  module_unload,
}

module _ {B : Hash ℕ} {T : Hash TypeRef} {M : Hash Module} (loader : Loader)
    (run : Functions B T M) where
  -- The functions of modules load and unload no modules themselves.
  pub record IsTidy : Type 0 where
    pub init_modules : (f : ℕ) (n : Node B T M) → (run.init f n).1.modules ≡ n.modules
    pub init_refs : (f : ℕ) (n : Node B T M) (k : ℕ) → (run.init f n).1.refs k ≡ n.refs k
    pub cleanup_modules : (f : ℕ) (n : Node B T M) → (run.cleanup f n).modules ≡ n.modules
    pub cleanup_refs : (f : ℕ) (n : Node B T M) (k : ℕ) → (run.cleanup f n).refs k ≡ n.refs k

  -- The two outcomes of a load.
  abbrev pub Loaded : String → Node B T M → ℤ × Node B T M → Type 0
  Loaded lib n r =
      ((r.0 ≡ ok)
        × (M.find lib n.modules ≡ none)
        × (m : Module) × (m.id ≡ lib)
        × (loader.dlopen lib ≡ some m.handle)
        × (r.1.modules ≡ M.add lib m n.modules)
        × ((k : ℕ) → r.1.refs k ≡ (if m.handle == k then n.refs k + 1 else n.refs k)))
      ⊎ ((r.0 ≡ failed) × (r.1.modules ≡ n.modules) × ((k : ℕ) → r.1.refs k ≡ n.refs k))

  init_module-Loaded :
      (n : Node B T M) (m : Module) (ret : ℤ) (n1 : Node B T M)
      → M.find m.id n.modules ≡ none
      → loader.dlopen m.id ≡ some m.handle
      → n1.modules ≡ n.modules
      → ((k : ℕ) → n1.refs k ≡ (if m.handle == k then n.refs k + 1 else n.refs k))
      → Loaded m.id n (init_module loader run m (ret, n1))
  unfolding init_module
  init_module-Loaded n m ret n1 new here same counts = elim (Bool-cases (is_ok ret)) [
    | inl t ↦ rw t (inl (refl, new, m, refl, here, ap (M.add m.id m) same, counts))
    | inr f ↦ rw f (inr (refl, same, λ k. ground (arith, counts k)))
  ]

  link_module-Loaded :
      (lib : String) (h : ℕ) (n : Node B T M)
      → IsTidy
      → M.find lib n.modules ≡ none
      → loader.dlopen lib ≡ some h
      → Loaded lib n (link_module loader run lib h (opened B T M h n))
  unfolding link_module
  link_module-Loaded lib h n tidy new here =
      elim (Option-cases (loader.dlsym h "__ubx_initialize_module")) [
        | inl e ↦ rw (e, link_module) (inr (refl, refl, λ k. ground arith))
        | inr (f, e) ↦ elim (Option-cases (loader.dlsym h "__ubx_cleanup_module")) [
          | inl e' ↦ rw (e, e', link_module) (inr (refl, refl, λ k. ground arith))
          | inr (g, e') ↦
              rw (e, e', link_module)
                (init_module-Loaded n
                  (record {
                    id = lib;
                    handle = h;
                    init = f;
                    cleanup = g;
                    spdx_license_id = loader.dlsym h "__ubx_module_license_spdx";
                  })
                  (run.init f (opened B T M h n)).0 (run.init f (opened B T M h n)).1 new here
                  (tidy.init_modules f (opened B T M h n))
                  (λ k. tidy.init_refs f (opened B T M h n) k))
        ]
      ]

  -- Where the functions of the modules leave the modules alone, a load either returns 0: the library
  -- was not loaded, it is open once more, and its module stands in the table under its name; or it
  -- returns -1, and the table and the number of times that each library is open are as before.
  pub module_load_lem :
      (lib : String) (alloc : Bool) (n : Node B T M)
      → IsTidy
      → Loaded lib n (module_load loader run lib alloc n)
  unfolding module_load
  module_load_lem lib alloc n tidy = elim (Option-cases (M.find lib n.modules)) [
    | inr (m, e) ↦ rw (e, module_load) (inr (refl, refl, λ k. refl))
    | inl new ↦ elim (Option-cases (loader.dlopen lib)) [
      | inl e ↦ rw (new, e, module_load) (inr (refl, refl, λ k. refl))
      | inr (h, e) ↦ elim (Bool-cases alloc) [
        | inl t ↦
            let links : module_load loader run lib alloc n
                ≡ link_module loader run lib h (opened B T M h n) =
              rw (new, e, t, module_load) refl in
            subst (Loaded lib n) (sym links) (link_module-Loaded lib h n tidy new e)
        | inr f ↦ rw (new, e, f, module_load) (inr (refl, refl, λ k. refl))
      ]
    ]
  ]

  pub unload_found :
      (lib : String) (m : Module) (n : Node B T M)
      → M.find lib n.modules ≡ some m
      → module_unload loader run lib n
        ≡ dlclose B T M m.handle
            (run.cleanup m.cleanup (record n { modules = M.del lib n.modules }))
  unfolding module_unload
  unload_found lib m n e = rw (e, module_unload) refl

  -- Unloading a module right after a load of it that returned 0 restores the entries of the table
  -- and the number of times that each library is open.
  pub module_unload-load :
      (lib : String) (alloc : Bool) (n n' : Node B T M)
      → IsTidy
      → IsDistinct (M.entries n.modules)
      → module_load loader run lib alloc n ≡ (ok, n')
      → (M.entries (module_unload loader run lib n').modules ≡ M.entries n.modules)
        × ((k : ℕ) → (module_unload loader run lib n').refs k ≡ n.refs k)
  module_unload-load lib alloc n n' tidy distinct loads =
      undo (subst (Loaded lib n) loads (module_load_lem lib alloc n tidy))
    where
      undo :
          Loaded lib n (ok, n')
          → (M.entries (module_unload loader run lib n').modules ≡ M.entries n.modules)
            × ((k : ℕ) → (module_unload loader run lib n').refs k ≡ n.refs k)
      undo (inr (e, same, counts)) = cc
      undo (inl (e, new, m, id, here, listed, counts)) =
          let found : M.find lib n'.modules ≡ some m =
            ap (M.find lib) listed
            ∙ find-add M lib lib m n.modules distinct new
            ∙ rw (str_eq_refl lib) in
          let less : Node B T M = record n' { modules = M.del lib n'.modules } in
          let unloads = unload_found lib m n' found in
          (
            ap (λ x. M.entries x.modules) unloads
                ∙ ap M.entries (tidy.cleanup_modules m.cleanup less)
                ∙ ap (λ t. M.entries (M.del lib t)) listed
                ∙ del-add M lib m n.modules distinct new,
            λ k.
                ap (λ x. x.refs k) unloads
                ∙ ground (arith, tidy.cleanup_refs m.cleanup less k, counts k),
          )
