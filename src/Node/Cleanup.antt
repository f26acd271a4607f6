-- ===== src/Node/Cleanup.antt =====
-- The end of a node: no instance and no module is left.
use collision_avoidance.Base.{
  ℕ, ◌≡◌, refl, ◌∙◌, sym, ap, subst, Bool, String, Option, none, some, List, [], ◌∷◌, ◌>>=◌,
  str_eq_refl, ◌⊎◌, inl, inr,
}
use collision_avoidance.Hash.{Hash, IsDistinct, Absent, lookup, without}
use collision_avoidance.Hooks.{Hooks, IsQuiet}
use collision_avoidance.Lifecycle.Tags.{KeepsTags}
use collision_avoidance.Registry.{TypeRef}
use collision_avoidance.Node.{
  Module, Node, Loader, Functions, dlclose, unload_all, module_unload, node_cleanup,
}
use collision_avoidance.Node.Modules.{IsTidy, unload_found}
use collision_avoidance.Node.Quiesce.{Listed, Listed-same, stop_all_lem, cleanup_all_lem}
use collision_avoidance.Node.Sweep.{kept, drop_instance, rm_all_lem, entries-Found, kept-lookup}

-- Each module stands under its own name.
abbrev pub OwnNames : List (String × Module) → Type 0
OwnNames [] = Unit {0}
OwnNames ((k, m) ∷ l) = (m.id ≡ k) × OwnNames l

without-Absent : (k : String) (l : List (String × Module)) → Absent k l → without k l ≡ l
unfolding without
without-Absent k [] n = refl
without-Absent k ((j, m) ∷ l) (d, n) = rw d (ap (λ r. (j, m) ∷ r) (without-Absent k l n))

without_first :
    (i k : String) (m : Module) (l : List (String × Module))
    → i ≡ k
    → Absent k l
    → without i ((k, m) ∷ l) ≡ l
unfolding without
without_first i k m l e n =
    ap (λ x. without x ((k, m) ∷ l)) e ∙ rw (str_eq_refl k) (without-Absent k l n)

module _ {B : Hash ℕ} {T : Hash TypeRef} {M : Hash Module} (loader : Loader)
    (run : Functions B T M) where
  -- The cleanup functions of modules register no block: a name is found as before, or no longer.
  abbrev pub OnlyRemoves : Type 0
  OnlyRemoves =
      (f : ℕ) (n : Node B T M) (j : String)
      → (B.find j (run.cleanup f n).blocks ≡ B.find j n.blocks)
        ⊎ (B.find j (run.cleanup f n).blocks ≡ none)

  unload_first :
      (n : Node B T M) (k : String) (m : Module) (l : List (String × Module))
      → IsTidy loader run
      → IsDistinct (M.entries n.modules)
      → M.entries n.modules ≡ (k, m) ∷ l
      → m.id ≡ k
      → (M.entries (module_unload loader run m.id n).modules ≡ l)
        × (module_unload loader run m.id n
            ≡ dlclose B T M m.handle
                (run.cleanup m.cleanup (record n { modules = M.del m.id n.modules })))
  unfolding lookup without
  unload_first n k m l tidy d at_l id =
      let d' : IsDistinct ((k, m) ∷ l) = subst IsDistinct at_l d in
      let found : M.find m.id n.modules ≡ some m =
        M.find-entries m.id n.modules d ∙ ap (lookup m.id) at_l ∙ rw id (rw (str_eq_refl k) refl) in
      let less : Node B T M = record n { modules = M.del m.id n.modules } in
      let unloads = unload_found loader run m.id m n found in
      (
        ap (λ x. M.entries x.modules) unloads
            ∙ ap M.entries (tidy.cleanup_modules m.cleanup less)
            ∙ M.entries-del m.id n.modules d
            ∙ ap (without m.id) at_l
            ∙ without_first m.id k m l id d'.0,
        unloads,
      )

  unload_all_lem :
      (l : List (String × Module)) (n : Node B T M)
      → IsTidy loader run
      → OnlyRemoves
      → IsDistinct (M.entries n.modules)
      → M.entries n.modules ≡ l
      → OwnNames l
      → (M.entries (unload_all loader run l n).modules ≡ [])
        × ((j : String)
            → (B.find j (unload_all loader run l n).blocks ≡ B.find j n.blocks)
              ⊎ (B.find j (unload_all loader run l n).blocks ≡ none))
  unfolding unload_all
  unload_all_lem [] n tidy only d e own = (e, λ j. inl refl)
  unload_all_lem ((k, m) ∷ l) n tidy only d e (id, own) =
      let (rest, unloads) = unload_first n k m l tidy d e id in
      let n1 = module_unload loader run m.id n in
      let d' : IsDistinct ((k, m) ∷ l) = subst IsDistinct e d in
      let (empty, later) =
        unload_all_lem l n1 tidy only (subst IsDistinct (sym rest) d'.1) rest own in
      (empty, λ j. both j (later j) (first j unloads))
    where
      first :
          (j : String)
          → module_unload loader run m.id n
            ≡ dlclose B T M m.handle
                (run.cleanup m.cleanup (record n { modules = M.del m.id n.modules }))
          → (B.find j (module_unload loader run m.id n).blocks ≡ B.find j n.blocks)
            ⊎ (B.find j (module_unload loader run m.id n).blocks ≡ none)
      first j unloads = rw unloads (only m.cleanup (record n { modules = M.del m.id n.modules }) j)

      both :
          (j : String)
          → (B.find j (unload_all loader run l (module_unload loader run m.id n)).blocks
              ≡ B.find j (module_unload loader run m.id n).blocks)
            ⊎ (B.find j (unload_all loader run l (module_unload loader run m.id n)).blocks ≡ none)
          → (B.find j (module_unload loader run m.id n).blocks ≡ B.find j n.blocks)
            ⊎ (B.find j (module_unload loader run m.id n).blocks ≡ none)
          → (B.find j (unload_all loader run l (module_unload loader run m.id n)).blocks
              ≡ B.find j n.blocks)
            ⊎ (B.find j (unload_all loader run l (module_unload loader run m.id n)).blocks ≡ none)
      both j (inr gone) h = inr gone
      both j (inl same) (inl same') = inl (same ∙ same')
      both j (inl same) (inr gone) = inr (same ∙ gone)

-- What the cleanup of a node needs: hooks that keep states, names and prototypes, functions of
-- modules that load none and register no block, and tables in which no name stands twice, every
-- module stands under its name, and every name of a block has a live block of that name; `inst`
-- says which blocks are instances.
pub record CanCleanUp {B : Hash ℕ} {T : Hash TypeRef} {M : Hash Module} (hooks : Hooks)
    (loader : Loader) (run : Functions B T M) (inst : ℕ → Bool) (n : Node B T M) : Type 0 where
  pub quiet : IsQuiet hooks
  pub keeps : KeepsTags hooks
  pub tidy : IsTidy loader run
  pub only : OnlyRemoves loader run
  pub distinct_blocks : IsDistinct (B.entries n.blocks)
  pub listed : Listed inst (B.entries n.blocks) n.memory
  pub distinct_modules : IsDistinct (M.entries n.modules)
  pub own : OwnNames (M.entries n.modules)

-- `ubx_node_cleanup` then terminates without a fault, and leaves no module and no instance: each
-- name of a block is free, or it is that of a prototype that the node had under it before.
pub node_cleanup_lem :
    {B : Hash ℕ} {T : Hash TypeRef} {M : Hash Module} (hooks : Hooks) (loader : Loader)
    (run : Functions B T M) (owned : ℕ → ℕ → Bool) (inst : ℕ → Bool) (n : Node B T M)
    → CanCleanUp hooks loader run inst n
    → (n' : Node B T M) × (node_cleanup hooks loader run owned n ≡ some n')
      × (n'.name ≡ none)
      × (M.entries n'.modules ≡ [])
      × ((j : String)
          → (B.find j n'.blocks ≡ drop_instance inst (B.find j n.blocks))
            ⊎ (B.find j n'.blocks ≡ none))
unfolding node_cleanup
node_cleanup_lem {B} {T} {M} hooks loader run owned inst n can =
    let l = B.entries n.blocks in
    let (m1, stops, tags1, idle, keep1) =
      stop_all_lem hooks can.quiet can.keeps inst l n.memory can.listed in
    let listed1 = Listed-same inst l n.memory m1 tags1 can.listed in
    let (m2, cleans, tags2, done, keep2) =
      cleanup_all_lem hooks can.quiet can.keeps inst l m1 listed1 idle in
    let (m3, blocks, rms, found) =
      rm_all_lem B owned inst l m2 n.blocks can.distinct_blocks can.distinct_blocks
        (Listed-same inst l m1 m2 tags2 listed1) done
        (entries-Found B owned inst l n.blocks can.distinct_blocks
          (λ j a e. B.find-entries j n.blocks can.distinct_blocks ∙ e)) in
    let swept : Node B T M = record n { memory = m3; blocks = blocks } in
    let (empty, later) =
      unload_all_lem loader run (M.entries n.modules) swept can.tidy can.only can.distinct_modules
        refl can.own in
    let left : (j : String) → B.find j blocks ≡ drop_instance inst (B.find j n.blocks) = λ j.
      let e = B.find-entries j n.blocks can.distinct_blocks in
      found j
      ∙ ap (kept inst l j) e
      ∙ kept-lookup inst l j can.distinct_blocks
      ∙ ap (drop_instance inst) (sym e) in
    (
      record (unload_all loader run (M.entries n.modules) swept) { name = none },
      rw (stops, ◌>>=◌) (rw (cleans, ◌>>=◌) (rw (rms, ◌>>=◌) refl)),
      refl,
      empty,
      λ j. through j (left j) (later j),
    )
  where
    through :
        {o o' o'' : Option ℕ} (j : String)
        → o' ≡ o
        → (o'' ≡ o') ⊎ (o'' ≡ none)
        → (o'' ≡ o) ⊎ (o'' ≡ none)
    through j e (inl same) = inl (same ∙ e)
    through j e (inr gone) = inr gone
