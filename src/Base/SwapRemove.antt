-- ===== src/Base/SwapRemove.antt =====
-- Removal from an unordered array: the last element takes the place of the removed one.
use Prim.Native.Nat.{ℕ, zero, suc, ◌≤◌, ◌<◌}
use mathlib.Core.Path.{◌≡◌, refl, ap, ap₂}
use mathlib.Core.List.{List, [], ◌∷◌, Perm}
use mathlib.Core.List.Perm
use mathlib.Core.Option.{some}
use native.Mathlib.Omega.{arith}
use collision_avoidance.Base.Lists.{get_elem?, get_or, set, take, length}

module _ {ℓ} {A : Type ℓ} where
  abbrev pub last_of : A → List A → A
  last_of x [] = x
  last_of x (y ∷ ys) = last_of y ys

  abbrev pub init_of : A → List A → List A
  init_of x [] = []
  init_of x (y ∷ ys) = x ∷ init_of y ys

  abbrev pub last_first : List A → List A
  last_first [] = []
  last_first (x ∷ xs) = last_of x xs ∷ init_of x xs

  abbrev pub swap_remove : List A → ℕ → List A
  swap_remove [] i = []
  swap_remove (x ∷ xs) zero = last_first xs
  swap_remove (x ∷ xs) (suc i) = x ∷ swap_remove xs i

  init_of-perm : (x : A) (xs : List A) → Perm (last_of x xs ∷ init_of x xs) (x ∷ xs)
  init_of-perm x [] = Perm.refl (x ∷ [])
  init_of-perm x (y ∷ ys) =
      Perm.trans (Perm.swap x (last_of y ys) (init_of y ys)) (Perm.cons x (init_of-perm y ys))

  last_first-perm : (xs : List A) → Perm (last_first xs) xs
  last_first-perm [] = Perm.refl []
  last_first-perm (x ∷ xs) = init_of-perm x xs

  -- Nothing but the element at `i` is lost.
  pub swap_remove-perm :
      (xs : List A) (i : ℕ) (x : A) → get_elem? xs i ≡ some x → Perm (x ∷ swap_remove xs i) xs
  swap_remove-perm [] i x h = cc
  swap_remove-perm (y ∷ ys) zero x h = Perm.cons' (ground arith) (last_first-perm ys)
  swap_remove-perm (y ∷ ys) (suc i) x h =
      Perm.trans (Perm.swap y x (swap_remove ys i)) (Perm.cons y (swap_remove-perm ys i x h))

  last_of-get_or : (x : A) (xs : List A) (d : A) → last_of x xs ≡ get_or (x ∷ xs) (length xs) d
  last_of-get_or x [] d = refl
  last_of-get_or x (y ∷ ys) d = last_of-get_or y ys d

  init_of-take : (x : A) (xs : List A) → init_of x xs ≡ take (length xs) (x ∷ xs)
  init_of-take x [] = refl
  init_of-take x (y ∷ ys) = ap (λ l. x ∷ l) (init_of-take y ys)

  -- As an array does it: overwrite at `i` by the last, then forget the last.
  swap_remove-take_suc :
      (x : A) (xs : List A) (i : ℕ) (d : A)
      → i ≤ length xs
      → swap_remove (x ∷ xs) i ≡ take (length xs) (set (x ∷ xs) i (get_or (x ∷ xs) (length xs) d))
  swap_remove-take_suc x [] zero d h = refl
  swap_remove-take_suc x (y ∷ ys) zero d h = ap₂ ◌∷◌ (last_of-get_or y ys d) (init_of-take y ys)
  swap_remove-take_suc x [] (suc i) d h = absurd (omega arith)
  swap_remove-take_suc x (y ∷ ys) (suc i) d h =
      ap (λ l. x ∷ l) (swap_remove-take_suc y ys i d (omega arith))

  pub swap_remove-take_of :
      (n : ℕ) (xs : List A) (i : ℕ) (d : A)
      → length xs ≡ suc n
      → i < suc n
      → swap_remove xs i ≡ take n (set xs i (get_or xs n d))
  swap_remove-take_of n [] i d e h = absurd (omega arith)
  swap_remove-take_of n (x ∷ xs) i d e h =
      let k : n ≡ length xs = omega arith in rw k (swap_remove-take_suc x xs i d (omega arith))

  -- The last one just goes.
  pub swap_remove_last : (xs : List A) (i : ℕ) → suc i ≡ length xs → swap_remove xs i ≡ take i xs
  swap_remove_last [] i h = absurd (omega arith)
  swap_remove_last (x ∷ []) zero h = refl
  swap_remove_last (x ∷ y ∷ ys) zero h = absurd (omega arith)
  swap_remove_last (x ∷ xs) (suc i) h = ap (λ l. x ∷ l) (swap_remove_last xs i (omega arith))
