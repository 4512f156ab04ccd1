-- ===== src/Base/Totals.antt =====
-- Sums over lists.
use Prim.Native.Nat.{ℕ, zero, suc, ◌+◌, ◌≤◌, ◌<◌}
use mathlib.Core.Path.{◌≡◌}
use mathlib.Core.List.{List, [], ◌∷◌, ◌++◌}
use native.Mathlib.Omega.{arith}
use cpp_kv_store.Base.Lists.{length, get_or, set}

module _ {ℓ} {A : Type ℓ} where
  abbrev pub total : (A → ℕ) → List A → ℕ
  total f [] = 0
  total f (x ∷ xs) = f x + total f xs

  pub total-append : (f : A → ℕ) (xs ys : List A) → total f (xs ++ ys) ≡ total f xs + total f ys
  total-append f [] ys = omega arith
  total-append f (x ∷ xs) ys = omega (arith, total-append f xs ys)

  -- One element is replaced by another.
  pub total-set :
      (f : A → ℕ) (xs : List A) (i : ℕ) (y d : A)
      → i < length xs
      → total f (set xs i y) + f (get_or xs i d) ≡ total f xs + f y
  total-set f [] i y d h = absurd (omega arith)
  total-set f (x ∷ xs) zero y d h = omega arith
  total-set f (x ∷ xs) (suc i) y d h = omega (arith, total-set f xs i y d (omega arith))

  pub le-total :
      (f : A → ℕ) (xs : List A) (i : ℕ) (d : A) → i < length xs → f (get_or xs i d) ≤ total f xs
  le-total f [] i d h = absurd (omega arith)
  le-total f (x ∷ xs) zero d h = omega arith
  le-total f (x ∷ xs) (suc i) d h = omega (arith, le-total f xs i d (omega arith))

  -- A sum that vanishes at every index vanishes.
  pub total-zero :
      (f : A → ℕ) (xs : List A) (d : A)
      → ((i : ℕ) → i < length xs → f (get_or xs i d) ≡ 0)
      → total f xs ≡ 0
  total-zero f [] d all = omega arith
  total-zero f (x ∷ xs) d all =
      omega (arith, all 0 (omega arith), total-zero f xs d (λ i h. all (suc i) (omega arith)))

  pub total_mono : (f g : A → ℕ) (xs : List A) → ((x : A) → f x ≤ g x) → total f xs ≤ total g xs
  total_mono f g [] h = omega arith
  total_mono f g (x ∷ xs) h = omega (arith, h x, total_mono f g xs h)

  pub total_one : (xs : List A) → total (λ x. 1) xs ≡ length xs
  total_one [] = omega arith
  total_one (x ∷ xs) = omega (arith, total_one xs)
