-- ===== src/Prelude/Pigeonhole.antt =====
-- Pigeonholes: a list of distinct numbers below a bound is no longer than the bound.
use Prim.Native.Nat.{ℕ, zero, suc, ◌≤◌, ◌<◌}
use mathlib.Core.Path.{◌≡◌, refl}
use mathlib.Core.Logic.{◌≢◌}
use mathlib.Core.List.{List, [], ◌∷◌}
use native.Mathlib.Omega.{arith}
use play_apue.Prelude.Tests.{◌==◌, if◌then◌else◌}
use play_apue.Prelude.Lists.{length}
use play_apue.Prelude.ByteStrings.{All}

abbrev pub Distinct : List ℕ → Type 0
Distinct [] = Unit
Distinct (x ∷ xs) = All (λ y. y ≢ x) xs × Distinct xs

remove : ℕ → List ℕ → List ℕ
remove k [] = []
remove k (x ∷ xs) = if x == k then remove k xs else x ∷ remove k xs

remove_absent : (k : ℕ) (xs : List ℕ) → All (λ y. y ≢ k) xs → length (remove k xs) ≡ length xs
unfolding remove
remove_absent k [] h = refl
remove_absent k (x ∷ xs) h = ground (arith, remove_absent k xs)

remove-All : (k x : ℕ) (xs : List ℕ) → All (λ y. y ≢ x) xs → All (λ y. y ≢ x) (remove k xs)
unfolding remove
remove-All k x [] h = tt
remove-All k x (y ∷ xs) h = ground (arith, remove-All k x xs)

remove-Distinct : (k : ℕ) (xs : List ℕ) → Distinct xs → Distinct (remove k xs)
unfolding remove
remove-Distinct k [] h = tt
remove-Distinct k (x ∷ xs) h = ground (arith, remove-Distinct k xs, remove-All k x xs)

remove-below : (k : ℕ) (xs : List ℕ) → All (λ y. y < suc k) xs → All (λ y. y < k) (remove k xs)
unfolding remove
remove-below k [] h = tt
remove-below k (x ∷ xs) h = ground (arith, remove-below k xs)

length-remove : (k : ℕ) (xs : List ℕ) → Distinct xs → length xs ≤ suc (length (remove k xs))
unfolding remove
length-remove k [] h = omega arith
length-remove k (x ∷ xs) h = ground (arith, remove_absent k xs, length-remove k xs)

pub length-Distinct : (n : ℕ) (xs : List ℕ) → All (λ y. y < n) xs → Distinct xs → length xs ≤ n
length-Distinct zero [] h d = omega arith
length-Distinct zero (x ∷ xs) h d = absurd (omega arith)
length-Distinct (suc k) xs h d = omega (
  arith,
  length-remove k xs d,
  length-Distinct k (remove k xs) (remove-below k xs h) (remove-Distinct k xs d),
)
