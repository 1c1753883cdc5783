-- ===== src/Common/Members.antt =====
-- Membership in a list of numbers as a test, and lists without repetition.
use sancus_riot.Common.Tests.{◌==◌}
use Prim.Native.Nat.{ℕ}
use mathlib.Core.Path.{◌≡◌, refl}
use mathlib.Core.Bool.{Bool, true, false, ◌||◌}
use mathlib.Core.List.{List, [], ◌∷◌, ◌++◌}
use native.Mathlib.Omega.{arith}

abbrev pub has : ℕ → List ℕ → Bool
has a [] = false
has a (x ∷ xs) = a == x || has a xs

abbrev pub Distinct : List ℕ → Type 0
Distinct [] = Unit
Distinct (x ∷ xs) = (has x xs ≡ false) × Distinct xs

-- The last element of `x ∷ xs`.
abbrev pub last : ℕ → List ℕ → ℕ
last x [] = x
last x (y ∷ ys) = last y ys

pub has-append : (a : ℕ) (xs ys : List ℕ) → has a (xs ++ ys) ≡ (has a xs || has a ys)
has-append a [] ys = refl
has-append a (x ∷ xs) ys = ground (arith, has-append a xs ys)

pub has-last : (x : ℕ) (xs : List ℕ) → has (last x xs) (x ∷ xs) ≡ true
has-last x [] = ground arith
has-last x (y ∷ ys) = ground (arith, has-last y ys)

pub last-append : (x y : ℕ) (xs : List ℕ) → last x (xs ++ (y ∷ [])) ≡ y
last-append x y [] = refl
last-append x y (z ∷ xs) = last-append z y xs

pub Distinct-append :
    (xs : List ℕ) (n : ℕ) → has n xs ≡ false → Distinct xs → Distinct (xs ++ (n ∷ []))
Distinct-append [] n out d = (refl, tt)
Distinct-append (x ∷ xs) n out d =
    (ground (arith, has-append x xs (n ∷ [])), Distinct-append xs n (ground arith) d.1)
