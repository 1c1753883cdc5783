-- ===== src/Clist/Erase.antt =====
-- Lists of nodes without one node, and the node before it in a chain.
use sancus_riot.Common.{
  ℕ, ◌≡◌, refl, ◌≢◌, true, false, List, [], ◌∷◌, arith, ◌==◌, if◌then◌else◌, has, Bool-cases, inl,
  inr, Distinct, last, has-last,
}
use mathlib.Core.Path.{ap}
use sancus_riot.Clist.Chain.{Links, null, set_next, Chain, Chain-set_ne}
use sancus_riot.Clist.Search.{before}

-- The list without `node`.
unfoldable pub erase : ℕ → List ℕ → List ℕ
erase node [] = []
erase node (x ∷ xs) = if x == node then xs else x ∷ erase node xs

pub has-erase : (a node : ℕ) (xs : List ℕ) → has a xs ≡ false → has a (erase node xs) ≡ false
unfolding erase
has-erase a node [] h = refl
has-erase a node (x ∷ xs) h = ground (arith, has-erase a node xs)

pub Distinct-erase : (node : ℕ) (xs : List ℕ) → Distinct xs → Distinct (erase node xs)
unfolding erase
Distinct-erase node [] d = tt
Distinct-erase node (x ∷ xs) d = elim (Bool-cases (x == node)) [
  | inl e ↦ rw e d.1
  | inr e ↦ rw e (has-erase x node xs d.0, Distinct-erase node xs d.1)
]

pub has-before :
    (node a : ℕ) (xs : List ℕ) (z : ℕ)
    → has node xs ≡ true
    → has (before node a xs z) (a ∷ xs) ≡ true
unfolding before
has-before node a [] z h = absurd (cc)
has-before node a (x ∷ xs) z h = ground (arith, has-before node x xs z)

pub links-before :
    (l : Links) (node a : ℕ) (xs : List ℕ) (z : ℕ)
    → Chain l a xs z
    → has node xs ≡ true
    → l (before node a xs z) ≡ node
unfolding before
links-before l node a [] z c h = absurd (cc)
links-before l node a (x ∷ xs) z c h = ground (arith, links-before l node x xs z c.1)

pub before-absent :
    (node a : ℕ) (xs : List ℕ) (z : ℕ)
    → has node xs ≡ false
    → before node a xs z ≡ (if z == node then last a xs else null)
unfolding before
before-absent node a [] z h = refl
before-absent node a (x ∷ xs) z h = ground (arith, before-absent node x xs z)

-- Unlinking a node behind the first.
pub Chain-erase :
    (l : Links) (node a : ℕ) (xs : List ℕ) (z : ℕ)
    → Distinct (a ∷ xs)
    → has node xs ≡ true
    → Chain l a xs z
    → Chain (set_next l (before node a xs z) (l node)) a (erase node xs) z
unfolding before erase
Chain-erase l node a [] z d h c = absurd (cc)
Chain-erase l node a (x ∷ xs) z d h c = elim (Bool-cases (x == node)) [
  | inl e ↦ rw e (first xs c d (ground arith))
  | inr e ↦
      rw e
        (ground (arith, has-before node x xs z), Chain-erase l node x xs z d.1 (ground arith) c.1)
]
  where
    first :
        (ys : List ℕ)
        → Chain l a (x ∷ ys) z
        → Distinct (a ∷ x ∷ ys)
        → x ≡ node
        → Chain (set_next l a (l node)) a ys z
    first [] c d e = ground arith
    first (y ∷ ys) c d e = (ground arith, Chain-set_ne l a (l node) y ys z (ground arith) c.1.1)

pub last-erase :
    (node a : ℕ) (xs : List ℕ) (z : ℕ)
    → Distinct (a ∷ xs)
    → has node xs ≡ true
    → last a (erase node xs) ≡ (if node == last a xs then before node a xs z else last a xs)
unfolding before erase
last-erase node a [] z d h = absurd (cc)
last-erase node a (x ∷ xs) z d h = elim (Bool-cases (x == node)) [
  | inl e ↦ rw e (first xs d (ground arith))
  | inr e ↦ rw e (last-erase node x xs z d.1 (ground arith))
]
  where
    first :
        (ys : List ℕ)
        → Distinct (a ∷ x ∷ ys)
        → x ≡ node
        → last a ys ≡ (if node == last x ys then a else last x ys)
    first [] d e = ground arith
    first (y ∷ ys) d e = ground (arith, has-last y ys)

pub has-ne : (a b : ℕ) (xs : List ℕ) → has a xs ≡ true → has b xs ≡ false → a ≢ b
has-ne a b xs h k e = ground (arith, ap (λ n. has n xs) e)
