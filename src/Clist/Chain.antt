-- ===== src/Clist/Chain.antt =====
-- `next` pointers, and the chains of nodes that they lead through.
use sancus_riot.Common.{
  ℕ, ◌≡◌, true, false, List, [], ◌∷◌, ◌++◌, arith, ◌==◌, if◌then◌else◌, has, Distinct, last,
  has-last,
}

-- `node->next` for each node address.
abbrev pub Links : Type 0
Links = ℕ → ℕ

abbrev pub null : ℕ
null = 0

-- `node->next = value`
abbrev pub set_next : Links → ℕ → ℕ → Links
set_next l node value n = if n == node then value else l n

-- From `a` the pointers lead through the nodes `xs` to `z`.
abbrev pub Chain : Links → ℕ → List ℕ → ℕ → Type 0
Chain l a [] z = l a ≡ z
Chain l a (x ∷ xs) z = (l a ≡ x) × Chain l x xs z

module _ (l : Links) where
  -- The pointer of the last node is the end of the chain.
  pub Chain-last : (a : ℕ) (xs : List ℕ) (z : ℕ) → Chain l a xs z → l (last a xs) ≡ z
  Chain-last a [] z c = c
  Chain-last a (x ∷ xs) z c = Chain-last x xs z c.1

  pub Chain-append :
      (a : ℕ) (xs : List ℕ) (y z : ℕ) → Chain l a xs y → l y ≡ z → Chain l a (xs ++ (y ∷ [])) z
  Chain-append a [] y z c e = (c, e)
  Chain-append a (x ∷ xs) y z c e = (c.0, Chain-append x xs y z c.1 e)

  -- A chain depends only on the pointers of its own nodes.
  pub Chain-frame :
      (l' : Links) (a : ℕ) (xs : List ℕ) (z : ℕ)
      → ((n : ℕ) → has n (a ∷ xs) ≡ true → l' n ≡ l n)
      → Chain l a xs z
      → Chain l' a xs z
  Chain-frame l' a [] z same c = ground (arith, same a)
  Chain-frame l' a (x ∷ xs) z same c =
      (ground (arith, same a), Chain-frame l' x xs z (λ n h. same n (ground arith)) c.1)

  pub Chain-set_ne :
      (n v a : ℕ) (xs : List ℕ) (z : ℕ)
      → has n (a ∷ xs) ≡ false
      → Chain l a xs z
      → Chain (set_next l n v) a xs z
  Chain-set_ne n v a [] z out c = ground arith
  Chain-set_ne n v a (x ∷ xs) z out c = (ground arith, Chain-set_ne n v x xs z (ground arith) c.1)

  -- Redirecting the last node moves the end of the chain.
  pub Chain-set_last :
      (a : ℕ) (xs : List ℕ) (w z : ℕ)
      → Distinct (a ∷ xs)
      → Chain l a xs z
      → Chain (set_next l (last a xs) w) a xs w
  Chain-set_last a [] w z d c = ground arith
  Chain-set_last a (x ∷ xs) w z d c =
      (ground (arith, has-last x xs), Chain-set_last x xs w z d.1 c.1)
