-- ===== src/PriorityQueue/Remove.antt =====
-- Removing a node, wherever it stands, and removing the first.
use sancus_riot.Common.{
  ℕ, zero, suc, ◌<◌, ◌≡◌, ◌≢◌, refl, sym, ap, ◌∙◌, true, false, some, List, [], ◌∷◌, arith, ◌==◌,
  has, Distinct, length, Bool-cases, inl, inr,
}
use mathlib.Core.Path.{subst}
use sancus_riot.Clist.Chain.{Links, null, set_next}
use sancus_riot.Clist.Erase.{erase}
use sancus_riot.PriorityQueue.{priority_queue_remove, priority_queue_remove_head}
use sancus_riot.PriorityQueue.Add.{Nodes, Nodes-frame}

-- What is removed from the list `xs` behind the node `a`.
pub record Removed (l : Links) (a node : ℕ) (xs : List ℕ) (fuel : ℕ) : Type 0 where
  pub after : Links
  pub returns : priority_queue_remove fuel l a node ≡ some after
  pub linked : Nodes after a (erase node xs)
  pub others : (m : ℕ) → has m (a ∷ node ∷ []) ≡ false → has m xs ≡ false → after m ≡ l m

module _ (node fuel : ℕ) (l : Links) (a : ℕ) where
  remove-last : l a ≡ null → priority_queue_remove (suc fuel) l a node ≡ some l
  unfolding priority_queue_remove
  remove-last e = rw e refl

  remove-here :
      (x : ℕ)
      → l a ≡ x
      → x ≢ null
      → x == node ≡ true
      → priority_queue_remove (suc fuel) l a node
        ≡ some (set_next (set_next l a (l node)) node null)
  unfolding priority_queue_remove
  remove-here x e nn s = rw (e, ne, s) refl
    where
      ne : x == null ≡ false
      ne = ground (arith, nn)

  remove-behind :
      (x : ℕ)
      → l a ≡ x
      → x ≢ null
      → x == node ≡ false
      → priority_queue_remove (suc fuel) l a node ≡ priority_queue_remove fuel l x node
  unfolding priority_queue_remove
  remove-behind x e nn s = rw (e, ne, s) refl
    where
      ne : x == null ≡ false
      ne = ground (arith, nn)

erase-here : (node x : ℕ) (xs : List ℕ) → x == node ≡ true → erase node (x ∷ xs) ≡ xs
unfolding erase
erase-here node x xs e = rw e refl

erase-behind :
    (node x : ℕ) (xs : List ℕ) → x == node ≡ false → erase node (x ∷ xs) ≡ x ∷ erase node xs
unfolding erase
erase-behind node x xs e = rw e refl

erase-nil : (node : ℕ) → erase node [] ≡ []
unfolding erase
erase-nil node = refl

-- The list behind the node `x` follows the node `a` when `x` is taken out.
skipped :
    (l : Links) (a x : ℕ) (xs : List ℕ)
    → Nodes l x xs
    → Distinct (a ∷ x ∷ xs)
    → Nodes (set_next (set_next l a (l x)) x null) a xs
skipped l a x [] c d = ground (arith, c, d.0)
skipped l a x (y ∷ ys) c d = (
  ground (arith, c.0, d.0),
  c.1,
  Nodes-frame l (set_next (set_next l a (l x)) x null) y ys
      (λ m i. ground (arith, i, d.0, d.1, ap (λ b. has b (y ∷ ys)))) c.2,
)

-- Removing a node other than the root from a queue of distinct nodes ends within one round more
-- than there are nodes and takes the node out, wherever it stands; a node that is not in the queue
-- leaves it as it is, and no pointer of any node outside changes.
pub priority_queue_remove-Removed :
    (l : Links) (a node : ℕ) (xs : List ℕ) (fuel : ℕ)
    → Nodes l a xs
    → Distinct (a ∷ xs)
    → a ≢ node
    → length xs < fuel
    → Removed l a node xs fuel
priority_queue_remove-Removed l a node xs zero c d ne h = absurd (omega (arith, h))
priority_queue_remove-Removed l a node [] (suc fuel) c d ne h = record {
  after = l;
  returns = remove-last node fuel l a c;
  linked = subst (Nodes l a) (sym (erase-nil node)) c;
  others = λ m i j. refl;
}
priority_queue_remove-Removed l a node (x ∷ xs) (suc fuel) c d ne h =
    elim (Bool-cases (x == node)) [
      | inl e ↦ record {
        after = set_next (set_next l a (l node)) node null;
        returns = remove-here node fuel l a x c.0 c.1 e;
        linked =
            subst (Nodes (set_next (set_next l a (l node)) node null) a)
              (sym (erase-here node x xs e))
              (subst (λ y. Nodes (set_next (set_next l a (l y)) y null) a xs) (ground (arith, e))
                (skipped l a x xs c.2 d));
        others = λ m i j. ground (arith, i);
      }
      | inr e ↦
          let r =
            priority_queue_remove-Removed l x node xs fuel c.2 d.1 (ground (arith, e))
              (omega (arith, h)) in
          record {
            after = r.after;
            returns = remove-behind node fuel l a x c.0 c.1 e ∙ r.returns;
            linked =
                subst (Nodes r.after a) (sym (erase-behind node x xs e))
                  (r.others a (ground (arith, d.0, ne)) (ground (arith, d.0)) ∙ c.0, c.1, r.linked);
            others = λ m i j. r.others m (ground (arith, i, j)) (ground (arith, j));
          }
    ]

pub priority_queue_remove_head-Nodes :
    (l : Links) (root x : ℕ) (xs : List ℕ)
    → Nodes l root (x ∷ xs)
    → Distinct (root ∷ x ∷ xs)
    → let r = priority_queue_remove_head l root in (r.0 ≡ x) × Nodes r.1 root xs
unfolding priority_queue_remove_head
priority_queue_remove_head-Nodes l root x xs c d = rw (c.0, ne) (refl, popped xs c.2 d)
  where
    ne : x == null ≡ false
    ne = ground (arith, c.1)

    popped :
        (xs : List ℕ)
        → Nodes l x xs
        → Distinct (root ∷ x ∷ xs)
        → Nodes (set_next l root (l x)) root xs
    popped [] c d = ground (arith, c)
    popped (y ∷ ys) c d = (
      ground (arith, c.0),
      c.1,
      Nodes-frame l (set_next l root (l x)) y ys
          (λ m i. ground (arith, i, d.0, ap (λ b. has b (y ∷ ys)))) c.2,
    )
