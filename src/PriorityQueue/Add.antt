-- ===== src/PriorityQueue/Add.antt =====
-- Adding a node: it goes behind the nodes whose priority is the same or smaller in number.
use sancus_riot.Common.{
  ℕ, zero, suc, ◌<◌, ◌≤◌, ◌≡◌, ◌≢◌, refl, sym, ap, ◌∙◌, true, false, some, List, [], ◌∷◌, arith,
  ◌==◌, ltb, has, Distinct, length, if◌then◌else◌, Bool-cases, inl, inr,
}
use mathlib.Core.Path.{subst}
use sancus_riot.Clist.Chain.{Links, null, set_next}
use sancus_riot.PriorityQueue.{priority_queue_add}

-- From the node `a` the pointers lead through `xs` to NULL.
abbrev pub Nodes : Links → ℕ → List ℕ → Type 0
Nodes l a [] = l a ≡ null
Nodes l a (x ∷ xs) = (l a ≡ x) × (x ≢ null) × Nodes l x xs

abbrev pub IsSorted : (ℕ → ℕ) → List ℕ → Type 0
IsSorted priority [] = Unit {0}
IsSorted priority (x ∷ []) = Unit {0}
IsSorted priority (x ∷ y ∷ xs) = (priority x ≤ priority y) × IsSorted priority (y ∷ xs)

-- The list with the new node.
unfoldable pub insert : (ℕ → ℕ) → ℕ → List ℕ → List ℕ
insert priority n [] = n ∷ []
insert priority n (x ∷ xs) =
    if ltb (priority n) (priority x) then n ∷ x ∷ xs else x ∷ insert priority n xs

pub Nodes-frame :
    (l l' : Links) (a : ℕ) (xs : List ℕ)
    → ((m : ℕ) → has m (a ∷ xs) ≡ true → l' m ≡ l m)
    → Nodes l a xs
    → Nodes l' a xs
Nodes-frame l l' a [] same c = same a (ground arith) ∙ c
Nodes-frame l l' a (x ∷ xs) same c = (
  same a (ground arith) ∙ c.0,
  c.1,
  Nodes-frame l l' x xs (λ m i. same m (ground (arith, i))) c.2,
)

-- What is added at the node `a`, in front of the list `xs`.
pub record Added (priority : ℕ → ℕ) (l : Links) (a n : ℕ) (xs : List ℕ) (fuel : ℕ) : Type 0 where
  pub after : Links
  pub returns : priority_queue_add fuel priority l a n ≡ some after
  pub linked : Nodes after a (insert priority n xs)
  pub others : (m : ℕ) → has m (a ∷ n ∷ xs) ≡ false → after m ≡ l m

module _ (priority : ℕ → ℕ) (n fuel : ℕ) (l : Links) (a : ℕ) where
  add-last :
      l a ≡ null
      → priority_queue_add (suc fuel) priority l a n ≡ some (set_next (set_next l a n) n null)
  unfolding priority_queue_add
  add-last e = rw e refl

  add-before :
      (x : ℕ)
      → l a ≡ x
      → x ≢ null
      → ltb (priority n) (priority x) ≡ true
      → priority_queue_add (suc fuel) priority l a n ≡ some (set_next (set_next l n x) a n)
  unfolding priority_queue_add
  add-before x e nn lt = rw (e, ne, lt) refl
    where
      ne : x == null ≡ false
      ne = ground (arith, nn)

  add-behind :
      (x : ℕ)
      → l a ≡ x
      → x ≢ null
      → ltb (priority n) (priority x) ≡ false
      → priority_queue_add (suc fuel) priority l a n ≡ priority_queue_add fuel priority l x n
  unfolding priority_queue_add
  add-behind x e nn ge = rw (e, ne, ge) refl
    where
      ne : x == null ≡ false
      ne = ground (arith, nn)

module _ (priority : ℕ → ℕ) (n : ℕ) where
  insert-before :
      (x : ℕ) (xs : List ℕ)
      → ltb (priority n) (priority x) ≡ true
      → insert priority n (x ∷ xs) ≡ n ∷ x ∷ xs
  unfolding insert
  insert-before x xs e = rw e refl

  insert-behind :
      (x : ℕ) (xs : List ℕ)
      → ltb (priority n) (priority x) ≡ false
      → insert priority n (x ∷ xs) ≡ x ∷ insert priority n xs
  unfolding insert
  insert-behind x xs e = rw e refl

  insert-nil : insert priority n [] ≡ n ∷ []
  unfolding insert
  insert-nil = refl

-- The new node between the node `a` and the list `xs`.
between :
    (l : Links) (a n x : ℕ) (xs : List ℕ)
    → n ≢ null
    → Nodes l a (x ∷ xs)
    → Distinct (a ∷ x ∷ xs)
    → has n (a ∷ x ∷ xs) ≡ false
    → Nodes (set_next (set_next l n x) a n) a (n ∷ x ∷ xs)
between l a n x xs nn c d out = (
  ground arith,
  nn,
  (
    ground (arith, out),
    c.1,
    Nodes-frame l (set_next (set_next l n x) a n) x xs
        (λ m i. ground (arith, i, out, d.0, ap (λ b. has b (x ∷ xs)))) c.2,
  ),
)

pub add-Nodes :
    (priority : ℕ → ℕ) (n : ℕ) (l : Links) (a : ℕ) (xs : List ℕ) (fuel : ℕ)
    → n ≢ null
    → Nodes l a xs
    → Distinct (a ∷ xs)
    → has n (a ∷ xs) ≡ false
    → length xs < fuel
    → Added priority l a n xs fuel
add-Nodes priority n l a xs zero nn c d out h = absurd (omega (arith, h))
add-Nodes priority n l a [] (suc fuel) nn c d out h = record {
  after = set_next (set_next l a n) n null;
  returns = add-last priority n fuel l a c;
  linked =
      subst (Nodes (set_next (set_next l a n) n null) a) (sym (insert-nil priority n))
        (ground (arith, out), nn, ground arith);
  others = λ m i. ground (arith, i);
}
add-Nodes priority n l a (x ∷ xs) (suc fuel) nn c d out h =
    elim (Bool-cases (ltb (priority n) (priority x))) [
      | inl e ↦ record {
        after = set_next (set_next l n x) a n;
        returns = add-before priority n fuel l a x c.0 c.1 e;
        linked =
            subst (Nodes (set_next (set_next l n x) a n) a) (sym (insert-before priority n x xs e))
              (between l a n x xs nn c d out);
        others = λ m i. ground (arith, i);
      }
      | inr e ↦
          let r =
            add-Nodes priority n l x xs fuel nn c.2 d.1 (ground (arith, out)) (omega (arith, h)) in
          record {
            after = r.after;
            returns = add-behind priority n fuel l a x c.0 c.1 e ∙ r.returns;
            linked =
                subst (Nodes r.after a) (sym (insert-behind priority n x xs e))
                  (r.others a (ground (arith, d.0, out)) ∙ c.0, c.1, r.linked);
            others = λ m i. r.others m (ground (arith, i));
          }
    ]

insert-IsSorted :
    (priority : ℕ → ℕ) (n : ℕ) (xs : List ℕ)
    → IsSorted priority xs
    → IsSorted priority (insert priority n xs)
insert-IsSorted priority n [] s = subst (IsSorted priority) (sym (insert-nil priority n)) tt
insert-IsSorted priority n (x ∷ xs) s = elim (Bool-cases (ltb (priority n) (priority x))) [
  | inl e ↦ subst (IsSorted priority) (sym (insert-before priority n x xs e)) (ground (arith, e), s)
  | inr e ↦
      subst (IsSorted priority) (sym (insert-behind priority n x xs e))
        (follows x xs (ground (arith, e)) s (insert-IsSorted priority n xs (rest x xs s)))
]
  where
    rest : (x : ℕ) (xs : List ℕ) → IsSorted priority (x ∷ xs) → IsSorted priority xs
    rest x [] s = tt
    rest x (y ∷ ys) s = s.1

    -- Whatever comes first behind `x` has no smaller number.
    follows :
        (x : ℕ) (xs : List ℕ)
        → priority x ≤ priority n
        → IsSorted priority (x ∷ xs)
        → IsSorted priority (insert priority n xs)
        → IsSorted priority (x ∷ insert priority n xs)
    follows x [] le s i =
        subst (λ ys. IsSorted priority (x ∷ ys)) (sym (insert-nil priority n)) (le, tt)
    follows x (y ∷ ys) le s i = elim (Bool-cases (ltb (priority n) (priority y))) [
      | inl e ↦
          let eq = insert-before priority n y ys e in
          subst (λ zs. IsSorted priority (x ∷ zs)) (sym eq) (le, subst (IsSorted priority) eq i)
      | inr e ↦
          let eq = insert-behind priority n y ys e in
          subst (λ zs. IsSorted priority (x ∷ zs)) (sym eq) (s.0, subst (IsSorted priority) eq i)
    ]

-- Adding a node that is not NULL, not the root and not in the queue, to a queue of distinct nodes
-- sorted by priority, ends within one round more than there are nodes: the new node stands behind
-- all nodes whose priority is not greater in number and before the others, which keep their order,
-- so the queue is sorted again, and no pointer of any other node changes.
pub priority_queue_add-Added :
    (priority : ℕ → ℕ) (n : ℕ) (l : Links) (root : ℕ) (xs : List ℕ) (fuel : ℕ)
    → n ≢ null
    → Nodes l root xs
    → Distinct (root ∷ xs)
    → has n (root ∷ xs) ≡ false
    → IsSorted priority xs
    → length xs < fuel
    → Added priority l root n xs fuel × IsSorted priority (insert priority n xs)
priority_queue_add-Added priority n l root xs fuel nn c d out s h =
    (add-Nodes priority n l root xs fuel nn c d out h, insert-IsSorted priority n xs s)
