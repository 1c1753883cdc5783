-- ===== src/Clist/Remove.antt =====
-- `clist_find`, `clist_remove` and `clist_rpop` on a well-formed circular list.
use sancus_riot.Common.{
  ℕ, ◌≤◌, ◌<◌, ◌≡◌, refl, ◌≢◌, sym, true, false, some, List, [], ◌∷◌, arith, ◌==◌, if◌then◌else◌,
  has, Bool-cases, inl, inr, ◌⊎◌, length,
}
use mathlib.Core.Path.{subst}
use sancus_riot.Clist.{Clist, clist, lpop, find_before, find, unlink_after, remove}
use sancus_riot.Clist.Chain.{null, set_next}
use sancus_riot.Clist.Queue.{IsClist, next-ne-null, next_links, lpop-IsClist}
use sancus_riot.Clist.Search.{before, find_before-before}
use sancus_riot.Clist.Erase.{
  erase, has-erase, Distinct-erase, has-before, links-before, before-absent, Chain-erase,
  last-erase, has-ne,
}

find_before-empty : (c : Clist) (node fuel : ℕ) → IsClist c [] → find_before fuel c node ≡ some null
unfolding find_before
find_before-empty c node fuel v = ground arith

-- `clist_find` of a node that is not NULL returns the node if it stands in the well-formed list,
-- and NULL otherwise, within as many rounds as there are nodes.
pub find_lem :
    (c : Clist) (node : ℕ) (xs : List ℕ) (fuel : ℕ)
    → node ≢ null
    → IsClist c xs
    → length xs ≤ fuel
    → find fuel c node ≡ some (if has node xs then node else null)
unfolding find
find_lem c node [] fuel p v h = ground (arith, find_before-empty c node fuel v)
find_lem c node (x ∷ xs) fuel p v h = elim (Bool-cases (has node xs)) [
  | inl inside ↦ ground (
    arith,
    find_before-before c node x xs fuel v (omega arith),
    has-ne (before node x xs x) null (x ∷ xs) (has-before node x xs x inside) v.proper,
    links-before c.links node x xs x v.chain inside,
  )
  | inr outside ↦ ground (
    arith,
    find_before-before c node x xs fuel v (omega arith),
    before-absent node x xs x outside,
    next-ne-null c x xs v,
    next_links c x xs v,
    v.at_last,
  )
]

unlink_after-eq :
    (c : Clist) (node x : ℕ) (xs : List ℕ)
    → IsClist c (x ∷ xs)
    → has node xs ≡ true
    → let tmp = before node x xs x in
      unlink_after c node tmp
      ≡ (node, clist (set_next c.links tmp (c.links node)) (if node == c.next then tmp else c.next))
unfolding unlink_after
unlink_after-eq c node x xs v inside =
    rw (links-before c.links node x xs x v.chain inside) ground
      (arith, has-ne (before node x xs x) null (x ∷ xs) (has-before node x xs x inside) v.proper)

unlink_after-null : (c : Clist) (node : ℕ) → unlink_after c node null ≡ (null, c)
unfolding unlink_after
unlink_after-null c node = ground arith

unlink_after-IsClist :
    (c : Clist) (node x : ℕ) (xs : List ℕ)
    → IsClist c (x ∷ xs)
    → has node xs ≡ true
    → IsClist
        (clist
          (set_next c.links (before node x xs x) (c.links node))
          (if node == c.next then before node x xs x else c.next))
        (x ∷ erase node xs)
unlink_after-IsClist c node x xs v inside = record {
  proper = ground (arith, v.proper, has-erase null node xs);
  distinct = (has-erase x node xs v.distinct.0, Distinct-erase node xs v.distinct.1);
  at_last = ground (arith, last-erase node x xs x v.distinct inside, v.at_last);
  chain = Chain-erase c.links node x xs x v.distinct inside v.chain;
}

remove-first :
    (c : Clist) (x : ℕ) (xs : List ℕ) (fuel : ℕ)
    → IsClist c (x ∷ xs)
    → remove fuel c x ≡ some (x, (lpop c).1)
unfolding remove
remove-first c x xs fuel v =
    ground (arith, next-ne-null c x xs v, next_links c x xs v, (lpop-IsClist c x xs v).0)

remove-behind :
    (c : Clist) (node x : ℕ) (xs : List ℕ) (fuel : ℕ)
    → IsClist c (x ∷ xs)
    → length xs < fuel
    → x ≢ node
    → remove fuel c node ≡ some (unlink_after c node (before node x xs x))
unfolding remove
remove-behind c node x xs fuel v h ne =
    ground
      (arith, next-ne-null c x xs v, next_links c x xs v, find_before-before c node x xs fuel v h)

remove-empty : (c : Clist) (node fuel : ℕ) → IsClist c [] → remove fuel c node ≡ some (null, c)
unfolding remove
remove-empty c node fuel v = ground arith

remove-absent :
    (c : Clist) (node : ℕ) (xs : List ℕ) (fuel : ℕ)
    → IsClist c xs
    → length xs ≤ fuel
    → has node xs ≡ false
    → remove fuel c node ≡ some (null, c)
remove-absent c node [] fuel v h out = remove-empty c node fuel v
remove-absent c node (x ∷ xs) fuel v h out = ground (
  arith,
  remove-behind c node x xs fuel v (omega arith),
  before-absent node x xs x,
  unlink_after-null c node,
)

erase-absent : (node : ℕ) (xs : List ℕ) → has node xs ≡ false → erase node xs ≡ xs
unfolding erase
erase-absent node [] h = refl
erase-absent node (x ∷ xs) h = ground (arith, erase-absent node xs)

-- What `clist_remove` returns for a node of the list, and the list that it leaves.
pub record Removed (c : Clist) (node : ℕ) (xs : List ℕ) (fuel : ℕ) : Type 0 where
  pub result : Clist
  pub returns : remove fuel c node ≡ some (if has node xs then node else null, result)
  pub left : IsClist result (erase node xs)
  pub same : has node xs ≡ false → result ≡ c

Removed-first :
    (c : Clist) (x : ℕ) (xs : List ℕ) (fuel : ℕ) → IsClist c (x ∷ xs) → Removed c x (x ∷ xs) fuel
unfolding erase
Removed-first c x xs fuel v =
    let here : x == x ≡ true = ground arith in
    record {
      result = (lpop c).1;
      returns = rw here (remove-first c x xs fuel v);
      left = rw here (lpop-IsClist c x xs v).1;
      same = λ out. absurd (ground (arith, out));
    }

Removed-behind :
    (c : Clist) (node x : ℕ) (xs : List ℕ) (fuel : ℕ)
    → IsClist c (x ∷ xs)
    → length xs < fuel
    → x == node ≡ false
    → has node xs ≡ true
    → Removed c node (x ∷ xs) fuel
unfolding erase
Removed-behind c node x xs fuel v h ne inside = record {
  result =
      clist (set_next c.links (before node x xs x) (c.links node))
        (if node == c.next then before node x xs x else c.next);
  returns = ground (
    arith,
    remove-behind c node x xs fuel v h (ground arith),
    unlink_after-eq c node x xs v inside,
  );
  left = rw ne (unlink_after-IsClist c node x xs v inside);
  same = λ out. absurd (ground (arith, out));
}

-- `clist_remove` takes exactly the given node out of a well-formed list, wherever it stands, and
-- returns it; it answers NULL and changes nothing if the node is not in the list. It ends within
-- as many rounds as there are nodes.
pub remove_lem :
    (c : Clist) (node : ℕ) (xs : List ℕ) (fuel : ℕ)
    → IsClist c xs
    → length xs ≤ fuel
    → (d : Clist) × (remove fuel c node ≡ some (if has node xs then node else null, d))
      × IsClist d (erase node xs)
      × ((has node xs ≡ true) ⊎ (d ≡ c))
remove_lem c node xs fuel v h =
    let r = removed xs v h in
    (
      r.result,
      r.returns,
      r.left,
      elim (Bool-cases (has node xs)) [ inl i ↦ inl i | inr o ↦ inr (r.same o) ],
    )
  where
    inside :
        (x : ℕ) (xs : List ℕ)
        → IsClist c (x ∷ xs)
        → length xs < fuel
        → x == node ≡ false
        → has node xs ≡ true
        → Removed c node (x ∷ xs) fuel
    inside x xs v h ne i = Removed-behind c node x xs fuel v h ne i

    outside :
        (xs : List ℕ)
        → IsClist c xs
        → length xs ≤ fuel
        → has node xs ≡ false
        → Removed c node xs fuel
    outside xs v h out = record {
      result = c;
      returns = rw out (remove-absent c node xs fuel v h out);
      left = rw (erase-absent node xs out) v;
      same = λ _. refl;
    }

    removed : (xs : List ℕ) → IsClist c xs → length xs ≤ fuel → Removed c node xs fuel
    removed [] v h = outside [] v h refl
    removed (x ∷ xs) v h = elim (Bool-cases (x == node)) [
      | inl e ↦
          let same : node ≡ x = ground arith in
          subst (λ n. Removed c n (x ∷ xs) fuel) (sym same) (Removed-first c x xs fuel v)
      | inr ne ↦ elim (Bool-cases (has node xs)) [
        | inl i ↦ inside x xs v (omega arith) ne i
        | inr o ↦ outside (x ∷ xs) v h (ground arith)
      ]
    ]
