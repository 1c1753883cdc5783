-- ===== src/Clist/Queue.antt =====
-- A well-formed circular list stands for the list of its nodes, first to last; pushing, popping
-- and rotating are the operations of a double-ended queue.
use sancus_riot.Common.{
  ℕ, ◌≡◌, refl, ◌≢◌, sym, false, List, [], ◌∷◌, ◌++◌, arith, ◌==◌, has, Bool-cases, inl, inr,
  Distinct, last, has-last, last-append, has-append, Distinct-append,
}
use mathlib.Core.Path.{subst}
use sancus_riot.Clist.{Clist, clist, link_in, rpush, lpush, lpop, lpoprpush, lpeek, rpeek}
use sancus_riot.Clist.Chain.{
  Links, null, set_next, Chain, Chain-last, Chain-append, Chain-set_ne, Chain-set_last,
}

-- The circle `x, xs` without NULL and without repetition, with `next` at its last node.
pub record IsCircle (l : Links) (t x : ℕ) (xs : List ℕ) : Type 0 where
  pub proper : has null (x ∷ xs) ≡ false
  pub distinct : Distinct (x ∷ xs)
  pub at_last : last x xs ≡ t
  pub chain : Chain l x xs x

abbrev pub IsClist : Clist → List ℕ → Type 0
IsClist c [] = c.next ≡ null
IsClist c (x ∷ xs) = IsCircle c.links c.next x xs

pub next-ne-null : (c : Clist) (x : ℕ) (xs : List ℕ) → IsClist c (x ∷ xs) → c.next ≢ null
next-ne-null c x xs v e = ground (arith, has-last x xs, v.proper)

pub next_links : (c : Clist) (x : ℕ) (xs : List ℕ) → IsClist c (x ∷ xs) → c.links c.next ≡ x
next_links c x xs v = rw (← v.at_last) (Chain-last c.links x xs x v.chain)

link_in-eq :
    (c : Clist) (x : ℕ) (xs : List ℕ) (n : ℕ)
    → IsClist c (x ∷ xs)
    → link_in c n ≡ set_next (set_next c.links n x) (last x xs) n
unfolding link_in
link_in-eq c x xs n v = rw (next_links c x xs v, v.at_last) refl

-- A new node between the last and the first.
Chain-link_in :
    (c : Clist) (x : ℕ) (xs : List ℕ) (n : ℕ)
    → IsClist c (x ∷ xs)
    → has n (x ∷ xs) ≡ false
    → Chain (link_in c n) x (xs ++ (n ∷ [])) x
Chain-link_in c x xs n v out =
    let l1 = set_next c.links n x in
    let first = Chain-set_ne c.links n x x xs x out v.chain in
    let moved = Chain-set_last l1 x xs n x v.distinct first in
    let new : set_next l1 (last x xs) n n ≡ x = ground (arith, has-last x xs) in
    rw (link_in-eq c x xs n v) (Chain-append (set_next l1 (last x xs) n) x xs n x moved new)

Chain-link_first :
    (c : Clist) (x : ℕ) (xs : List ℕ) (n : ℕ)
    → IsClist c (x ∷ xs)
    → has n (x ∷ xs) ≡ false
    → Chain (link_in c n) n (x ∷ xs) n
Chain-link_first c x xs n v out =
    let l1 = set_next c.links n x in
    let first = Chain-set_ne c.links n x x xs x out v.chain in
    let new : set_next l1 (last x xs) n n ≡ x = ground (arith, has-last x xs) in
    subst (λ l. Chain l n (x ∷ xs) n) (sym (link_in-eq c x xs n v))
      (new, Chain-set_last l1 x xs n x v.distinct first)

-- `clist_rpush` of a node that is not NULL and not in the list appends it to a well-formed list.
pub rpush-IsClist :
    (c : Clist) (xs : List ℕ) (n : ℕ)
    → n ≢ null
    → has n xs ≡ false
    → IsClist c xs
    → IsClist (rpush c n) (xs ++ (n ∷ []))
unfolding rpush
rpush-IsClist c [] n h out v =
    rw v
      record { proper = ground arith; distinct = (refl, tt); at_last = refl; chain = ground arith }
rpush-IsClist c (x ∷ xs) n h out v = elim (Bool-cases (c.next == null)) [
  | inl e ↦ absurd (next-ne-null c x xs v (ground arith))
  | inr e ↦ rw e record {
    proper = ground (arith, has-append null (x ∷ xs) (n ∷ []), v.proper);
    distinct = Distinct-append (x ∷ xs) n out v.distinct;
    at_last = last-append x n xs;
    chain = Chain-link_in c x xs n v out;
  }
]

lpop-cons :
    (c : Clist) (x y : ℕ) (ys : List ℕ)
    → IsClist c (x ∷ y ∷ ys)
    → lpop c ≡ (x, clist (set_next c.links c.next y) c.next)
unfolding lpop
lpop-cons c x y ys v = ground (
  arith,
  next_links c x (y ∷ ys) v,
  next-ne-null c x (y ∷ ys) v,
  has-last y ys,
  v.at_last,
  v.distinct,
  v.chain,
)

-- `clist_lpop` of a well-formed list that is not empty returns the first node and leaves the
-- others.
pub lpop-IsClist :
    (c : Clist) (x : ℕ) (xs : List ℕ)
    → IsClist c (x ∷ xs)
    → ((lpop c).0 ≡ x) × IsClist (lpop c).1 xs
unfolding lpop
lpop-IsClist c x [] v = ground (arith, next_links c x [] v, next-ne-null c x [] v, v.at_last)
lpop-IsClist c x (y ∷ ys) v = rw (lpop-cons c x y ys v) (
  refl,
  record {
    proper = ground (arith, v.proper);
    distinct = v.distinct.1;
    at_last = v.at_last;
    chain = rw (← v.at_last) (Chain-set_last c.links y ys y x v.distinct.1 v.chain.1);
  },
)

-- `clist_lpop` of an empty list answers NULL.
pub lpop-empty : (c : Clist) → IsClist c [] → lpop c ≡ (null, c)
unfolding lpop
lpop-empty c v = ground arith

-- `clist_lpoprpush` moves the first node of a well-formed list to the end.
pub lpoprpush-IsClist :
    (c : Clist) (x : ℕ) (xs : List ℕ) → IsClist c (x ∷ xs) → IsClist (lpoprpush c) (xs ++ (x ∷ []))
unfolding lpoprpush
lpoprpush-IsClist c x [] v = elim (Bool-cases (c.next == null)) [
  | inl e ↦ absurd (next-ne-null c x [] v (ground arith))
  | inr e ↦
      rw (e, next_links c x [] v)
        record { proper = v.proper; distinct = v.distinct; at_last = refl; chain = v.chain }
]
lpoprpush-IsClist c x (y ∷ ys) v = elim (Bool-cases (c.next == null)) [
  | inl e ↦ absurd (next-ne-null c x (y ∷ ys) v (ground arith))
  | inr e ↦
      rw (e, next_links c x (y ∷ ys) v)
        record {
          proper = ground (arith, has-append null (y ∷ ys) (x ∷ []), v.proper);
          distinct = Distinct-append (y ∷ ys) x v.distinct.0 v.distinct.1;
          at_last = last-append y x ys;
          chain = Chain-append c.links y ys x y v.chain.1 v.chain.0;
        }
]

pub lpoprpush-empty : (c : Clist) → IsClist c [] → lpoprpush c ≡ c
unfolding lpoprpush
lpoprpush-empty c v = ground arith

-- `clist_lpush` of a node that is not NULL and not in the list puts it before the first node of a
-- well-formed list.
pub lpush-IsClist :
    (c : Clist) (xs : List ℕ) (n : ℕ)
    → n ≢ null
    → has n xs ≡ false
    → IsClist c xs
    → IsClist (lpush c n) (n ∷ xs)
unfolding lpush
lpush-IsClist c [] n h out v =
    rw v
      record { proper = ground arith; distinct = (refl, tt); at_last = refl; chain = ground arith }
lpush-IsClist c (x ∷ xs) n h out v = elim (Bool-cases (c.next == null)) [
  | inl e ↦ absurd (next-ne-null c x xs v (ground arith))
  | inr e ↦ rw e record {
    proper = ground (arith, v.proper);
    distinct = (out, v.distinct);
    at_last = v.at_last;
    chain = Chain-link_first c x xs n v out;
  }
]

-- `clist_lpeek` is the first node, `clist_rpeek` the last.
pub peeks :
    (c : Clist) (x : ℕ) (xs : List ℕ) → IsClist c (x ∷ xs) → (lpeek c ≡ x) × (rpeek c ≡ last x xs)
unfolding lpeek rpeek
peeks c x xs v = ground (arith, next_links c x xs v, next-ne-null c x xs v, v.at_last)
