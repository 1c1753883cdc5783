-- ===== src/Clist/Search.antt =====
-- The loops that walk once round a circular list: counting, searching and removing a node.
use sancus_riot.Common.{
  ℕ, zero, suc, ◌+◌, ◌≤◌, ◌<◌, ◌≡◌, Bool, true, false, some, List, [], ◌∷◌, arith, ◌==◌,
  if◌then◌else◌, Distinct, last, has-last, length,
}
use sancus_riot.Clist.{Clist, find_loop, find_before, foreach_loop, foreach, count_loop, count}
use sancus_riot.Clist.Chain.{null, Chain}
use sancus_riot.Clist.Queue.{IsClist, next-ne-null, next_links}

-- One round of a loop that starts at `a` and has the nodes `b, bs` before it.
record Ahead (c : Clist) (a b : ℕ) (bs : List ℕ) (fuel : ℕ) : Type 0 where
  enters : c.links a ≡ b
  rest : Chain c.links b bs (c.links c.next)
  ends : last b bs ≡ c.next
  distinct : Distinct (b ∷ bs)
  enough : length bs < fuel

Ahead-next :
    (c : Clist) (a b d : ℕ) (ds : List ℕ) (fuel : ℕ)
    → Ahead c a b (d ∷ ds) (suc fuel)
    → Ahead c b d ds fuel
Ahead-next c a b d ds fuel h = record {
  enters = h.rest.0;
  rest = h.rest.1;
  ends = h.ends;
  distinct = h.distinct.1;
  enough = omega (arith, h.enough);
}

-- The last node of the walk is the one that the list head points to, and no other.
at_end : (c : Clist) (a b : ℕ) (fuel : ℕ) → Ahead c a b [] fuel → b == c.next ≡ true
at_end c a b fuel h = ground (arith, h.ends)

not_at_end :
    (c : Clist) (a b d : ℕ) (ds : List ℕ) (fuel : ℕ)
    → Ahead c a b (d ∷ ds) fuel
    → b == c.next ≡ false
not_at_end c a b d ds fuel h = ground (arith, has-last d ds, h.ends, h.distinct)

Ahead-start :
    (c : Clist) (x : ℕ) (xs : List ℕ) (fuel : ℕ)
    → IsClist c (x ∷ xs)
    → length xs < fuel
    → Ahead c c.next x xs fuel
Ahead-start c x xs fuel v h = record {
  enters = next_links c x xs v;
  rest = rw (next_links c x xs v) v.chain;
  ends = v.at_last;
  distinct = v.distinct;
  enough = h;
}

count_loop-length :
    (c : Clist) (fuel a b : ℕ) (bs : List ℕ) (cnt : ℕ)
    → Ahead c a b bs fuel
    → count_loop fuel c a cnt ≡ some (cnt + length (b ∷ bs))
unfolding count_loop
count_loop-length c zero a b bs cnt h = absurd (omega (arith, h.enough))
count_loop-length c (suc fuel) a b [] cnt h = ground (arith, h.enters, at_end c a b (suc fuel) h)
count_loop-length c (suc fuel) a b (d ∷ ds) cnt h = ground (
  arith,
  h.enters,
  not_at_end c a b d ds (suc fuel) h,
  count_loop-length c fuel b d ds (cnt + 1) (Ahead-next c a b d ds fuel h),
)

-- `clist_count` returns the number of nodes of a well-formed list, and its loop ends within as
-- many rounds.
pub count-length :
    (c : Clist) (xs : List ℕ) (fuel : ℕ)
    → IsClist c xs
    → length xs ≤ fuel
    → count fuel c ≡ some (length xs)
unfolding count
count-length c [] fuel v h = ground arith
count-length c (x ∷ xs) fuel v h = ground (
  arith,
  next-ne-null c x xs v,
  count_loop-length c fuel c.next x xs 0 (Ahead-start c x xs fuel v (omega arith)),
)

-- The first node that `func` stops at, or NULL.
unfoldable pub first_match : (ℕ → Bool) → List ℕ → ℕ
first_match func [] = null
first_match func (x ∷ xs) = if func x then x else first_match func xs

foreach_loop-first_match :
    (c : Clist) (func : ℕ → Bool) (fuel a b : ℕ) (bs : List ℕ)
    → Ahead c a b bs fuel
    → foreach_loop fuel c func a ≡ some (first_match func (b ∷ bs))
unfolding foreach_loop first_match
foreach_loop-first_match c func zero a b bs h = absurd (omega (arith, h.enough))
foreach_loop-first_match c func (suc fuel) a b [] h =
    ground (arith, h.enters, at_end c a b (suc fuel) h)
foreach_loop-first_match c func (suc fuel) a b (d ∷ ds) h = ground (
  arith,
  h.enters,
  not_at_end c a b d ds (suc fuel) h,
  foreach_loop-first_match c func fuel b d ds (Ahead-next c a b d ds fuel h),
)

-- `clist_foreach` visits the nodes of a well-formed list from the first on: it returns the first
-- node at which the callback answers nonzero, and NULL if there is none.
pub foreach-first_match :
    (c : Clist) (func : ℕ → Bool) (xs : List ℕ) (fuel : ℕ)
    → IsClist c xs
    → length xs ≤ fuel
    → foreach fuel c func ≡ some (first_match func xs)
unfolding foreach first_match
foreach-first_match c func [] fuel v h = ground arith
foreach-first_match c func (x ∷ xs) fuel v h = ground (
  arith,
  next-ne-null c x xs v,
  foreach_loop-first_match c func fuel c.next x xs (Ahead-start c x xs fuel v (omega arith)),
)

-- The node whose pointer leads to `node`, on the way from `a` through `xs` to `z`, or NULL.
unfoldable pub before : ℕ → ℕ → List ℕ → ℕ → ℕ
before node a [] z = if z == node then a else null
before node a (x ∷ xs) z = if x == node then a else before node x xs z

find_loop-before :
    (c : Clist) (node fuel a b : ℕ) (bs : List ℕ)
    → Ahead c a b bs fuel
    → find_loop fuel c node a ≡ some (before node b bs (c.links c.next))
unfolding find_loop before
find_loop-before c node zero a b bs h = absurd (omega (arith, h.enough))
find_loop-before c node (suc fuel) a b [] h =
    ground (arith, h.enters, h.rest, at_end c a b (suc fuel) h)
find_loop-before c node (suc fuel) a b (d ∷ ds) h = ground (
  arith,
  h.enters,
  h.rest,
  not_at_end c a b d ds (suc fuel) h,
  find_loop-before c node fuel b d ds (Ahead-next c a b d ds fuel h),
)

pub find_before-before :
    (c : Clist) (node x : ℕ) (xs : List ℕ) (fuel : ℕ)
    → IsClist c (x ∷ xs)
    → length xs < fuel
    → find_before fuel c node ≡ some (before node x xs x)
unfolding find_before
find_before-before c node x xs fuel v h = ground (
  arith,
  next-ne-null c x xs v,
  next_links c x xs v,
  find_loop-before c node fuel c.next x xs (Ahead-start c x xs fuel v h),
)
