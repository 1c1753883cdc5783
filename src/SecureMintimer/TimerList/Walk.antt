-- ===== src/SecureMintimer/TimerList/Walk.antt =====
-- A timer list as the list of its timers, and the place that the walk along it finds.
use sancus_riot.Common.{
  ℕ, zero, suc, ◌<◌, ◌≡◌, refl, sym, ap, ◌∙◌, ◌≢◌, Bool, true, false, some, List, [], ◌∷◌, arith,
  if◌then◌else◌, has, length, Distinct, Bool-cases, inl, inr,
}
use mathlib.Core.Path.{subst}
use sancus_riot.Clist.Erase.{has-ne}
use sancus_riot.Kernel.{Timer}
use sancus_riot.SecureMintimer.TimerList.{Timers, null, set_next, walk}

-- From the pointer `a` the timers lead through `xs` to NULL.
abbrev pub Linked : Timers → ℕ → List ℕ → Type 0
Linked ts a [] = a ≡ null
Linked ts a (x ∷ xs) = (a ≡ x) × (x ≢ null) × Linked ts (ts x).next xs

-- The list with `timer` behind the entries that `before` puts first.
unfoldable pub insert : (Timer → Timer → Bool) → Timers → ℕ → List ℕ → List ℕ
insert before ts timer [] = timer ∷ []
insert before ts timer (x ∷ xs) =
    if before (ts x) (ts timer) then x ∷ insert before ts timer xs else timer ∷ x ∷ xs

pub Linked-frame :
    (ts ts' : Timers) (a : ℕ) (xs : List ℕ)
    → ((n : ℕ) → has n xs ≡ true → (ts' n).next ≡ (ts n).next)
    → Linked ts a xs
    → Linked ts' a xs
Linked-frame ts ts' a [] same l = l
Linked-frame ts ts' a (x ∷ xs) same l = (
  l.0,
  l.1,
  rw (same x (ground arith))
      (Linked-frame ts ts' (ts x).next xs (λ n i. same n (ground arith)) l.2),
)

-- The pointers after `timer` is put between `prev` and `cur`.
abbrev pub spliced : Timers → ℕ → ℕ → ℕ → Timers
spliced ts timer prev cur = set_next (set_next ts timer cur) prev timer

pub spliced-frame :
    (ts : Timers) (timer prev cur n : ℕ)
    → n ≢ timer
    → n ≢ prev
    → (spliced ts timer prev cur n).next ≡ (ts n).next
spliced-frame ts timer prev cur n h k = ground arith

-- Where the walk from `prev` ends, and what the list is when `timer` is put there.
pub record Place (fuel : ℕ) (before : Timer → Timer → Bool) (ts : Timers) (timer prev a : ℕ)
    (xs : List ℕ) : Type 0 where
  pub left : ℕ
  pub right : ℕ
  pub found : walk fuel (λ t. before t (ts timer)) ts prev a ≡ some (left, right)
  pub among : has left (prev ∷ xs) ≡ true
  pub linked :
      Linked
        (spliced ts timer left right)
        (spliced ts timer left right prev).next
        (insert before ts timer xs)

pub walk_stop :
    (fuel : ℕ) (p : Timer → Bool) (ts : Timers) (prev a : ℕ)
    → a ≢ null
    → p (ts a) ≡ false
    → walk (suc fuel) p ts prev a ≡ some (prev, a)
unfolding walk
walk_stop fuel p ts prev a n h = ground arith

pub walk_on :
    (fuel : ℕ) (p : Timer → Bool) (ts : Timers) (prev a : ℕ)
    → a ≢ null
    → p (ts a) ≡ true
    → walk (suc fuel) p ts prev a ≡ walk fuel p ts a (ts a).next
unfolding walk
walk_on fuel p ts prev a n h = ground arith

pub walk_end :
    (fuel : ℕ) (p : Timer → Bool) (ts : Timers) (prev : ℕ)
    → walk (suc fuel) p ts prev null ≡ some (prev, null)
unfolding walk
walk_end fuel p ts prev = ground arith

module _ (before : Timer → Timer → Bool) (ts : Timers) (timer : ℕ) (nn : timer ≢ null) where
  on :
      (fuel prev x : ℕ) (xs : List ℕ)
      → has x xs ≡ false
      → Distinct (prev ∷ x ∷ xs)
      → has timer (prev ∷ x ∷ xs) ≡ false
      → x ≢ null
      → (ts prev).next ≡ x
      → before (ts x) (ts timer) ≡ true
      → Place fuel before ts timer x (ts x).next xs
      → Place (suc fuel) before ts timer prev x (x ∷ xs)
  unfolding insert
  on fuel prev x xs dx d out n e b p = record {
    left = p.left;
    right = p.right;
    found = rw (walk_on fuel (λ t. before t (ts timer)) ts prev x n b) p.found;
    among = ground (arith, p.among);
    linked = rw b (kept, n, p.linked);
  }
    where
      kept : (spliced ts timer p.left p.right prev).next ≡ x
      kept =
          rw
            (spliced-frame ts timer p.left p.right prev (λ q. ground (arith, out))
              λ q. has-ne p.left prev (x ∷ xs) p.among d.0 (sym q))
            e

  stop :
      (fuel prev x : ℕ) (xs : List ℕ)
      → Distinct (prev ∷ x ∷ xs)
      → has timer (prev ∷ x ∷ xs) ≡ false
      → Linked ts x (x ∷ xs)
      → before (ts x) (ts timer) ≡ false
      → Place (suc fuel) before ts timer prev x (x ∷ xs)
  unfolding insert
  stop fuel prev x xs d out l b = record {
    left = prev;
    right = x;
    found = walk_stop fuel (λ t. before t (ts timer)) ts prev x l.1 b;
    among = ground arith;
    linked = rw b (ground arith, nn, (ground arith, l.1, rest));
  }
    where
      rest : Linked (spliced ts timer prev x) (spliced ts timer prev x x).next xs
      rest =
          rw (spliced-frame ts timer prev x x (λ q. ground (arith, out)) (λ q. ground (arith, d))) (
            Linked-frame ts (spliced ts timer prev x) (ts x).next xs
              (λ n i.
                spliced-frame ts timer prev x n (λ q. ground (arith, out, ap (λ m. has m xs) q))
                  λ q. ground (arith, d, ap (λ m. has m xs) q))
              l.2)

  pub place :
      (fuel prev a : ℕ) (xs : List ℕ)
      → length xs < fuel
      → Distinct (prev ∷ xs)
      → has timer (prev ∷ xs) ≡ false
      → Linked ts a xs
      → (ts prev).next ≡ a
      → Place fuel before ts timer prev a xs
  unfolding insert
  place zero prev a xs h d out l e = absurd (omega (arith, h))
  place (suc fuel) prev a [] h d out l e = record {
    left = prev;
    right = null;
    found = rw l (walk_end fuel (λ t. before t (ts timer)) ts prev);
    among = ground arith;
    linked = (ground arith, nn, ground arith);
  }
  place (suc fuel) prev a (x ∷ xs) h d out l e =
      subst (λ m. Place (suc fuel) before ts timer prev m (x ∷ xs)) (sym l.0)
        (elim (Bool-cases (before (ts x) (ts timer))) [
          | inl b ↦
              on fuel prev x xs d.1.0 d out l.1 (e ∙ l.0) b
                (place fuel x (ts x).next xs (omega (arith, h)) d.1 (ground (arith, out)) l.2 refl)
          | inr b ↦ stop fuel prev x xs d out (refl, l.1, l.2) b
        ])

-- The entries of a list are not NULL.
