-- ===== src/SecureMintimer/TimerList/Order.antt =====
-- The order of the timer lists: by target, or by long target and then target.
use sancus_riot.Common.{
  ℕ, ◌<◌, ◌≡◌, refl, ◌∙◌, ◌≢◌, Bool, true, false, some, List, [], ◌∷◌, arith, has, length, Distinct,
  Bool-cases, inl, inr,
}
use sancus_riot.Kernel.{Timer}
use sancus_riot.SecureMintimer.TimerList.{Timers, null, not_after, not_after_long, add_timer}
use sancus_riot.SecureMintimer.TimerList.Walk.{Linked, insert}
use sancus_riot.SecureMintimer.TimerList.Insert.{SameTimes, add_timer-insert}

-- The test of a list: it reads the times of the two timers alone, and one of two timers goes first.
pub record IsOrder (before : Timer → Timer → Bool) : Type 0 where
  pub total : (a b : Timer) → before a b ≡ false → before b a ≡ true
  pub respects :
      (ts ts' : Timers) (a b : ℕ) → SameTimes ts ts' → before (ts' a) (ts' b) ≡ before (ts a) (ts b)

pub not_after-IsOrder : IsOrder not_after
unfolding not_after
not_after-IsOrder = record {
  total = λ a b h. ground arith;
  respects = λ ts ts' a b same. rw ((same a).0, (same b).0) refl;
}

pub not_after_long-IsOrder : IsOrder not_after_long
unfolding not_after_long
not_after_long-IsOrder = record {
  total = λ a b h. ground arith;
  respects = λ ts ts' a b same. rw ((same a).0, (same b).0, (same a).1, (same b).1) refl;
}

abbrev Follows : (Timer → Timer → Bool) → Timers → ℕ → List ℕ → Type 0
Follows before ts x [] = Unit
Follows before ts x (y ∷ ys) = before (ts x) (ts y) ≡ true

-- Each timer goes before the one behind it.
abbrev pub InOrder : (Timer → Timer → Bool) → Timers → List ℕ → Type 0
InOrder before ts [] = Unit
InOrder before ts (x ∷ xs) = Follows before ts x xs × InOrder before ts xs

module _ (before : Timer → Timer → Bool) (o : IsOrder before) where
  Follows-insert :
      (ts : Timers) (timer x : ℕ) (xs : List ℕ)
      → before (ts x) (ts timer) ≡ true
      → Follows before ts x xs
      → Follows before ts x (insert before ts timer xs)
  unfolding insert
  Follows-insert ts timer x [] b f = b
  Follows-insert ts timer x (y ∷ ys) b f = elim (Bool-cases (before (ts y) (ts timer))) [
    | inl c ↦ rw c f
    | inr c ↦ rw c b
  ]

  insert-InOrder :
      (ts : Timers) (timer : ℕ) (xs : List ℕ)
      → InOrder before ts xs
      → InOrder before ts (insert before ts timer xs)
  unfolding insert
  insert-InOrder ts timer [] i = (tt, tt)
  insert-InOrder ts timer (x ∷ xs) i = elim (Bool-cases (before (ts x) (ts timer))) [
    | inl b ↦ rw b (Follows-insert ts timer x xs b i.0, insert-InOrder ts timer xs i.1)
    | inr b ↦ rw b (o.total (ts x) (ts timer) b, i)
  ]

  Follows-same :
      (ts ts' : Timers) (x : ℕ) (xs : List ℕ)
      → SameTimes ts ts'
      → Follows before ts x xs
      → Follows before ts' x xs
  Follows-same ts ts' x [] s f = tt
  Follows-same ts ts' x (y ∷ ys) s f = o.respects ts ts' x y s ∙ f

  InOrder-same :
      (ts ts' : Timers) (xs : List ℕ)
      → SameTimes ts ts'
      → InOrder before ts xs
      → InOrder before ts' xs
  InOrder-same ts ts' [] s i = tt
  InOrder-same ts ts' (x ∷ xs) s i = (Follows-same ts ts' x xs s i.0, InOrder-same ts ts' xs s i.1)

-- With a list test that is a total order on the times, adding a timer that is in no list to a
-- timer list in order ends, and leaves a list that holds the old timers and the new one, in that
-- order, behind those with equal time; no time changes.
pub add_timer-InOrder :
    (fuel : ℕ) (before : Timer → Timer → Bool) (ts : Timers) (head timer : ℕ) (xs : List ℕ)
    → IsOrder before
    → timer ≢ null
    → Distinct xs
    → has timer xs ≡ false
    → Linked ts head xs
    → InOrder before ts xs
    → length xs < fuel
    → (head' : ℕ) × (ts' : Timers) × (add_timer fuel before ts head timer ≡ some (head', ts'))
      × Linked ts' head' (insert before ts timer xs)
      × InOrder before ts' (insert before ts timer xs)
      × SameTimes ts ts'
add_timer-InOrder fuel before ts head timer xs o nn d out l i h =
    let a = add_timer-insert fuel before ts head timer xs nn d out l h in
    (
      a.head_after,
      a.timers_after,
      a.returns,
      a.linked,
      InOrder-same before o ts a.timers_after (insert before ts timer xs) a.same
          (insert-InOrder before o ts timer xs i),
      a.same,
    )
