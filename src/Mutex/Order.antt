-- ===== src/Mutex/Order.antt =====
-- Where a thread that waits for a mutex stands among the others.
use sancus_riot.Common.{
  ℕ, ◌≤◌, ◌<◌, ◌≡◌, refl, ap, List, [], ◌∷◌, ◌++◌, arith, ltb, length, inl, inr, Bool-cases,
}
use sancus_riot.Kernel.{Kernel}
use sancus_riot.Runqueue.Invariant.{Queues}
use sancus_riot.Mutex.{wait_fuel}
use sancus_riot.Mutex.Unlock.{IsLocked}
use sancus_riot.Mutex.Insert.{insert}
use sancus_riot.Mutex.Enqueue.{Begins, Enqueued, enqueue-Enqueued}

-- All priority numbers are at most, at least, or greater than `p`.
abbrev pub AtMost : Kernel → ℕ → List ℕ → Type 0
AtMost k p [] = Unit
AtMost k p (w ∷ ws) = ((k.threads w).priority ≤ p) × AtMost k p ws

abbrev pub AtLeast : Kernel → ℕ → List ℕ → Type 0
AtLeast k p [] = Unit
AtLeast k p (w ∷ ws) = (p ≤ (k.threads w).priority) × AtLeast k p ws

abbrev pub Above : Kernel → ℕ → List ℕ → Type 0
Above k p [] = Unit
Above k p (w ∷ ws) = (p < (k.threads w).priority) × Above k p ws

-- The numbers do not fall along the list.
abbrev pub IsSorted : Kernel → List ℕ → Type 0
IsSorted k [] = Unit
IsSorted k (w ∷ ws) = AtLeast k (k.threads w).priority ws × IsSorted k ws

-- `thread` stands behind those with at most its number and before the others, in a sorted list.
pub record Placed (k : Kernel) (thread : ℕ) (ws after : List ℕ) : Type 0 where
  pub front : List ℕ
  pub back : List ℕ
  pub before : ws ≡ front ++ back
  pub joined : after ≡ front ++ (thread ∷ back)
  pub ahead : AtMost k (k.threads thread).priority front
  pub behind : Above k (k.threads thread).priority back
  pub sorted : IsSorted k after

AtLeast-Above : (k : Kernel) (p q : ℕ) (ws : List ℕ) → p < q → AtLeast k q ws → Above k p ws
AtLeast-Above k p q [] l a = tt
AtLeast-Above k p q (w ∷ ws) l a = (omega (arith, l, a.0), AtLeast-Above k p q ws l a.1)

Above-AtLeast : (k : Kernel) (p : ℕ) (ws : List ℕ) → Above k p ws → AtLeast k p ws
Above-AtLeast k p [] a = tt
Above-AtLeast k p (w ∷ ws) a = (omega (arith, a.0), Above-AtLeast k p ws a.1)

AtLeast-insert :
    (k : Kernel) (p thread : ℕ) (ws : List ℕ)
    → p ≤ (k.threads thread).priority
    → AtLeast k p ws
    → AtLeast k p (insert k (k.threads thread).priority thread ws)
unfolding insert
AtLeast-insert k p thread [] l a = (l, tt)
AtLeast-insert k p thread (w ∷ ws) l a =
    elim (Bool-cases (ltb (k.threads thread).priority (k.threads w).priority)) [
      | inl e ↦ rw e (l, a)
      | inr e ↦ rw e (a.0, AtLeast-insert k p thread ws l a.1)
    ]

insert-Placed :
    (k : Kernel) (thread : ℕ) (ws : List ℕ)
    → IsSorted k ws
    → Placed k thread ws (insert k (k.threads thread).priority thread ws)
unfolding insert
insert-Placed k thread [] s = record {
  front = [];
  back = [];
  before = refl;
  joined = refl;
  ahead = tt;
  behind = tt;
  sorted = (tt, tt);
}
insert-Placed k thread (w ∷ ws) s =
    elim (Bool-cases (ltb (k.threads thread).priority (k.threads w).priority)) [
      | inl e ↦
          let l : (k.threads thread).priority < (k.threads w).priority = ground (arith, e) in
          let rest = AtLeast-Above k (k.threads thread).priority (k.threads w).priority ws l s.0 in
          rw e record {
            front = [];
            back = w ∷ ws;
            before = refl;
            joined = refl;
            ahead = tt;
            behind = (l, rest);
            sorted = ((omega (arith, l), Above-AtLeast k (k.threads thread).priority ws rest), s);
          }
      | inr e ↦
          let l : (k.threads w).priority ≤ (k.threads thread).priority = ground (arith, e) in
          let r = insert-Placed k thread ws s.1 in
          rw e record {
            front = w ∷ r.front;
            back = r.back;
            before = ap (λ xs. w ∷ xs) r.before;
            joined = ap (λ xs. w ∷ xs) r.joined;
            ahead = (l, r.ahead);
            behind = r.behind;
            sorted = (AtLeast-insert k (k.threads w).priority thread ws l s.0, r.sorted);
          }
    ]

-- Let the scheduler's invariant hold, let the active thread be able to run and the first of its
-- run queue, and let fewer than 64 threads wait for a locked mutex, in a list on which the
-- priority numbers do not fall. Then the branch of `_mutex_lock` that waits ends at its yield: the
-- thread has left its run queue, it stands in the list of the mutex behind the threads whose
-- priority number is at most its own and before those whose number is greater, the others keep
-- their order and the numbers do not fall along the new list either, all of them are blocked, and
-- the scheduler's invariant is kept.
pub enqueue-Placed :
    (k : Kernel) (qs : Queues) (queue : ℕ) (ws : List ℕ)
    → Begins k qs
    → IsLocked k queue ws
    → length ws < wait_fuel
    → IsSorted k ws
    → Enqueued k qs queue ws
      × Placed k k.active_thread ws
          (insert k (k.threads k.active_thread).priority k.active_thread ws)
enqueue-Placed k qs queue ws b lock h s =
    (enqueue-Enqueued k qs queue ws b lock h, insert-Placed k k.active_thread ws s)
