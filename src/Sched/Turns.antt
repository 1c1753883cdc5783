-- ===== src/Sched/Turns.antt =====
-- Yields one after the other: every thread of the highest priority gets its turn.
use sancus_riot.Common.{
  ℕ, zero, suc, ◌<◌, ◌≡◌, refl, ap, ◌≢◌, ◌∙◌, true, Option, none, some, List, [], ◌∷◌, ◌++◌, arith,
  ◌==◌, length,
}
use mathlib.Core.List.{append_assoc}
use sancus_riot.Kernel.{Kernel, running, update, periodic_prio_level}
use sancus_riot.Runqueue.Invariant.{Queues}
use sancus_riot.Runqueue.Scheduled.{IsScheduled}
use sancus_riot.Sched.{yield_higher_internal}
use sancus_riot.Sched.Pick.{OneRuns}
use sancus_riot.Sched.Yield.{yield-TookTurn}

-- So many yields, each by the thread that is active then.
unfoldable pub yields : ℕ → ℕ → Kernel → Option Kernel
yields fuel zero k = some k
yields fuel (suc n) k = elim (yield_higher_internal fuel true k) [
  | none ↦ none
  | some (_, k') ↦ yields fuel n k'
]

yields-suc :
    (fuel n : ℕ) (k k' : Kernel)
    → yield_higher_internal fuel true k ≡ some (true, k')
    → yields fuel (suc n) k ≡ yields fuel n k'
unfolding yields
yields-suc fuel n k k' e = ground (arith, e)

yields-zero : (fuel : ℕ) (k : Kernel) → yields fuel zero k ≡ some k
unfolding yields
yields-zero fuel k = refl

update_self : (qs : Queues) (p : ℕ) (xs : List ℕ) → update qs p xs p ≡ xs
update_self qs p xs = rw self refl
  where
    self : p == p ≡ true
    self = ground arith

-- What holds when the thread `y` has its turn.
pub record HasTurn (fuel n : ℕ) (k : Kernel) (y : ℕ) : Type 0 where
  pub after : Kernel
  pub returns : yields fuel n k ≡ some after
  pub active : after.active_thread ≡ y
  pub runs : (after.threads y).status ≡ running
  pub one_runs : OneRuns after

-- Every thread of the highest priority gets its turn. Let the scheduler's invariant hold and no
-- other thread than the active one run; let the active thread be first in the queue of its
-- priority, let that priority be the highest at which a thread is ready, and not that of periodic
-- jobs. Then for each thread behind it, with a number of threads between them, that many yields
-- and one more, each by the thread that is active then, all return, and leave it the one running
-- thread.
pub yields-HasTurn :
    (fuel : ℕ) (k : Kernel) (qs : Queues) (p x y : ℕ) (pre post : List ℕ)
    → IsScheduled k qs
    → OneRuns k
    → k.active_thread ≡ x
    → p < 16
    → p ≢ periodic_prio_level
    → qs p ≡ x ∷ (pre ++ (y ∷ post))
    → ((j : ℕ) → j < p → qs j ≡ [])
    → HasTurn fuel (suc (length pre)) k y
yields-HasTurn fuel k qs p x y [] post v r act hp np e above =
    let (k', run, turn) = yield-TookTurn fuel k qs p x y post v r act hp np e above in
    record {
      after = k';
      returns = yields-suc fuel zero k k' run ∙ yields-zero fuel k';
      active = turn.active;
      runs = turn.runs;
      one_runs = turn.one_runs;
    }
yields-HasTurn fuel k qs p x y (z ∷ pre) post v r act hp np e above =
    let (k', run, turn) =
      yield-TookTurn fuel k qs p x z (pre ++ (y ∷ post)) v r act hp np e above in
    let next : Queues = update qs p (z ∷ ((pre ++ (y ∷ post)) ++ (x ∷ []))) in
    let rest =
      yields-HasTurn fuel k' next p z y pre (post ++ (x ∷ [])) turn.scheduled turn.one_runs
        turn.active hp np
        (update_self qs p (z ∷ ((pre ++ (y ∷ post)) ++ (x ∷ [])))
          ∙ ap (λ xs. z ∷ xs) (append_assoc pre (y ∷ post) (x ∷ [])))
        (λ j lt. ground (arith, lt, above j lt)) in
    record {
      after = rest.after;
      returns = yields-suc fuel (suc (length pre)) k k' run ∙ rest.returns;
      active = rest.active;
      runs = rest.runs;
      one_runs = rest.one_runs;
    }
