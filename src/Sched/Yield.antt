-- ===== src/Sched/Yield.antt =====
-- `sched_yield` and a yield as a whole: threads of one priority take turns.
use sancus_riot.Common.{
  ℕ, ◌<◌, ◌≡◌, refl, sym, ap, ◌≢◌, ◌∙◌, Bool, true, false, not, some, List, [], ◌∷◌, ◌++◌, arith,
  ◌==◌, has, has-append, Bool-cases, inl, inr,
}
use mathlib.Core.Path.{subst}
use sancus_riot.Clist.{lpoprpush}
use sancus_riot.Clist.Queue.{IsClist, lpoprpush-IsClist}
use sancus_riot.Clist.Frame.{lpoprpush-frame}
use sancus_riot.Kernel.{Kernel, running, on_runqueue, update, periodic_prio_level}
use sancus_riot.Runqueue.{runqueue, set_runqueue, sm_clist_lpoprpush}
use sancus_riot.Runqueue.Invariant.{Queues, set_queue, empty_bit, snoc_bit}
use sancus_riot.Runqueue.Scheduled.{IsScheduled}
use sancus_riot.Sched.{sched_yield, yield_higher_internal, interrupted_job, sched_run_internal}
use sancus_riot.Sched.Pick.{IsNext, OneRuns, on_runqueue_of_has}
use sancus_riot.Sched.Run.{ne-null_of_has, sched_run_internal-Switched}

-- The kernel after the rotation of run queue `p`.
abbrev pub rotated : Kernel → ℕ → Kernel
rotated k p = set_runqueue k p (sm_clist_lpoprpush (runqueue k p))

has-rotate : (m x : ℕ) (xs : List ℕ) → has m (xs ++ (x ∷ [])) ≡ has m (x ∷ xs)
has-rotate m x xs = ground (arith, has-append m xs (x ∷ []))

pub rotated-IsScheduled :
    (k : Kernel) (qs : Queues) (p x : ℕ) (rest : List ℕ)
    → IsScheduled k qs
    → p < 16
    → qs p ≡ x ∷ rest
    → IsScheduled (rotated k p) (update qs p (rest ++ (x ∷ [])))
unfolding sm_clist_lpoprpush
rotated-IsScheduled k qs p x rest v hp e = record {
  holds = record {
    queues =
        set_queue k qs v.holds p (lpoprpush (runqueue k p)) (rest ++ (x ∷ [])) hp turned
          (λ q m i ne. rw (lpoprpush-frame (runqueue k p)) refl);
    cache = λ q hq. elim (Bool-cases (q == p)) [
      | inl s ↦
          let s' : q ≡ p = ground arith in
          rw (s, snoc_bit rest x)
            (v.holds.cache q hq ∙ ap (λ a. empty_bit (qs a)) s' ∙ ap empty_bit e)
      | inr s ↦ rw s (v.holds.cache q hq)
    ];
    apart = λ q r m i j. v.holds.apart q r m (old q m i) (old r m j);
  };
  exact = λ n. same (k.threads n).priority n ∙ v.exact n;
  placed = λ q n i. v.placed q n (old q n i);
  levels = v.levels;
}
  where
    turned : IsClist (lpoprpush (runqueue k p)) (rest ++ (x ∷ []))
    turned =
        lpoprpush-IsClist (runqueue k p) x rest
          (subst (IsClist (runqueue k p)) e (v.holds.queues p hp))

    same : (q m : ℕ) → has m (update qs p (rest ++ (x ∷ [])) q) ≡ has m (qs q)
    same q m = elim (Bool-cases (q == p)) [
      | inl s ↦
          let s' : q ≡ p = ground arith in
          rw s (has-rotate m x rest ∙ ap (has m) (sym e) ∙ ap (λ a. has m (qs a)) (sym s'))
      | inr s ↦ rw s refl
    ]

    old : (q m : ℕ) → has m (update qs p (rest ++ (x ∷ [])) q) ≡ true → has m (qs q) ≡ true
    old q m i = sym (same q m) ∙ i

pub sched_yield-rotated :
    (fuel : ℕ) (k : Kernel) (p : ℕ)
    → k.active_thread ≢ 0
    → (k.threads k.active_thread).priority ≡ p
    → p ≢ periodic_prio_level
    → on_runqueue (k.threads k.active_thread).status ≡ true
    → sched_yield fuel k ≡ some (tt, rotated k p)
unfolding sched_yield
sched_yield-rotated fuel k p nn e np on = rw (on, e) (ground arith)

-- What a yield leaves when `y` comes next.
pub record TookTurn (k : Kernel) (qs : Queues) (y : ℕ) : Type 0 where
  pub scheduled : IsScheduled k qs
  pub active : k.active_thread ≡ y
  pub runs : (k.threads y).status ≡ running
  pub one_runs : OneRuns k
  pub request : k.switch_request ≡ false

yield-run :
    (fuel : ℕ) (k k' k'' : Kernel) (c : Bool)
    → sched_yield fuel k ≡ some (tt, k')
    → sched_run_internal fuel k' ≡ some (c, k'')
    → yield_higher_internal fuel true k ≡ some (c, k'')
unfolding yield_higher_internal
yield-run fuel k k' k'' c y r = ground arith

pub interrupted-not_periodic :
    (k : Kernel)
    → (k.threads k.active_thread).priority ≢ periodic_prio_level
    → interrupted_job k ≡ false
unfolding interrupted_job
interrupted-not_periodic k h = ground arith

-- Threads of one priority take turns. Let the scheduler's invariant hold and no other thread than
-- the active one run; let the active thread be first in the queue of its priority, let there be
-- another behind it, let that priority be the highest at which a thread is ready, and not that of
-- periodic jobs. Then a yield returns, the active thread goes to the end of its queue, the other
-- queues are kept, and the thread behind it becomes the one running thread.
pub yield-TookTurn :
    (fuel : ℕ) (k : Kernel) (qs : Queues) (p x y : ℕ) (rest : List ℕ)
    → IsScheduled k qs
    → OneRuns k
    → k.active_thread ≡ x
    → p < 16
    → p ≢ periodic_prio_level
    → qs p ≡ x ∷ y ∷ rest
    → ((j : ℕ) → j < p → qs j ≡ [])
    → (k' : Kernel) × (yield_higher_internal fuel true k ≡ some (true, k'))
      × TookTurn k' (update qs p (y ∷ (rest ++ (x ∷ [])))) y
yield-TookTurn fuel k qs p x y rest v r act hp np e above =
    let (c, k', run, s) =
      sched_run_internal-Switched fuel (rotated k p) turned y v' r' next np
        (interrupted-not_periodic (rotated k p) (rw level np)) in
    let c' : c ≡ true = s.flag ∙ ap not other in
    (
      k',
      yield-run fuel k (rotated k p) k' true yielded (run ∙ ap (λ b. some (b, k')) c'),
      record {
        scheduled = s.scheduled;
        active = s.active;
        runs = elim s.runs [ inl no_change ↦ absurd (ground (arith, c', no_change)) | inr on ↦ on ];
        one_runs = s.one_runs;
        request = s.request;
      },
    )
  where
    turned : Queues
    turned = update qs p (y ∷ (rest ++ (x ∷ [])))

    queued : has x (qs p) ≡ true
    queued = rw e (ground arith)

    level : (k.threads k.active_thread).priority ≡ p
    level = rw act (sym (v.placed p x queued))

    v' : IsScheduled (rotated k p) turned
    v' = rotated-IsScheduled k qs p x (y ∷ rest) v hp e

    r' : OneRuns (rotated k p)
    r' = record { only = r.only }

    yielded : sched_yield fuel k ≡ some (tt, rotated k p)
    yielded =
        sched_yield-rotated fuel k p (λ z. ne-null_of_has k qs p x v hp queued (sym act ∙ z)) level
          np (rw act (on_runqueue_of_has k qs p x v queued))

    next : IsNext turned y
    next = record {
      level = p;
      rest = rest ++ (x ∷ []);
      in_range = hp;
      first = let s : p == p ≡ true = ground arith in rw s refl;
      above = λ j lt. ground (arith, above j lt);
    }

    other : (rotated k p).active_thread == y ≡ false
    other = ground (arith, (subst (IsClist (runqueue k p)) e (v.holds.queues p hp)).distinct)
