-- ===== src/Entry/Yield.antt =====
-- A yield from outside, through the entry of the scheduler.
use sancus_riot.Common.{
  ℕ, ◌<◌, ◌≡◌, refl, sym, ap, ◌≢◌, ◌∙◌, Bool, true, false, some, List, [], ◌∷◌, ◌++◌, arith, ◌==◌,
  ◌||◌, Bool-cases, inl, inr,
}
use sancus_riot.Kernel.{Kernel, Thread, update, periodic_prio_level, is_running, pid_undef}
use sancus_riot.Runqueue.Invariant.{Queues}
use sancus_riot.Runqueue.Scheduled.{IsScheduled}
use sancus_riot.Sched.{with_thread, yield_higher_internal}
use sancus_riot.Sched.Pick.{OneRuns}
use sancus_riot.Sched.Yield.{TookTurn, yield-TookTurn}
use sancus_riot.Entry.{
  FunctionType, yield, is_exit, store_context, default_entry, dispatch, exitless_entry,
}

-- The scheduler's invariant does not speak of what the entry stores.
pub with_thread-IsScheduled :
    (k : Kernel) (qs : Queues) (n : ℕ) (t : Thread)
    → t.status ≡ (k.threads n).status
    → t.priority ≡ (k.threads n).priority
    → IsScheduled k qs
    → IsScheduled (with_thread k n t) qs
with_thread-IsScheduled k qs n t es ep v = record {
  holds = record { queues = v.holds.queues; cache = v.holds.cache; apart = v.holds.apart };
  exact = λ m. elim (Bool-cases (m == n)) [
    | inl e ↦ let e' : m ≡ n = ground (arith, e) in rw (e, ep, es, e') (v.exact n)
    | inr e ↦ rw e (v.exact m)
  ];
  placed = λ p m i. elim (Bool-cases (m == n)) [
    | inl e ↦
        let e' : m ≡ n = ground (arith, e) in
        rw (e, ep) (v.placed p m i ∙ ap (λ a. (k.threads a).priority) e')
    | inr e ↦ rw e (v.placed p m i)
  ];
  levels = λ m. elim (Bool-cases (m == n)) [
    | inl e ↦ rw (e, ep) (v.levels n)
    | inr e ↦ rw e (v.levels m)
  ];
}

status-with_thread :
    (k : Kernel) (n : ℕ) (t : Thread)
    → t.status ≡ (k.threads n).status
    → (m : ℕ) → ((with_thread k n t).threads m).status ≡ (k.threads m).status
status-with_thread k n t es m = elim (Bool-cases (m == n)) [
  | inl e ↦
      let e' : m ≡ n = ground (arith, e) in rw e (es ∙ ap (λ a. (k.threads a).status) (sym e'))
  | inr e ↦ rw e refl
]

with_thread-OneRuns :
    (k : Kernel) (n : ℕ) (t : Thread)
    → t.status ≡ (k.threads n).status
    → OneRuns k
    → OneRuns (with_thread k n t)
with_thread-OneRuns k n t es r = record {
  only = λ m i. r.only m (ap is_running (sym (status-with_thread k n t es m)) ∙ i);
}

store_context-IsScheduled :
    (k : Kernel) (qs : Queues) (f : FunctionType) (sp : ℕ) (protected : Bool)
    → IsScheduled k qs
    → IsScheduled (store_context f sp protected k) qs
unfolding store_context
store_context-IsScheduled k qs f sp protected v =
    elim (Bool-cases (k.active_thread == pid_undef || is_exit f)) [
      | inl e ↦ rw e v
      | inr e ↦ rw e (with_thread-IsScheduled k qs k.active_thread _ refl refl v)
    ]

store_context-OneRuns :
    (k : Kernel) (f : FunctionType) (sp : ℕ) (protected : Bool)
    → OneRuns k
    → OneRuns (store_context f sp protected k)
unfolding store_context
store_context-OneRuns k f sp protected r =
    elim (Bool-cases (k.active_thread == pid_undef || is_exit f)) [
      | inl e ↦ rw e r
      | inr e ↦ rw e (with_thread-OneRuns k k.active_thread _ refl r)
    ]

active-store_context :
    (k : Kernel) (f : FunctionType) (sp : ℕ) (protected : Bool)
    → (store_context f sp protected k).active_thread ≡ k.active_thread
unfolding store_context
active-store_context k f sp protected = ground arith

entry-yield :
    (fuel sp : ℕ) (protected c : Bool) (k k' : Kernel)
    → yield_higher_internal fuel true (store_context yield sp protected k) ≡ some (c, k')
    → exitless_entry fuel false yield sp protected k ≡ some (tt, k')
unfolding exitless_entry dispatch default_entry
entry-yield fuel sp protected c k k' e = ground (arith, e)

-- A thread that yields through the entry of the scheduler, with no timer interrupt pending, hands
-- over to the next thread of its priority. Let the scheduler's invariant hold and no other thread
-- than the active one run; let the active thread be first in the queue of its priority, let there
-- be another behind it, let that priority be the highest at which a thread is ready, and not that
-- of periodic jobs. Then the entry returns, whatever stack pointer and caller it is given: the
-- active thread goes to the end of its queue, the other queues are kept, and the thread behind it
-- becomes the one running thread.
pub exitless_entry-TookTurn :
    (fuel sp : ℕ) (protected : Bool) (k : Kernel) (qs : Queues) (p x y : ℕ) (rest : List ℕ)
    → IsScheduled k qs
    → OneRuns k
    → k.active_thread ≡ x
    → p < 16
    → p ≢ periodic_prio_level
    → qs p ≡ x ∷ y ∷ rest
    → ((j : ℕ) → j < p → qs j ≡ [])
    → (k' : Kernel) × (exitless_entry fuel false yield sp protected k ≡ some (tt, k'))
      × TookTurn k' (update qs p (y ∷ (rest ++ (x ∷ [])))) y
exitless_entry-TookTurn fuel sp protected k qs p x y rest v r act hp np e above =
    let (k', run, turn) =
      yield-TookTurn fuel (store_context yield sp protected k) qs p x y rest
        (store_context-IsScheduled k qs yield sp protected v)
        (store_context-OneRuns k yield sp protected r)
        (active-store_context k yield sp protected ∙ act) hp np e above in
    (k', entry-yield fuel sp protected true k k' run, turn)
