-- ===== src/Sched/Run.antt =====
-- `sched_run_internal` as a whole, where no periodic job is involved.
use sancus_riot.Common.{ℕ, ◌<◌, ◌≡◌, sym, ap, ◌≢◌, ◌∙◌, Bool, true, false, some, arith, has}
use sancus_riot.Clist.Frame.{not-has-null}
use sancus_riot.Kernel.{Kernel, periodic_prio_level}
use sancus_riot.Runqueue.{runqueue}
use sancus_riot.Runqueue.Invariant.{Queues}
use sancus_riot.Runqueue.Scheduled.{IsScheduled}
use sancus_riot.Sched.{interrupted_job, switch_thread, arm_scheduler_timer, sched_run_internal}
use sancus_riot.Sched.Pick.{IsNext, OneRuns, Switched, ready, switch_thread-Switched}

pub ne-null_of_has :
    (k : Kernel) (qs : Queues) (p x : ℕ) → IsScheduled k qs → p < 16 → has x (qs p) ≡ true → x ≢ 0
ne-null_of_has k qs p x v hp i e =
    ground
      (arith, not-has-null (runqueue k p) (qs p) (v.holds.queues p hp), ap (λ n. has n (qs p)) e)

pub arm-not_periodic :
    (k : Kernel)
    → k.active_thread ≢ 0
    → (k.threads k.active_thread).priority ≢ periodic_prio_level
    → arm_scheduler_timer k ≡ some (tt, k)
unfolding arm_scheduler_timer
arm-not_periodic k h p = ground arith

pub sched_run-switch :
    (fuel : ℕ) (k k' : Kernel) (c : Bool)
    → interrupted_job k ≡ false
    → switch_thread k ≡ some (c, k')
    → arm_scheduler_timer k' ≡ some (tt, k')
    → sched_run_internal fuel k ≡ some (c, k')
unfolding sched_run_internal
sched_run-switch fuel k k' c j s a = ground arith

-- Where the scheduler's invariant holds and no other thread than the active one runs, a call of
-- `sched_run_internal` that interrupts no periodic job and whose next thread is not periodic
-- returns and switches to the first ready thread of the highest priority: that thread is active,
-- no other thread runs, the queues are kept, the switch request is cleared, and the result tells
-- whether the thread changed.
pub sched_run_internal-Switched :
    (fuel : ℕ) (k : Kernel) (qs : Queues) (x : ℕ)
    → IsScheduled k qs
    → OneRuns k
    → (i : IsNext qs x) → i.level ≢ periodic_prio_level
    → interrupted_job k ≡ false
    → (c : Bool) × (k' : Kernel) × (sched_run_internal fuel k ≡ some (c, k')) × Switched k qs x c k'
sched_run_internal-Switched fuel k qs x v r i np j =
    let (c, k', run, s) = switch_thread-Switched k qs x v r i in
    let on = ready k qs x v.holds i in
    let level : i.level ≡ (k'.threads x).priority = s.scheduled.placed i.level x on in
    (
      c,
      k',
      sched_run-switch fuel k k' c j run (
          arm-not_periodic k'
            (λ e. ne-null_of_has k qs i.level x v i.in_range on (sym s.active ∙ e))
            (λ e. np (level ∙ ap (λ n. (k'.threads n).priority) (sym s.active) ∙ e))),
      s,
    )
