-- ===== src/Thread/Wakeup.antt =====
-- Waking a thread.
use sancus_riot.Common.{
  refl, ◌⊎◌, ℕ, ◌≡◌, true, false, some, arith, Bool-cases, inl, inr, ◌&&◌, if◌then◌else◌,
}
use sancus_riot.Kernel.{Kernel, running, is_sleeping}
use sancus_riot.Runqueue.{set_status, sched_set_status}
use sancus_riot.Runqueue.Invariant.{Queues}
use sancus_riot.Runqueue.Scheduled.{IsScheduled, requeue, status-set_status}
use sancus_riot.Runqueue.SetStatus.{set_status-IsScheduled}
use sancus_riot.Thread.{pid_is_valid, thread_get, thread_wakeup}

pub wakes :
    (k : Kernel) (pid : ℕ)
    → pid_is_valid pid ≡ true
    → is_sleeping (k.threads pid).status ≡ true
    → thread_wakeup pid k ≡ some (true, set_status k pid running)
unfolding thread_wakeup thread_get pid_is_valid sched_set_status
wakes k pid v s = ground arith

pub refuses :
    (k : Kernel) (pid : ℕ)
    → (pid_is_valid pid && is_sleeping (k.threads pid).status) ≡ false
    → thread_wakeup pid k ≡ some (false, k)
unfolding thread_wakeup thread_get pid_is_valid sched_set_status
refuses k pid h = ground arith

woken :
    (k : Kernel) (qs : Queues) (pid : ℕ)
    → IsScheduled k qs
    → pid_is_valid pid ≡ true
    → is_sleeping (k.threads pid).status ≡ true
    → IsScheduled (set_status k pid running) (requeue k pid running qs)
unfolding pid_is_valid
woken k qs pid v ok s =
    set_status-IsScheduled k qs v pid running (λ e. ground (arith, ok)) (λ on off. ground arith)

-- `thread_wakeup` wakes exactly a thread of a valid pid that sleeps: it answers 1 and appends the
-- thread to the queue of its priority. In every other case it changes nothing and answers
-- STATUS_NOT_FOUND. The scheduler's invariant is kept.
pub thread_wakeup-IsScheduled :
    (k : Kernel) (qs : Queues) (pid : ℕ)
    → IsScheduled k qs
    → let wakes = pid_is_valid pid && is_sleeping (k.threads pid).status in
      (k' : Kernel) × (thread_wakeup pid k ≡ some (wakes, k'))
      × IsScheduled k' (if wakes then requeue k pid running qs else qs)
      × (k' ≡ (if wakes then set_status k pid running else k))
      × ((wakes ≡ false) ⊎ ((k'.threads pid).status ≡ running))
thread_wakeup-IsScheduled k qs pid v = elim (Bool-cases (pid_is_valid pid)) [
  | inl ok ↦ elim (Bool-cases (is_sleeping (k.threads pid).status)) [
    | inl s ↦
        rw (ok, s)
          (
            set_status k pid running,
            wakes k pid ok s,
            woken k qs pid v ok s,
            refl,
            inr (status-set_status k pid running),
          )
    | inr s ↦ rw (ok, s) (k, refuses k pid (ground (arith, s)), v, refl, inl refl)
  ]
  | inr bad ↦ rw bad (k, refuses k pid (ground (arith, bad)), v, refl, inl refl)
]
