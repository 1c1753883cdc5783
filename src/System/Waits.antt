-- ===== src/System/Waits.antt =====
-- Threads that sleep, wake others, wait for a mutex and release it: each keeps a settled state
-- settled.
use sancus_riot.Common.{
  ℕ, ◌≡◌, refl, sym, ◌∙◌, ◌&&◌, Bool, true, false, some, arith, Bool-cases, inl, inr, if◌then◌else◌,
}
use mathlib.Core.Path.{subst}
use sancus_riot.Kernel.{Kernel, Status, sleeping, running, on_runqueue, is_sleeping}
use sancus_riot.Kernel.Monad.{pure, ◌>>◌}
use sancus_riot.Kernel.Within.{state_of, bind-inv}
use sancus_riot.Runqueue.{sched_set_status}
use sancus_riot.Sched.{sched_set_own_status}
use sancus_riot.Entry.{Caller, thread_yield_higher}
use sancus_riot.Thread.{thread_wakeup, thread_sleep, pid_is_valid}
use sancus_riot.Thread.Wakeup.{wakes, refuses}
use sancus_riot.System.Sound.{IsSound, IsSettled}
use sancus_riot.System.Leave.{left-Sound}
use sancus_riot.System.Yields.{thread_yield_higher-Settled}
use sancus_riot.System.Ends.{sched_set_status-inv}
use sancus_riot.System.Joins.{joined-Settled}

pub wakeup-Settled :
    (pid : ℕ) (k k' : Kernel) (b : Bool)
    → IsSettled k
    → thread_wakeup pid k ≡ some (b, k')
    → IsSettled k'
unfolding pid_is_valid
wakeup-Settled pid k k' b s h =
    elim (Bool-cases (pid_is_valid pid && is_sleeping (k.threads pid).status)) [
      | inl e ↦
          let ok : pid_is_valid pid ≡ true = ground (arith, e) in
          let asleep : is_sleeping (k.threads pid).status ≡ true = ground (arith, e) in
          subst IsSettled (state_of (sym (wakes k pid ok asleep) ∙ h))
            (joined-Settled k pid running (λ z. ground (arith, ok, z)) refl s)
      | inr e ↦ subst IsSettled (state_of (sym (refuses k pid e) ∙ h)) s
    ]

-- The active thread leaves its run queue.
pub own_status-Sound :
    (st : Status) (k k' : Kernel) (u : Unit {0})
    → on_runqueue st ≡ false
    → IsSettled k
    → sched_set_status k.active_thread st k ≡ some (u, k')
    → IsSound k'
own_status-Sound st k k' u off (qs, s, first) h =
    subst IsSound (sched_set_status-inv k.active_thread st k k' u h)
      (left-Sound k qs k.active_thread st off first s)

pub thread_sleep-Settled :
    (fuel : ℕ) (c : Caller) (k k' : Kernel) (u : Unit {0})
    → IsSettled k
    → thread_sleep fuel c k ≡ some (u, k')
    → IsSettled k'
unfolding thread_sleep sched_set_own_status
thread_sleep-Settled fuel c k k' u s h = either k.irq_is_in h
  where
    either :
        (t : Bool)
        → (if t then pure tt else sched_set_own_status sleeping >> thread_yield_higher fuel c) k
          ≡ some (u, k')
        → IsSettled k'
    either true h = subst IsSettled (state_of h) s
    either false h =
        let (u1, k1, e, e') =
          bind-inv (sched_set_own_status sleeping) (λ _. thread_yield_higher fuel c) k k' u h in
        thread_yield_higher-Settled fuel c k1 k' u (own_status-Sound sleeping k k1 u1 refl s e) e'
