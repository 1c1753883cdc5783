-- ===== src/System/Leave.antt =====
-- Leaving the run queue keeps a sound state sound, for NULL and for the first of a queue.
use sancus_riot.Common.{
  ℕ, ◌≡◌, refl, sym, ap, ◌≢◌, ◌∙◌, ◌⊎◌, false, arith, ◌==◌, Bool-cases, inl, inr,
}
use mathlib.Core.Path.{subst}
use sancus_riot.Clist.Frame.{not-has-null}
use sancus_riot.Kernel.{Kernel, Status, on_runqueue, Thread}
use sancus_riot.Runqueue.{runqueue, set_status, with_status}
use sancus_riot.Runqueue.Invariant.{Queues}
use sancus_riot.Runqueue.Scheduled.{IsScheduled, IsHead, requeue}
use sancus_riot.Runqueue.SetStatus.{with_status-IsScheduled}
use sancus_riot.Sched.{with_thread}
use sancus_riot.Sched.Ready.{Keeps, Keeps-threads}
use sancus_riot.Entry.Yield.{with_thread-IsScheduled}
use sancus_riot.System.Sound.{Sound, IsSound, IsSettled, Sound-Keeps, set_status-Sound}

null_idle : (k : Kernel) (qs : Queues) → IsScheduled k qs → on_runqueue (k.threads 0).status ≡ false
null_idle k qs v =
    sym (v.exact 0)
    ∙ not-has-null (runqueue k (k.threads 0).priority) (qs (k.threads 0).priority)
        (v.holds.queues (k.threads 0).priority (v.levels 0))

set_status-idle :
    (k : Kernel) (n : ℕ) (s : Status)
    → on_runqueue (k.threads n).status ≡ false
    → on_runqueue s ≡ false
    → set_status k n s ≡ with_status k n s
unfolding set_status
set_status-idle k n s off stop = rw (off, stop) refl

pub left-Sound :
    (k : Kernel) (qs : Queues) (n : ℕ) (s : Status)
    → on_runqueue s ≡ false
    → (n ≡ 0) ⊎ IsHead n (qs (k.threads n).priority)
    → Sound k qs
    → IsSound (set_status k n s)
left-Sound k qs n s stop first v = elim (Bool-cases (n == 0)) [
  | inl e ↦
      let off : on_runqueue (k.threads n).status ≡ false =
        ap (λ m. on_runqueue (k.threads m).status) (ground (arith, e))
        ∙ null_idle k qs v.scheduled in
      subst IsSound (sym (set_status-idle k n s off stop)) (
        qs,
        Sound-Keeps k (with_status k n s) qs qs
            (with_status-IsScheduled k qs v.scheduled n s (stop ∙ sym off))
            (Keeps-threads k (with_status k n s) n (record (k.threads n) { status = s }) refl refl
              refl)
            v,
      )
  | inr e ↦
      let nn : n ≢ 0 = ground (arith, e) in
      (
        requeue k n s qs,
        set_status-Sound k qs n s nn (λ on off. elim first [ inl z ↦ absurd (nn z) | inr h ↦ h ]) v,
      )
]

-- A change of an entry that keeps its status, its priority and its pid.
pub with_thread-Sound :
    (k : Kernel) (qs : Queues) (n : ℕ) (t : Thread)
    → t.status ≡ (k.threads n).status
    → t.priority ≡ (k.threads n).priority
    → t.pid ≡ (k.threads n).pid
    → Sound k qs
    → Sound (with_thread k n t) qs
with_thread-Sound k qs n t es ep en s =
    Sound-Keeps k (with_thread k n t) qs qs (with_thread-IsScheduled k qs n t es ep s.scheduled)
      (Keeps-threads k (with_thread k n t) n t refl ep en) s

pub with_thread-Settled :
    (k : Kernel) (n : ℕ) (t : Thread)
    → t.status ≡ (k.threads n).status
    → t.priority ≡ (k.threads n).priority
    → t.pid ≡ (k.threads n).pid
    → IsSettled k
    → IsSettled (with_thread k n t)
with_thread-Settled k n t es ep en (qs, s, first) =
    let kept : Keeps k (with_thread k n t) = Keeps-threads k (with_thread k n t) n t refl ep en in
    (
      qs,
      with_thread-Sound k qs n t es ep en s,
      elim first [
        | inl e ↦ inl e
        | inr h ↦
            inr (subst (λ p. IsHead k.active_thread (qs p)) (sym (kept.level k.active_thread)) h)
      ],
    )
