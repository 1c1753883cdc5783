-- ===== src/System/Sound.antt =====
-- The invariant of the scheduler as a whole, between the calls and inside them.
use sancus_riot.Common.{ℕ, ◌≡◌, refl, sym, ap, ◌≢◌, ◌∙◌, ◌⊎◌, true, false, inl, inr}
use sancus_riot.Kernel.{Kernel, Status, Thread, on_runqueue, periodic_prio_level}
use sancus_riot.Kernel.Within.{Same}
use sancus_riot.Runqueue.{set_status}
use sancus_riot.Runqueue.Invariant.{Queues}
use sancus_riot.Runqueue.Scheduled.{
  IsScheduled, IsScheduled-frame, IsHead, requeue, threads-set_status,
}
use sancus_riot.Runqueue.SetStatus.{set_status-IsScheduled}
use sancus_riot.Sched.Ready.{Keeps, Keeps-threads}

-- The scheduler's invariant, without periodic jobs, and with entries that know their own pid, or
-- were never used.
pub record Sound (k : Kernel) (qs : Queues) : Type 0 where
  pub scheduled : IsScheduled k qs
  pub aperiodic : (n : ℕ) → (k.threads n).priority ≢ periodic_prio_level
  pub named : (n : ℕ) → ((k.threads n).pid ≡ n) ⊎ ((k.threads n).pid ≡ 0)

-- No thread is active, or the active one is the first of its run queue.
abbrev pub IsFirst : Kernel → Queues → Type 0
IsFirst k qs =
    (k.active_thread ≡ 0) ⊎ IsHead k.active_thread (qs (k.threads k.active_thread).priority)

-- Some run queues make the variables sound.
abbrev pub IsSound : Kernel → Type 0
IsSound k = (qs : Queues) × Sound k qs

-- What holds whenever the scheduler is not executing.
abbrev pub IsSettled : Kernel → Type 0
IsSettled k = (qs : Queues) × Sound k qs × IsFirst k qs

-- What holds while timers are shot: the active thread may have lost its place, if another choice is
-- asked for.
abbrev pub IsPending : Kernel → Type 0
IsPending k = (qs : Queues) × Sound k qs × (k.switch_request ≡ true ⊎ IsFirst k qs)

pub Sound-Keeps :
    (k k' : Kernel) (qs qs' : Queues) → IsScheduled k' qs' → Keeps k k' → Sound k qs → Sound k' qs'
Sound-Keeps k k' qs qs' v c s = record {
  scheduled = v;
  aperiodic = λ n e. s.aperiodic n (sym (c.level n) ∙ e);
  named = λ n. elim (s.named n) [ inl e ↦ inl (c.name n ∙ e) | inr e ↦ inr (c.name n ∙ e) ];
}

pub Keeps-Same : (k k' : Kernel) → k'.threads ≡ k.threads → Keeps k k'
Keeps-Same k k' e = record {
  level = λ n. ap (λ (t : ℕ → Thread). (t n).priority) e;
  name = λ n. ap (λ (t : ℕ → Thread). (t n).pid) e;
}

pub Sound-Same : (k k' : Kernel) (qs : Queues) → Same k k' → Sound k qs → Sound k' qs
Sound-Same k k' qs f s =
    Sound-Keeps k k' qs qs
      (IsScheduled-frame k k' qs f.threads f.links f.queues f.cache s.scheduled)
      (Keeps-Same k k' f.threads) s

pub IsFirst-Same : (k k' : Kernel) (qs : Queues) → Same k k' → IsFirst k qs → IsFirst k' qs
IsFirst-Same k k' qs f (inl e) = inl (f.active ∙ e)
IsFirst-Same k k' qs f (inr h) = inr (rw (f.threads, f.active) h)

pub IsSettled-Same : (k k' : Kernel) → Same k k' → IsSettled k → IsSettled k'
IsSettled-Same k k' f (qs, s, h) = (qs, Sound-Same k k' qs f s, IsFirst-Same k k' qs f h)

pub IsPending-Same : (k k' : Kernel) → Same k k' → IsPending k → IsPending k'
IsPending-Same k k' f (qs, s, h) = (
  qs,
  Sound-Same k k' qs f s,
  elim h [ inl e ↦ inl (f.request ∙ e) | inr g ↦ inr (IsFirst-Same k k' qs f g) ],
)

set_status-Keeps : (k : Kernel) (n : ℕ) (s : Status) → Keeps k (set_status k n s)
set_status-Keeps k n s =
    Keeps-threads k (set_status k n s) n (record (k.threads n) { status = s })
      (threads-set_status k n s) refl refl

pub set_status-Sound :
    (k : Kernel) (qs : Queues) (n : ℕ) (s : Status)
    → n ≢ 0
    → (on_runqueue (k.threads n).status ≡ true
        → on_runqueue s ≡ false
        → IsHead n (qs (k.threads n).priority))
    → Sound k qs
    → Sound (set_status k n s) (requeue k n s qs)
set_status-Sound k qs n s nn head v =
    Sound-Keeps k (set_status k n s) qs (requeue k n s qs)
      (set_status-IsScheduled k qs v.scheduled n s nn head) (set_status-Keeps k n s) v
