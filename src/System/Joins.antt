-- ===== src/System/Joins.antt =====
-- A thread that joins its run queue: the active thread stays the first of its own.
use sancus_riot.Common.{
  ℕ, ◌≡◌, refl, sym, ◌≢◌, ◌∙◌, has, List, [], ◌∷◌, ◌++◌, true, arith, ◌==◌, Bool-cases, inl, inr,
}
use mathlib.Core.Path.{subst}
use sancus_riot.Kernel.{Kernel, Status, on_runqueue}
use sancus_riot.Runqueue.{set_status}
use sancus_riot.Runqueue.Invariant.{Queues}
use sancus_riot.Runqueue.Scheduled.{
  IsHead, requeue, requeued, active-set_status, threads-set_status,
}
use sancus_riot.Sched.Ready.{Keeps-threads}
use sancus_riot.System.Sound.{IsSettled, set_status-Sound}

pub has-head : (n : ℕ) (xs : List ℕ) → IsHead n xs → has n xs ≡ true
has-head n [] h = absurd h
has-head n (x ∷ xs) h = ground (arith, h)

IsHead-append : (n : ℕ) (xs ys : List ℕ) → IsHead n xs → IsHead n (xs ++ ys)
IsHead-append n [] ys h = absurd h
IsHead-append n (x ∷ xs) ys h = h

requeue-IsHead :
    (k : Kernel) (qs : Queues) (n : ℕ) (s : Status) (m p : ℕ)
    → on_runqueue s ≡ true
    → IsHead m (qs p)
    → IsHead m (requeue k n s qs p)
unfolding requeue requeued
requeue-IsHead k qs n s m p on h = elim (Bool-cases (p == (k.threads n).priority)) [
  | inl e ↦
      let e' : p ≡ (k.threads n).priority = ground (arith, e) in
      let h' : IsHead m (qs (k.threads n).priority) = subst (λ q. IsHead m (qs q)) e' h in
      elim (Bool-cases (on_runqueue (k.threads n).status)) [
        | inl queued ↦ rw (e, on, queued) h'
        | inr off ↦ rw (e, on, off) (IsHead-append m (qs (k.threads n).priority) (n ∷ []) h')
      ]
  | inr e ↦ rw e h
]

level-set_status :
    (k : Kernel) (n : ℕ) (s : Status) (m : ℕ)
    → ((set_status k n s).threads m).priority ≡ (k.threads m).priority
level-set_status k n s =
    (Keeps-threads k (set_status k n s) n (record (k.threads n) { status = s })
      (threads-set_status k n s) refl refl).level

pub joined-Settled :
    (k : Kernel) (n : ℕ) (s : Status)
    → n ≢ 0
    → on_runqueue s ≡ true
    → IsSettled k
    → IsSettled (set_status k n s)
joined-Settled k n s nn on (qs, v, first) = (
  requeue k n s qs,
  set_status-Sound k qs n s nn (λ queued off. absurd (ground (arith, on, off))) v,
  elim first [
    | inl e ↦ inl (active-set_status k n s ∙ e)
    | inr h ↦ inr (
        subst (λ a. IsHead a (requeue k n s qs ((set_status k n s).threads a).priority))
          (sym (active-set_status k n s))
          (subst (λ p. IsHead k.active_thread (requeue k n s qs p))
            (sym (level-set_status k n s k.active_thread))
            (requeue-IsHead k qs n s k.active_thread (k.threads k.active_thread).priority on h)))
  ],
)
