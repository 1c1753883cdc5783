-- ===== src/System/Run.antt =====
-- Whatever sound state a yield or the choice of the next thread starts in: where it returns, it
-- leaves a settled one.
use sancus_riot.Common.{
  ℕ, ◌≡◌, refl, sym, ap, ◌≢◌, ◌∙◌, Bool, true, false, Option, none, some, List, [], ◌∷◌, ◌++◌,
  arith, ◌==◌, has, Bool-cases, inl, inr,
}
use mathlib.Core.Path.{subst}
use sancus_riot.Kernel.{Kernel, on_runqueue, periodic_prio_level, update}
use sancus_riot.Kernel.Within.{state_of, bind-inv}
use sancus_riot.Runqueue.Invariant.{Queues}
use sancus_riot.Runqueue.Scheduled.{IsHead}
use sancus_riot.Sched.{
  sched_yield, sched_run_internal, switch_thread, yield_higher_internal, interrupted_job,
  arm_scheduler_timer,
}
use sancus_riot.Sched.Run.{arm-not_periodic, sched_run-switch, ne-null_of_has}
use sancus_riot.Sched.Yield.{
  rotated, rotated-IsScheduled, sched_yield-rotated, interrupted-not_periodic,
}
use sancus_riot.Sched.Ready.{Chosen, switch_thread-Chosen}
use sancus_riot.System.Sound.{Sound, IsSound, IsSettled, Sound-Keeps, Keeps-Same}

Chosen-Settled : (k k' : Kernel) (qs : Queues) → Sound k qs → Chosen k qs k' → IsSettled k'
Chosen-Settled k k' qs s c = (qs, Sound-Keeps k k' qs qs c.scheduled c.kept s, inr head)
  where
    level : c.next.level ≡ (k'.threads k'.active_thread).priority
    level =
        c.scheduled.placed c.next.level c.thread (rw c.next.first (ground arith))
        ∙ ap (λ n. (k'.threads n).priority) (sym c.active)

    head : IsHead k'.active_thread (qs (k'.threads k'.active_thread).priority)
    head = subst (IsHead k'.active_thread) (sym (ap qs (sym level) ∙ c.next.first)) (sym c.active)

sched_run-none :
    (fuel : ℕ) (k : Kernel)
    → interrupted_job k ≡ false
    → switch_thread k ≡ none
    → sched_run_internal fuel k ≡ none
unfolding sched_run_internal
sched_run-none fuel k j e = ground (arith, e, j)

-- The choice of the next thread.
pub sched_run-Settled :
    (fuel : ℕ) (k k' : Kernel) (c : Bool)
    → IsSound k
    → sched_run_internal fuel k ≡ some (c, k')
    → IsSettled k'
sched_run-Settled fuel k k' c (qs, s) run = from (switch_thread k) refl
  where
    job : interrupted_job k ≡ false
    job = interrupted-not_periodic k (s.aperiodic k.active_thread)

    from : (r : Option (Bool × Kernel)) → switch_thread k ≡ r → IsSettled k'
    from none e = absurd (ground (arith, sched_run-none fuel k job e, run))
    from (some (c1, k1)) e =
        let ch = switch_thread-Chosen k qs c1 k1 s.scheduled e in
        let (qs1, s1, first) = Chosen-Settled k k1 qs s ch in
        let arm : arm_scheduler_timer k1 ≡ some (tt, k1) =
          arm-not_periodic k1
            (λ z.
              ne-null_of_has k1 qs ch.next.level ch.thread ch.scheduled ch.next.in_range
                (rw ch.next.first (ground arith)) (sym ch.active ∙ z))
            (s1.aperiodic k1.active_thread) in
        subst IsSettled (state_of (sym (sched_run-switch fuel k k1 c1 job e arm) ∙ run))
          (qs1, s1, first)

sched_yield-null : (fuel : ℕ) (k : Kernel) → k.active_thread ≡ 0 → sched_yield fuel k ≡ none
unfolding sched_yield
sched_yield-null fuel k e = rw e refl

sched_yield-idle :
    (fuel : ℕ) (k : Kernel)
    → k.active_thread ≢ 0
    → (k.threads k.active_thread).priority ≢ periodic_prio_level
    → on_runqueue (k.threads k.active_thread).status ≡ false
    → sched_yield fuel k ≡ some (tt, k)
unfolding sched_yield
sched_yield-idle fuel k nn np off = ground (arith, off)

-- A queue that holds a thread has a first one.
first_of : (n : ℕ) (xs : List ℕ) → has n xs ≡ true → (x : ℕ) × (rest : List ℕ) × (xs ≡ x ∷ rest)
first_of n [] h = absurd (ground (arith, h))
first_of n (x ∷ rest) h = (x, rest, refl)

rotated-Sound :
    (k : Kernel) (qs : Queues)
    → Sound k qs
    → on_runqueue (k.threads k.active_thread).status ≡ true
    → IsSound (rotated k (k.threads k.active_thread).priority)
rotated-Sound k qs s on =
    let p = (k.threads k.active_thread).priority in
    let (x, rest, e) = first_of k.active_thread (qs p) (s.scheduled.exact k.active_thread ∙ on) in
    (
      update qs p (rest ++ (x ∷ [])),
      Sound-Keeps k (rotated k p) qs _
          (rotated-IsScheduled k qs p x rest s.scheduled (s.scheduled.levels k.active_thread) e)
          (Keeps-Same k (rotated k p) refl) s,
    )

pub sched_yield-Sound :
    (fuel : ℕ) (k k' : Kernel) (u : Unit {0})
    → IsSound k
    → sched_yield fuel k ≡ some (u, k')
    → IsSound k'
sched_yield-Sound fuel k k' u (qs, s) run = elim (Bool-cases (k.active_thread == 0)) [
  | inl e ↦ absurd (ground (arith, sched_yield-null fuel k (ground (arith, e)), run))
  | inr e ↦
      let nn : k.active_thread ≢ 0 = ground (arith, e) in
      elim (Bool-cases (on_runqueue (k.threads k.active_thread).status)) [
        | inl on ↦
            subst IsSound
              (state_of (
                sym (
                  sched_yield-rotated fuel k (k.threads k.active_thread).priority nn refl
                    (s.aperiodic k.active_thread) on)
                ∙ run))
              (rotated-Sound k qs s on)
        | inr off ↦
            subst IsSound
              (state_of (sym (sched_yield-idle fuel k nn (s.aperiodic k.active_thread) off) ∙ run))
              (qs, s)
      ]
]

pub yield_higher-Settled :
    (fuel : ℕ) (k k' : Kernel) (c : Bool)
    → IsSound k
    → yield_higher_internal fuel true k ≡ some (c, k')
    → IsSettled k'
unfolding yield_higher_internal
yield_higher-Settled fuel k k' c s run =
    let (u, k1, first, second) =
      bind-inv (sched_yield fuel) (λ _. sched_run_internal fuel) k k' c run in
    sched_run-Settled fuel k1 k' c (sched_yield-Sound fuel k k1 u s first) second
