-- ===== src/System/Sleeps.antt =====
-- A thread that goes to sleep with a timer leaves a sound state.
use sancus_riot.Common.{
  ℕ, ◌≡◌, refl, sym, ap, ◌∙◌, Bool, true, false, some, ◌==◌, inl, inr, if◌then◌else◌,
}
use mathlib.Core.Path.{subst}
use sancus_riot.Kernel.{Kernel, sleeping, update}
use sancus_riot.Kernel.Monad.{M, pure, ◌>>◌, modify, check}
use sancus_riot.Kernel.Within.{state_of, bind-inv}
use sancus_riot.Runqueue.{set_status, sched_set_status}
use sancus_riot.Runqueue.Invariant.{Queues}
use sancus_riot.SecureMintimer.Quiet.{timers_only}
use sancus_riot.SecureMintimer.TimerList.{null}
use sancus_riot.SecureMintimer.Set.{
  get_available_timer, tsleep_specific_pid, tsleep_internal, mintimer_set,
}
use sancus_riot.SecureMintimer.Set.Quiet.{get_available_timer-Quiet}
use sancus_riot.SecureMintimer.Set.Keeping.{mintimer_set-keeping}
use sancus_riot.System.Sound.{Sound, IsSound, IsSettled, IsFirst, IsSettled-Same}
use sancus_riot.System.Shots.{IsSound-Survives}
use sancus_riot.System.Leave.{left-Sound}
use sancus_riot.System.Calls.{sound}
use sancus_riot.System.Ends.{check-inv, sched_set_status-inv}

-- A thread that goes to sleep leaves its run queue first.
asleep-Sound :
    (k : Kernel) (qs : Queues)
    → Sound k qs
    → IsFirst k qs
    → IsSound (set_status k (k.threads k.active_thread).pid sleeping)
asleep-Sound k qs s first = elim (s.named k.active_thread) [
  | inl e ↦
      subst (λ n. IsSound (set_status k n sleeping)) (sym e)
        (left-Sound k qs k.active_thread sleeping refl first s)
  | inr e ↦
      subst (λ n. IsSound (set_status k n sleeping)) (sym e)
        (left-Sound k qs 0 sleeping refl (inl refl) s)
]

-- What a thread that sleeps has its timer set to.
armed : ℕ → ℕ → ℕ → M (Unit {0})
armed offset pid timer = do
  modify (λ k. record k {
    timers =
        update k.timers timer
          (record (k.timers timer) { target = 0; long_target = 0; thread = pid });
  })
  sched_set_status pid sleeping
  mintimer_set timer offset

armed-Sound :
    (offset timer : ℕ) (k k' : Kernel) (u : Unit {0})
    → IsSettled k
    → armed offset (k.threads k.active_thread).pid timer k ≡ some (u, k')
    → IsSound k'
unfolding armed
armed-Sound offset timer k k' u (qs, s, first) h =
    let pid = (k.threads k.active_thread).pid in
    let k1 = record k {
      timers =
          update k.timers timer
            (record (k.timers timer) { target = 0; long_target = 0; thread = pid });
    } in
    let (qs1, s1, first1) =
      IsSettled-Same k k1
        (timers_only k k.timer_list_head k.overflow_list_head k.long_list_head k1.timers)
        (qs, s, first) in
    let (u2, k2, e, e') =
      bind-inv (sched_set_status pid sleeping) (λ _. mintimer_set timer offset) k1 k' u h in
    mintimer_set-keeping IsSound IsSound-Survives timer offset k2 k' u e'
      (subst IsSound (sched_set_status-inv pid sleeping k1 k2 u2 e) (asleep-Sound k1 qs1 s1 first1))

asleep_or_not :
    (offset pid timer : ℕ) (t : Bool) (k k' : Kernel) (u : Unit {0})
    → IsSettled k
    → pid ≡ (k.threads k.active_thread).pid
    → (if t then pure tt else armed offset pid timer) k ≡ some (u, k')
    → IsSound k'
asleep_or_not offset pid timer true k k' u s e h = subst IsSound (state_of h) (sound k s)
asleep_or_not offset pid timer false k k' u s e h =
    armed-Sound offset timer k k' u s (ap (λ p. armed offset p timer k) (sym e) ∙ h)

specific-Sound :
    (offset : ℕ) (k k' : Kernel) (u : Unit {0})
    → IsSettled k
    → tsleep_specific_pid offset (k.threads k.active_thread).pid k ≡ some (u, k')
    → IsSound k'
unfolding tsleep_specific_pid armed
specific-Sound offset k k' u s h =
    let pid = (k.threads k.active_thread).pid in
    let (timer, k1, e, e') =
      bind-inv (get_available_timer pid)
        (λ timer. if timer == null then pure tt else armed offset pid timer) k k' u h in
    let f = get_available_timer-Quiet pid k k1 timer e in
    asleep_or_not offset pid timer (timer == null) k1 k' u (IsSettled-Same k k1 f s)
      (rw (f.threads, f.active) refl) e'

pub tsleep-Sound :
    (offset : ℕ) (k k' : Kernel) (u : Unit {0})
    → IsSettled k
    → tsleep_internal offset k ≡ some (u, k')
    → IsSound k'
unfolding tsleep_internal
tsleep-Sound offset k k' u s h =
    let pid = (k.threads k.active_thread).pid in
    let (u1, k1, e, e') =
      bind-inv (check k.active_thread) (λ _. tsleep_specific_pid offset pid) k k' u h in
    specific-Sound offset k k' u s
      (ap (tsleep_specific_pid offset pid) (check-inv k.active_thread k k1 u1 e) ∙ e')
