-- ===== src/System/Shots.antt =====
-- A shot of a timer puts its thread on the run queue, whatever the thread waits for. So a sound state
-- stays sound, but the active thread may lose its place: then another choice is asked for.
use sancus_riot.Common.{
  ℕ, ◌≡◌, refl, none, some, sym, ◌≢◌, ◌∙◌, true, arith, ◌==◌, Bool-cases, inl, inr,
}
use mathlib.Core.Path.{subst}
use sancus_riot.Kernel.{Kernel, pending}
use sancus_riot.Kernel.Within.{state_of}
use sancus_riot.Runqueue.{set_status, sched_set_status}
use sancus_riot.Runqueue.Invariant.{Queues}
use sancus_riot.Runqueue.Scheduled.{IsScheduled-frame}
use sancus_riot.SecureMintimer.{shoot_timer}
use sancus_riot.SecureMintimer.Set.Keeping.{Survives}
use sancus_riot.System.Sound.{
  Sound, IsSound, IsPending, Sound-Same, IsPending-Same, set_status-Sound,
}

pub asked : Kernel → Kernel
asked k = record k { switch_request = true }

shoot-idle :
    (timer : ℕ) (k : Kernel)
    → timer ≢ 0
    → (k.timers timer).thread ≡ 0
    → shoot_timer timer k ≡ some (tt, asked k)
unfolding shoot_timer asked
shoot-idle timer k n e = ground (arith, e)

shoot-thread :
    (timer : ℕ) (k : Kernel)
    → timer ≢ 0
    → (k.timers timer).thread ≢ 0
    → shoot_timer timer k ≡ some (tt, asked (set_status k (k.timers timer).thread pending))
unfolding shoot_timer asked sched_set_status
shoot-thread timer k n e = ground arith

shoot-null : (timer : ℕ) (k : Kernel) → timer ≡ 0 → shoot_timer timer k ≡ none
unfolding shoot_timer
shoot-null timer k e = ground (arith, e)

pub Sound-asked : (k : Kernel) (qs : Queues) → Sound k qs → Sound (asked k) qs
unfolding asked
Sound-asked k qs s = record {
  scheduled =
      IsScheduled-frame k (record k { switch_request = true }) qs refl refl refl refl s.scheduled;
  aperiodic = s.aperiodic;
  named = s.named;
}

asked-request : (k : Kernel) → (asked k).switch_request ≡ true
unfolding asked
asked-request k = refl

-- What a shot leaves.
abbrev Asked : Kernel → Type 0
Asked k = IsSound k × (k.switch_request ≡ true)

shot-Asked :
    (timer : ℕ) (k k' : Kernel) (u : Unit {0})
    → shoot_timer timer k ≡ some (u, k')
    → IsSound k
    → Asked k'
shot-Asked timer k k' u run (qs, s) = elim (Bool-cases (timer == 0)) [
  | inl e ↦ absurd (ground (arith, run, shoot-null timer k (ground (arith, e))))
  | inr e ↦
      let nn : timer ≢ 0 = ground (arith, e) in
      elim (Bool-cases ((k.timers timer).thread == 0)) [
        | inl t ↦
            subst Asked (state_of (sym (shoot-idle timer k nn (ground (arith, t))) ∙ run))
              ((qs, Sound-asked k qs s), asked-request k)
        | inr t ↦
            let n = (k.timers timer).thread in
            let tn : n ≢ 0 = ground (arith, t) in
            let s' =
              set_status-Sound k qs n pending tn (λ on off. absurd (ground (arith, off))) s in
            subst Asked (state_of (sym (shoot-thread timer k nn tn) ∙ run)) (
              (_, Sound-asked (set_status k n pending) _ s'),
              asked-request (set_status k n pending),
            )
      ]
]

pub IsSound-Survives : Survives IsSound
IsSound-Survives = record {
  frame = λ k k' f (qs, s). (qs, Sound-Same k k' qs f s);
  shot = λ timer k k' u run s. (shot-Asked timer k k' u run s).0;
}

pub IsPending-Survives : Survives IsPending
IsPending-Survives = record {
  frame = IsPending-Same;
  shot = λ timer k k' u run (qs, s, h).
      let ((qs', s'), e) = shot-Asked timer k k' u run (qs, s) in (qs', s', inl e);
}
