-- ===== src/System/Calls.antt =====
-- What runs in the entry: the end of a thread, a sleep, a switch, and the interrupt handler.
use sancus_riot.Common.{ℕ, ◌≡◌, refl, Bool, true, false, some, arith, inl, inr, if◌then◌else◌}
use mathlib.Core.Path.{subst}
use sancus_riot.Kernel.{Kernel}
use sancus_riot.Kernel.Monad.{M, pure, ◌>>=◌, ◌>>◌, modify}
use sancus_riot.Kernel.Within.{Same, state_of, bind-inv}
use sancus_riot.Runqueue.Invariant.{Queues}
use sancus_riot.Runqueue.Scheduled.{IsScheduled-frame}
use sancus_riot.SecureMintimer.Callback.{timer_callback}
use sancus_riot.SecureMintimer.Callback.Keeping.{timer_callback-keeping}
use sancus_riot.Sched.{yield_higher_internal, sched_run_internal}
use sancus_riot.Entry.{exit_isr, default_entry}
use sancus_riot.System.Sound.{Sound, IsSound, IsSettled, IsPending, IsSettled-Same}
use sancus_riot.System.Run.{sched_run-Settled, yield_higher-Settled}
use sancus_riot.System.Shots.{IsSound-Survives}

-- The flags of the interrupt and of the entry are no part of what is kept.
pub flagged : (k : Kernel) (b : Bool) → Same k (record k { irq_is_in = b })
flagged k b = record {
  threads = refl;
  links = refl;
  queues = refl;
  cache = refl;
  active = refl;
  request = refl;
}

pub settled : (k : Kernel) → IsSettled k → IsPending k
settled k (qs, s, h) = (qs, s, inr h)

pub sound : (k : Kernel) → IsSettled k → IsSound k
sound k (qs, s, h) = (qs, s)

pub requested-Sound :
    (k : Kernel) (qs : Queues) → Sound k qs → Sound (record k { switch_request = true }) qs
requested-Sound k qs s = record {
  scheduled =
      IsScheduled-frame k (record k { switch_request = true }) qs refl refl refl refl s.scheduled;
  aperiodic = s.aperiodic;
  named = s.named;
}

-- With another choice asked for, a sound state is pending.
requested : (k : Kernel) → IsSound k → IsPending (record k { switch_request = true })
requested k (qs, s) = (qs, requested-Sound k qs s, inl refl)

run_again : ℕ → M (Unit {0})
run_again fuel = do _ ← sched_run_internal fuel; pure tt

pub run_again-Settled :
    (fuel : ℕ) (k k' : Kernel) (u : Unit {0})
    → IsSound k
    → (do _ ← sched_run_internal fuel; pure tt) k ≡ some (u, k')
    → IsSettled k'
run_again-Settled fuel k k' u s h =
    let (c, k1, e, e') = bind-inv (sched_run_internal fuel) (λ _. pure tt) k k' u h in
    subst IsSettled (state_of e') (sched_run-Settled fuel k k1 c s e)

chosen_again :
    (fuel : ℕ) (k k' : Kernel) (u : Unit {0}) (t : Bool)
    → k.switch_request ≡ t
    → IsPending k
    → (if t then run_again fuel else pure tt) k ≡ some (u, k')
    → IsSettled k'
unfolding run_again
chosen_again fuel k k' u true e (qs, s, h) run = run_again-Settled fuel k k' u (qs, s) run
chosen_again fuel k k' u false e (qs, s, h) run =
    subst IsSettled (state_of run)
      (qs, s, elim h [ inl r ↦ absurd (ground (arith, e, r)) | inr f ↦ f ])

pub exit_isr-Settled :
    (fuel : ℕ) (k k' : Kernel) (u : Unit {0})
    → IsPending k
    → exit_isr fuel k ≡ some (u, k')
    → IsSettled k'
unfolding exit_isr run_again
exit_isr-Settled fuel k k' u p h =
    let (u1, k1, e, e') =
      bind-inv (if k.switch_request then run_again fuel else pure tt)
        (λ _. modify (λ k. record k { irq_is_in = false })) k k' u h in
    subst IsSettled (state_of e') (
      IsSettled-Same k1 (record k1 { irq_is_in = false }) (flagged k1 false)
        (chosen_again fuel k k1 u1 k.switch_request refl p e))

yield_again : ℕ → M (Unit {0})
yield_again fuel = do _ ← yield_higher_internal fuel true; pure tt

pub yield_again-Settled :
    (fuel : ℕ) (k k' : Kernel) (u : Unit {0})
    → IsSound k
    → (do _ ← yield_higher_internal fuel true; pure tt) k ≡ some (u, k')
    → IsSettled k'
yield_again-Settled fuel k k' u s h =
    let (c, k1, e, e') = bind-inv (yield_higher_internal fuel true) (λ _. pure tt) k k' u h in
    subst IsSettled (state_of e') (yield_higher-Settled fuel k k1 c s e)

-- The handler of a timer interrupt that was pending at the entry.
due_entry : ℕ → M (Unit {0})
due_entry fuel = do
  modify (λ k. record k { irq_is_in = true })
  timer_callback fuel
  modify (λ k. record k { switch_request = true })
  exit_isr fuel

due_entry-Settled :
    (fuel : ℕ) (k k' : Kernel) (u : Unit {0})
    → IsSound k
    → due_entry fuel k ≡ some (u, k')
    → IsSettled k'
unfolding due_entry
due_entry-Settled fuel k k' u s h =
    let k0 = record k { irq_is_in = true } in
    let (u1, k1, e, e') =
      bind-inv (timer_callback fuel)
        (λ _. modify (λ k. record k { switch_request = true }) >> exit_isr fuel) k0 k' u h in
    exit_isr-Settled fuel (record k1 { switch_request = true }) k' u
      (requested k1 (
        timer_callback-keeping IsSound IsSound-Survives fuel k0 k1 u1 e
          (IsSound-Survives.frame k k0 (flagged k true) s)))
      e'

pub default_entry-Settled :
    (fuel : ℕ) (due : Bool) (k k' : Kernel) (u : Unit {0})
    → IsSound k
    → default_entry fuel due k ≡ some (u, k')
    → IsSettled k'
unfolding default_entry due_entry
default_entry-Settled fuel true k k' u s h = due_entry-Settled fuel k k' u s h
default_entry-Settled fuel false k k' u s h = yield_again-Settled fuel k k' u s h
