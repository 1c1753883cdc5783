-- ===== src/System/Interrupts.antt =====
-- The interrupt handler keeps a settled state settled, and a sound one sound.
use sancus_riot.Common.{
  ℕ, ◌≡◌, refl, ap, ◌∙◌, Bool, true, false, some, Option, Bool-cases, inl, inr, if◌then◌else◌,
}
use mathlib.Core.Path.{subst}
use sancus_riot.Kernel.{Kernel, Thread}
use sancus_riot.Kernel.Monad.{M, pure, ◌>>=◌, ◌>>◌, modify, check, get}
use sancus_riot.Kernel.Within.{Same, state_of, bind-inv}
use sancus_riot.SecureMintimer.Callback.{timer_callback}
use sancus_riot.SecureMintimer.Callback.Keeping.{timer_callback-keeping}
use sancus_riot.Sched.{sched_task_exit_internal, yield_higher_internal, sched_run_internal}
use sancus_riot.Sched.{with_thread}
use sancus_riot.Entry.{
  exit_isr, handle_timer, isr_func, Interrupted, unprotected_code, protected_code, resuming, saved,
  save_context,
}
use sancus_riot.System.Sound.{IsSound, IsSettled, IsPending, IsSettled-Same}
use sancus_riot.System.Shots.{IsPending-Survives, IsSound-Survives}
use sancus_riot.System.Leave.{with_thread-Settled, with_thread-Sound}
use sancus_riot.System.Calls.{
  flagged, settled, run_again-Settled, sound, exit_isr-Settled, yield_again-Settled,
}
use sancus_riot.System.Ends.{check-inv, task_exit-Settled}

-- The choice at the end of the handler.
leaves : ℕ → M Bool
leaves fuel = do k ← get; exit_isr fuel; pure k.switch_request

handle_timer-Settled :
    (fuel : ℕ) (k k' : Kernel) (b : Bool)
    → IsSettled k
    → handle_timer fuel k ≡ some (b, k')
    → IsSettled k'
unfolding handle_timer leaves
handle_timer-Settled fuel k k' b s h =
    let k0 = record k { irq_is_in = true } in
    let (u1, k1, e, e') = bind-inv (timer_callback fuel) (λ _. leaves fuel) k0 k' b h in
    let (u2, k2, f, f') = bind-inv (exit_isr fuel) (λ _. pure k1.switch_request) k1 k' b e' in
    subst IsSettled (state_of f') (
      exit_isr-Settled fuel k1 k2 u2
        (timer_callback-keeping IsPending IsPending-Survives fuel k0 k1 u1 e
          (settled k0 (IsSettled-Same k k0 (flagged k true) s)))
        f)

saved-same :
    (i : Interrupted) (sp : ℕ) (t : Thread)
    → ((saved i sp t).status ≡ t.status)
      × ((saved i sp t).priority ≡ t.priority)
      × ((saved i sp t).pid ≡ t.pid)
unfolding saved
saved-same unprotected_code sp t = (refl, refl, refl)
saved-same protected_code sp t = (refl, refl, refl)
saved-same resuming sp t = elim (Bool-cases t.is_sm) [
  | inl e ↦ rw e (refl, refl, refl)
  | inr e ↦ rw e (refl, refl, refl)
]

-- The entry of the active thread with its context.
kept : Interrupted → ℕ → Kernel → Kernel
kept i sp k = with_thread k k.active_thread (saved i sp (k.threads k.active_thread))

save_context-inv :
    (i : Interrupted) (sp : ℕ) (k k' : Kernel) (u : Unit {0})
    → save_context i sp k ≡ some (u, k')
    → kept i sp k ≡ k'
unfolding save_context kept
save_context-inv i sp k k' u h =
    let (u1, k1, e, e') = bind-inv (check k.active_thread) (λ _. modify (kept i sp)) k k' u h in
    ap (kept i sp) (check-inv k.active_thread k k1 u1 e) ∙ state_of e'

save_context-Settled :
    (i : Interrupted) (sp : ℕ) (k k' : Kernel) (u : Unit {0})
    → IsSettled k
    → save_context i sp k ≡ some (u, k')
    → IsSettled k'
unfolding kept
save_context-Settled i sp k k' u s h =
    let same = saved-same i sp (k.threads k.active_thread) in
    subst IsSettled (save_context-inv i sp k k' u h) (
      with_thread-Settled k k.active_thread (saved i sp (k.threads k.active_thread)) same.0 same.1
        same.2 s)

pub save_context-Sound :
    (i : Interrupted) (sp : ℕ) (k k' : Kernel) (u : Unit {0})
    → IsSound k
    → save_context i sp k ≡ some (u, k')
    → IsSound k'
unfolding kept
save_context-Sound i sp k k' u (qs, s) h =
    let same = saved-same i sp (k.threads k.active_thread) in
    subst IsSound (save_context-inv i sp k k' u h) (
      qs,
      with_thread-Sound k qs k.active_thread (saved i sp (k.threads k.active_thread)) same.0 same.1
          same.2 s,
    )

-- The rest of the handler, whose result is dropped.
handled-Settled :
    (fuel : ℕ) (k k' : Kernel) (u : Unit {0})
    → IsSettled k
    → (do _ ← handle_timer fuel; pure tt) k ≡ some (u, k')
    → IsSettled k'
handled-Settled fuel k k' u s h =
    let (b, k1, e, e') = bind-inv (handle_timer fuel) (λ _. pure tt) k k' u h in
    subst IsSettled (state_of e') (handle_timer-Settled fuel k k1 b s e)

pub isr_func-Settled :
    (fuel : ℕ) (violation overflow : Bool) (i : Interrupted) (sp : ℕ) (k k' : Kernel) (u : Unit {0})
    → IsSettled k
    → isr_func fuel violation overflow i sp k ≡ some (u, k')
    → IsSettled k'
unfolding isr_func
isr_func-Settled fuel false overflow i sp k k' u s h =
    let (u1, k1, e, e') =
      bind-inv (save_context i sp) (λ _. do _ ← handle_timer fuel; pure tt) k k' u h in
    handled-Settled fuel k1 k' u (save_context-Settled i sp k k1 u1 s e) e'
isr_func-Settled fuel true true i sp k k' u s h =
    let (u1, k1, e, e') =
      bind-inv sched_task_exit_internal (λ _. do _ ← handle_timer fuel; pure tt) k k' u h in
    handled-Settled fuel k1 k' u (task_exit-Settled k k1 u1 s e) e'
isr_func-Settled fuel true false i sp k k' u s h =
    let (u1, k1, e, e') =
      bind-inv sched_task_exit_internal (λ _. do _ ← yield_higher_internal fuel true; pure tt) k k'
        u h in
    yield_again-Settled fuel k1 k' u (sound k1 (task_exit-Settled k k1 u1 s e)) e'

-- What an interrupt leaves of a sound state: it is in order if a thread was chosen anew.
abbrev pub Chosen : Bool → Kernel → Type 0
Chosen true k = IsSettled k
Chosen false k = IsSound k

run_or_not : Bool → ℕ → M (Unit {0})
run_or_not t fuel = if t then (do _ ← sched_run_internal fuel; pure tt) else pure tt

run_or_not-Chosen :
    (t : Bool) (fuel : ℕ) (k k' : Kernel) (u : Unit {0})
    → IsSound k
    → run_or_not t fuel k ≡ some (u, k')
    → Chosen t k'
unfolding run_or_not
run_or_not-Chosen true fuel k k' u s h = run_again-Settled fuel k k' u s h
run_or_not-Chosen false fuel k k' u s h = subst IsSound (state_of h) s

Chosen-Same : (t : Bool) (k k' : Kernel) → Same k k' → Chosen t k → Chosen t k'
Chosen-Same true k k' f c = IsSettled-Same k k' f c
Chosen-Same false k k' f c = IsSound-Survives.frame k k' f c

exit_isr-Chosen :
    (fuel : ℕ) (k k' : Kernel) (u : Unit {0})
    → IsSound k
    → exit_isr fuel k ≡ some (u, k')
    → Chosen k.switch_request k'
unfolding exit_isr run_or_not
exit_isr-Chosen fuel k k' u s h =
    let (u1, k1, e, e') =
      bind-inv (run_or_not k.switch_request fuel)
        (λ _. modify (λ k. record k { irq_is_in = false })) k k' u h in
    subst (Chosen k.switch_request) (state_of e') (
      Chosen-Same k.switch_request k1 (record k1 { irq_is_in = false }) (flagged k1 false)
        (run_or_not-Chosen k.switch_request fuel k k1 u1 s e))

answered :
    (b c : Bool) (k k' : Kernel)
    → ◌≡◌ {A = Option (Bool × Kernel)} (some (b, k)) (some (c, k'))
    → Chosen b k
    → Chosen c k'
answered b c k k' h s = subst (λ t. Chosen t k') value (subst (Chosen b) (state_of h) s)
  where
    value : b ≡ c
    value = cc

pub handle_timer-Chosen :
    (fuel : ℕ) (k k' : Kernel) (b : Bool)
    → IsSound k
    → handle_timer fuel k ≡ some (b, k')
    → Chosen b k'
unfolding handle_timer leaves
handle_timer-Chosen fuel k k' b s h =
    let k0 = record k { irq_is_in = true } in
    let (u1, k1, e, e') = bind-inv (timer_callback fuel) (λ _. leaves fuel) k0 k' b h in
    let (u2, k2, f, f') = bind-inv (exit_isr fuel) (λ _. pure k1.switch_request) k1 k' b e' in
    answered k1.switch_request b k2 k' f' (
      exit_isr-Chosen fuel k1 k2 u2
        (timer_callback-keeping IsSound IsSound-Survives fuel k0 k1 u1 e
          (IsSound-Survives.frame k k0 (flagged k true) s))
        f)
