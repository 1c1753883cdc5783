-- ===== src/SecureMintimer/Callback/Keeping.antt =====
-- The interrupt handler keeps what the shots of timers keep, and what does not speak of the timers.
use sancus_riot.Common.{ℕ, zero, suc, refl, true, false, ltb, ◌==◌, ◌+◌, ◌%◌, ◌^◌}
use sancus_riot.Kernel.{Kernel}
use sancus_riot.Kernel.Monad.{M, pure, get}
use sancus_riot.Kernel.Within.{
  Within, Quiet, quiet, keeping, keeping-Quiet, Within-elim, Within-pure, Within-get, Within-bind,
  Within-then, Within-if, Within-modify, Within-fault,
}
use sancus_riot.SecureMintimer.{isr_backoff, lltimer_mask, lltimer_now, spin_fuel}
use sancus_riot.SecureMintimer.TimerList.{null, list_fuel}
use sancus_riot.SecureMintimer.Quiet.{
  timers_only, lltimer_now-Quiet, spin_while-Quiet, lltimer_set-Same,
}
use sancus_riot.SecureMintimer.Set.Quiet.{set_target-Same}
use sancus_riot.SecureMintimer.Set.Keeping.{Survives}
use sancus_riot.SecureMintimer.Callback.{
  shoot_first, shoot_loop, Round, again, done, round, rounds, timer_callback,
}
use sancus_riot.SecureMintimer.Callback.Quiet.{
  next_period-Quiet, time_left-Quiet, wait_left-Quiet, idle_round-Quiet, busy_round-Quiet,
  first_reference-Quiet,
}

module _ (P : Kernel → Type 0) (p : Survives P) where
  still : {A : Type 0} (m : M A) → Quiet m → Within (keeping P) m
  still m q = keeping-Quiet P m p.frame q

  shoot_first-keeping : Within (keeping P) shoot_first
  unfolding shoot_first
  shoot_first-keeping = Within-bind (keeping P) get _ (Within-get (keeping P)) λ k.
      Within-then (keeping P) _ _
        (Within-modify (keeping P) _ λ k. p.frame k _ (
          timers_only k (k.timers k.timer_list_head).next k.overflow_list_head k.long_list_head
            k.timers))
        (Within-then (keeping P) _ _
          (Within-modify (keeping P) _
            λ k1. p.frame k1 _ (set_target-Same k.timer_list_head 0 0 k1))
          (p.shot k.timer_list_head))

  shoot_loop-keeping : (fuel reference : ℕ) → Within (keeping P) (shoot_loop fuel reference)
  unfolding shoot_loop
  shoot_loop-keeping zero reference k = Within-fault (keeping P) k
  shoot_loop-keeping (suc fuel) reference k =
      let target = lltimer_mask (k.timers k.timer_list_head).target in
      Within-if (keeping P) (k.timer_list_head == null) _ _ (Within-pure (keeping P) tt)
        (Within-bind (keeping P) _ _ (still _ (time_left-Quiet target reference)) λ left.
          Within-elim (keeping P) (ltb left isr_backoff) _ _
            (Within-then (keeping P) _ _ (still _ (wait_left-Quiet spin_fuel target reference))
              (Within-then (keeping P) _ _ shoot_first-keeping (shoot_loop-keeping fuel reference)))
            (Within-pure (keeping P) tt))
        k

  round-keeping : (reference : ℕ) → Within (keeping P) (round reference)
  unfolding round
  round-keeping reference = Within-then (keeping P) _ _ (shoot_loop-keeping list_fuel reference) (
      Within-bind (keeping P) lltimer_now _ (still _ lltimer_now-Quiet) λ now.
        Within-if (keeping P) (ltb ((now + isr_backoff) % 2 ^ 16) reference) _ _
          (Within-then (keeping P) _ _ (still _ next_period-Quiet) (
            Within-then (keeping P) _ _ (still _ (spin_while-Quiet spin_fuel (ltb reference)))
              (Within-pure (keeping P) (again 0))))
          (Within-bind (keeping P) get _ (Within-get (keeping P)) λ k.
            Within-if (keeping P) (k.timer_list_head == null) _ _
              (still _ (idle_round-Quiet reference))
              (still _ (busy_round-Quiet k.timer_list_head reference))))

  rounds-keeping : (fuel reference : ℕ) → Within (keeping P) (rounds fuel reference)
  unfolding rounds
  rounds-keeping zero reference = Within-fault (keeping P)
  rounds-keeping (suc fuel) reference =
      Within-bind (keeping P) _ _ (round-keeping reference) (next fuel (rounds-keeping fuel))
    where
      next :
          (fuel : ℕ)
          → ((reference : ℕ) → Within (keeping P) (rounds fuel reference))
          → (r : Round)
          → Within
              (keeping P)
              (elim r [ again reference' ↦ rounds fuel reference' | done target ↦ pure target ])
      next fuel rest (again reference') = rest reference'
      next fuel rest (done target) = Within-pure (keeping P) target

  pub timer_callback-keeping : (fuel : ℕ) → Within (keeping P) (timer_callback fuel)
  unfolding timer_callback
  timer_callback-keeping fuel =
      Within-then (keeping P) _ _
        (Within-modify (keeping P) _ λ k.
          p.frame k (record k { in_handler = true })
            (record {
              threads = refl;
              links = refl;
              queues = refl;
              cache = refl;
              active = refl;
              request = refl;
            }))
        (Within-bind (keeping P) _ _ (still _ first_reference-Quiet) λ reference.
          Within-bind (keeping P) _ _ (rounds-keeping fuel reference) λ next_target.
            Within-modify (keeping P) _ λ k. p.frame k _ (
              quiet.join k (record k { in_handler = false }) _
                (record {
                  threads = refl;
                  links = refl;
                  queues = refl;
                  cache = refl;
                  active = refl;
                  request = refl;
                })
                (lltimer_set-Same next_target (record k { in_handler = false }))))
