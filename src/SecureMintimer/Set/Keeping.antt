-- ===== src/SecureMintimer/Set/Keeping.antt =====
-- Setting a timer keeps what the shots of timers keep, and what does not speak of the timers.
use sancus_riot.Common.{ℕ, leb}
use sancus_riot.Kernel.{Kernel, update}
use sancus_riot.Kernel.Monad.{M, get}
use sancus_riot.Kernel.Within.{
  Within, Same, Quiet, keeping, keeping-Quiet, Within-pure, Within-get, Within-bind, Within-then,
  Within-if, Within-modify, Within-check,
}
use sancus_riot.SecureMintimer.{backoff, sub32, add32, is_set, mintimer_now, shoot_timer}
use sancus_riot.SecureMintimer.TimerList.{null}
use sancus_riot.SecureMintimer.Quiet.{mintimer_now-Quiet, spin_until-Quiet, timers_only}
use sancus_riot.SecureMintimer.Set.{set_absolute, mintimer_set}
use sancus_riot.SecureMintimer.Set.Quiet.{
  set_target-Same, unlink-Quiet, secure_mintimer_remove-Quiet, set_absolute_explicit-Quiet,
}

-- A property of the threads and the run queues that every shot of a timer keeps.
pub record Survives (P : Kernel → Type 0) : Type 0 where
  pub frame : (k k' : Kernel) → Same k k' → P k → P k'
  pub shot : (timer : ℕ) → Within (keeping P) (shoot_timer timer)

module _ (P : Kernel → Type 0) (p : Survives P) where
  still : {A : Type 0} (m : M A) → Quiet m → Within (keeping P) m
  still m q = keeping-Quiet P m p.frame q

  pub set_absolute-keeping : (timer target : ℕ) → Within (keeping P) (set_absolute timer target)
  unfolding set_absolute
  set_absolute-keeping timer target =
      Within-bind (keeping P) mintimer_now _ (still _ mintimer_now-Quiet) λ now.
        Within-then (keeping P) _ _ (Within-check (keeping P) timer) (
          Within-then (keeping P) _ _
            (Within-modify (keeping P) _ λ k. p.frame k _ (
              timers_only k k.timer_list_head k.overflow_list_head k.long_list_head
                (update k.timers timer (record (k.timers timer) { next = null }))))
            (Within-if (keeping P) (leb (sub32 target now) backoff) _ _
              (Within-then (keeping P) _ _ (still _ (spin_until-Quiet target)) (p.shot timer))
              (Within-bind (keeping P) get _ (Within-get (keeping P)) λ k.
                Within-then (keeping P) _ _
                  (Within-if (keeping P) (is_set (k.timers timer)) _ _
                    (still _ (unlink-Quiet timer)) (Within-pure (keeping P) tt))
                  (Within-then (keeping P) _ _
                    (Within-modify (keeping P) _
                      λ k. p.frame k _ (set_target-Same timer target k.long_cnt k))
                    (still _ (set_absolute_explicit-Quiet timer now))))))

  pub mintimer_set-keeping : (timer offset : ℕ) → Within (keeping P) (mintimer_set timer offset)
  unfolding mintimer_set
  mintimer_set-keeping timer offset =
      Within-then (keeping P) _ _ (still _ (secure_mintimer_remove-Quiet timer)) (
        Within-bind (keeping P) mintimer_now _ (still _ mintimer_now-Quiet)
          λ now. set_absolute-keeping timer (add32 now offset))
