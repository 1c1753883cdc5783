-- ===== src/SecureMintimer/Set/Quiet.antt =====
-- The functions that set and remove timers leave the threads and the run queues alone, as long as
-- no timer is shot.
use sancus_riot.Common.{
  ℕ, Bool, true, false, Option, none, some, ltb, leb, not, ◌||◌, ◌==◌, ◌+◌, if◌then◌else◌, ◌≡◌,
  arith, sym, ◌∙◌,
}
use mathlib.Core.Path.{subst}
use sancus_riot.Kernel.{Kernel}
use sancus_riot.Kernel.Monad.{get, check}
use sancus_riot.Kernel.Within.{
  Same, Quiet, quiet, unchanged, state_of, Within-pure, Within-get, Within-bind, Within-then,
  Within-if, Within-fault, Within-modify, Within-check,
}
use sancus_riot.SecureMintimer.{
  timer_list_length, overhead, sub32, add32, lltimer_mask, lltimer_set, is_set, this_high_period,
}
use sancus_riot.SecureMintimer.TimerList.{Timers, null, list_fuel, remove_timer}
use sancus_riot.SecureMintimer.Quiet.{
  lltimer_set-Same, timers_only, add_to_timer_list-Quiet, add_to_overflow_list-Quiet,
  add_to_long_list-Quiet,
}
use sancus_riot.SecureMintimer.Set.{
  set_target, remove_head, remove_inner, unlink, secure_mintimer_remove, get_available_timer,
  file_timer, set_absolute_explicit,
}

pub set_target-Same : (timer a b : ℕ) (k : Kernel) → Same k (set_target timer a b k)
set_target-Same timer a b k =
    timers_only k k.timer_list_head k.overflow_list_head k.long_list_head _

remove_head-Same : (timer : ℕ) (k : Kernel) → Same k (remove_head timer k)
unfolding remove_head
remove_head-Same timer k =
    let k1 = record k { timer_list_head = (k.timers timer).next } in
    quiet.join k k1 _
      (timers_only k (k.timers timer).next k.overflow_list_head k.long_list_head k.timers)
      (lltimer_set-Same _ k1)

-- What the removal from each of the lists leads to.
abbrev in_long : Kernel → Option (Bool × ℕ × Timers) → Option (Unit {0} × Kernel)
in_long k none = none
in_long k (some (_, head, ts)) = some (tt, record k { long_list_head = head; timers = ts })

abbrev in_overflow :
    Kernel → Option (Bool × ℕ × Timers) → Option (Unit {0} × Kernel) → Option (Unit {0} × Kernel)
in_overflow k none rest = none
in_overflow k (some (true, head, ts)) rest =
    some (tt, record k { overflow_list_head = head; timers = ts })
in_overflow k (some (false, _, _)) rest = rest

abbrev in_current :
    Kernel → Option (Bool × ℕ × Timers) → Option (Unit {0} × Kernel) → Option (Unit {0} × Kernel)
in_current k none rest = none
in_current k (some (true, head, ts)) rest =
    some (tt, record k { timer_list_head = head; timers = ts })
in_current k (some (false, _, _)) rest = rest

in_long-Same :
    (k k' : Kernel) (o : Option (Bool × ℕ × Timers)) (a : Unit {0})
    → in_long k o ≡ some (a, k')
    → Same k k'
in_long-Same k k' none a h = absurd (ground (arith, h))
in_long-Same k k' (some (_, head, ts)) a h =
    subst (Same k) (state_of h) (timers_only k k.timer_list_head k.overflow_list_head head ts)

in_overflow-Same :
    (k k' : Kernel) (o : Option (Bool × ℕ × Timers)) (rest : Option (Unit {0} × Kernel))
    (a : Unit {0})
    → (rest ≡ some (a, k') → Same k k')
    → in_overflow k o rest ≡ some (a, k')
    → Same k k'
in_overflow-Same k k' none rest a w h = absurd (ground (arith, h))
in_overflow-Same k k' (some (true, head, ts)) rest a w h =
    subst (Same k) (state_of h) (timers_only k k.timer_list_head head k.long_list_head ts)
in_overflow-Same k k' (some (false, _, _)) rest a w h = w h

in_current-Same :
    (k k' : Kernel) (o : Option (Bool × ℕ × Timers)) (rest : Option (Unit {0} × Kernel))
    (a : Unit {0})
    → (rest ≡ some (a, k') → Same k k')
    → in_current k o rest ≡ some (a, k')
    → Same k k'
in_current-Same k k' none rest a w h = absurd (ground (arith, h))
in_current-Same k k' (some (true, head, ts)) rest a w h =
    subst (Same k) (state_of h) (timers_only k head k.overflow_list_head k.long_list_head ts)
in_current-Same k k' (some (false, _, _)) rest a w h = w h

remove_inner-eq :
    (timer : ℕ) (k : Kernel)
    → remove_inner timer k
      ≡ in_current k (remove_timer list_fuel k.timers k.timer_list_head timer) (
          in_overflow k
            (remove_timer list_fuel k.timers k.overflow_list_head timer)
            (in_long k (remove_timer list_fuel k.timers k.long_list_head timer)))
unfolding remove_inner
remove_inner-eq timer k = ground arith

remove_inner-Quiet : (timer : ℕ) → Quiet (remove_inner timer)
remove_inner-Quiet timer k k' a h =
    in_current-Same k k' _ _ a (in_overflow-Same k k' _ _ a (in_long-Same k k' _ a))
      (sym (remove_inner-eq timer k) ∙ h)

pub unlink-Quiet : (timer : ℕ) → Quiet (unlink timer)
unfolding unlink
unlink-Quiet timer = Within-bind quiet get _ (Within-get quiet) λ k.
    Within-if quiet (k.timer_list_head == timer) _ _
      (Within-modify quiet (remove_head timer) (remove_head-Same timer)) (remove_inner-Quiet timer)

pub secure_mintimer_remove-Quiet : (timer : ℕ) → Quiet (secure_mintimer_remove timer)
unfolding secure_mintimer_remove
secure_mintimer_remove-Quiet timer = Within-then quiet (check timer) _ (Within-check quiet timer) (
    Within-bind quiet get _ (Within-get quiet) λ k.
      Within-if quiet (is_set (k.timers timer)) _ _
        (Within-then quiet _ _ (unlink-Quiet timer)
          (Within-modify quiet _ (set_target-Same timer 0 0)))
        (Within-pure quiet tt))

pub get_available_timer-Quiet : (pid : ℕ) → Quiet (get_available_timer pid)
unfolding get_available_timer
get_available_timer-Quiet pid =
    Within-if quiet (leb pid timer_list_length) _ _
      (Within-if quiet (pid == timer_list_length) _ _ (Within-fault quiet) (
        Within-then quiet _ _ (secure_mintimer_remove-Quiet (pid + 1))
          (Within-pure quiet (pid + 1))))
      (Within-pure quiet null)

file_timer-Quiet : (timer target now : ℕ) → Quiet (file_timer timer target now)
unfolding file_timer
file_timer-Quiet timer target now = Within-bind quiet get _ (Within-get quiet) λ k.
    Within-if quiet (ltb k.long_cnt (k.timers timer).long_target || not (this_high_period target k))
      _ _ (add_to_long_list-Quiet timer)
      (Within-if quiet (leb target (lltimer_mask now)) _ _ (add_to_overflow_list-Quiet timer) (
        Within-then quiet _ _ (add_to_timer_list-Quiet timer)
          (Within-modify quiet _ λ k. armed k (k.timer_list_head == timer))))
  where
    armed : (k : Kernel) (t : Bool) → Same k (if t then lltimer_set target k else k)
    armed k true = lltimer_set-Same target k
    armed k false = unchanged k

pub set_absolute_explicit-Quiet : (timer now : ℕ) → Quiet (set_absolute_explicit timer now)
unfolding set_absolute_explicit
set_absolute_explicit-Quiet timer now =
    Within-then quiet (check timer) _ (Within-check quiet timer) (
      Within-bind quiet get _ (Within-get quiet) λ k.
        let target = sub32 (k.timers timer).target overhead in
        Within-then quiet _ _
          (Within-modify quiet _ λ k1.
            carried k1 (k.timers timer).target (add32 (k.timers timer).long_target 1)
              (ltb target now))
          (file_timer-Quiet timer target now))
  where
    carried : (k : Kernel) (a b : ℕ) (t : Bool) → Same k (if t then set_target timer a b k else k)
    carried k a b true = set_target-Same timer a b k
    carried k a b false = unchanged k
