-- ===== src/SecureMintimer/Quiet.antt =====
-- Which functions of the timers leave the threads and the run queues alone: the clock and the lists.
use sancus_riot.Common.{
  ℕ, zero, suc, refl, Bool, true, false, Option, none, some, bit_or, if◌then◌else◌,
}
use sancus_riot.Kernel.{Kernel}
use sancus_riot.Kernel.Monad.{get}
use sancus_riot.Kernel.Within.{
  Same, Quiet, quiet, unchanged, Within-elim, Within-pure, Within-get, Within-bind, Within-then,
  Within-modify, Within-fault,
}
use sancus_riot.SecureMintimer.{
  lltimer_mask, lltimer_now, spin_while, spin_until, spin_fuel, mintimer_now, now_internal,
  lltimer_set, lists, add_to_timer_list, add_to_overflow_list, add_to_long_list,
}
use sancus_riot.Kernel.Within.{state_of}
use mathlib.Core.Path.{subst}
use sancus_riot.SecureMintimer.TimerList.{Timers}

pub lltimer_now-Quiet : Quiet lltimer_now
unfolding lltimer_now
lltimer_now-Quiet k k' a h = subst (Same k) (state_of h) (record {
  threads = refl;
  links = refl;
  queues = refl;
  cache = refl;
  active = refl;
  request = refl;
})

pub spin_while-Quiet : (fuel : ℕ) (test : ℕ → Bool) → Quiet (spin_while fuel test)
unfolding spin_while
spin_while-Quiet zero test = Within-fault quiet
spin_while-Quiet (suc fuel) test =
    Within-bind quiet lltimer_now _ lltimer_now-Quiet
      λ now. Within-elim quiet (test now) _ _ (spin_while-Quiet fuel test) (Within-pure quiet tt)

pub spin_until-Quiet : (target : ℕ) → Quiet (spin_until target)
unfolding spin_until
spin_until-Quiet target =
    Within-then quiet _ _ (spin_while-Quiet spin_fuel _) (spin_while-Quiet spin_fuel _)

pub mintimer_now-Quiet : Quiet mintimer_now
unfolding mintimer_now
mintimer_now-Quiet =
    Within-bind quiet get _ (Within-get quiet)
      λ k. Within-bind quiet _ _ lltimer_now-Quiet λ n. Within-pure quiet (bit_or k.high_cnt n)

pub now_internal-Quiet : Quiet now_internal
unfolding now_internal
now_internal-Quiet = Within-bind quiet get _ (Within-get quiet) λ k.
    Within-bind quiet _ _ lltimer_now-Quiet λ n. Within-pure quiet (bit_or k.high_cnt n, k.long_cnt)

pub lltimer_set-Same : (target : ℕ) (k : Kernel) → Same k (lltimer_set target k)
unfolding lltimer_set
lltimer_set-Same target k = either k.in_handler
  where
    either : (t : Bool) → Same k (if t then k else record k { compare = lltimer_mask target })
    either true = unchanged k
    either false = record {
      threads = refl;
      links = refl;
      queues = refl;
      cache = refl;
      active = refl;
      request = refl;
    }

lists-Quiet :
    {A : Type 0} (o : Option A) (f : A → Kernel → Kernel)
    → ((a : A) (k : Kernel) → Same k (f a k))
    → Quiet (lists o f)
unfolding lists
lists-Quiet none f s = Within-fault quiet
lists-Quiet (some a) f s = Within-modify quiet (f a) (s a)

pub timers_only :
    (k : Kernel) (a b c : ℕ) (ts : Timers)
    → Same k
        (record k { timer_list_head = a; overflow_list_head = b; long_list_head = c; timers = ts })
timers_only k a b c ts = record {
  threads = refl;
  links = refl;
  queues = refl;
  cache = refl;
  active = refl;
  request = refl;
}

pub add_to_timer_list-Quiet : (timer : ℕ) → Quiet (add_to_timer_list timer)
unfolding add_to_timer_list
add_to_timer_list-Quiet timer =
    Within-bind quiet get _ (Within-get quiet) λ k.
      lists-Quiet _ _ λ (head, ts) k. timers_only k head k.overflow_list_head k.long_list_head ts

pub add_to_overflow_list-Quiet : (timer : ℕ) → Quiet (add_to_overflow_list timer)
unfolding add_to_overflow_list
add_to_overflow_list-Quiet timer =
    Within-bind quiet get _ (Within-get quiet)
      λ k. lists-Quiet _ _ λ (head, ts) k. timers_only k k.timer_list_head head k.long_list_head ts

pub add_to_long_list-Quiet : (timer : ℕ) → Quiet (add_to_long_list timer)
unfolding add_to_long_list
add_to_long_list-Quiet timer = Within-bind quiet get _ (Within-get quiet) λ k.
    lists-Quiet _ _ λ (head, ts) k. timers_only k k.timer_list_head k.overflow_list_head head ts
