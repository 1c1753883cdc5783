-- ===== src/SecureMintimer/Callback/Quiet.antt =====
-- The parts of the interrupt handler that shoot no timer leave the threads and the run queues alone.
use sancus_riot.Common.{
  ℕ, zero, suc, refl, Bool, true, false, Option, none, some, ltb, leb, ◌==◌, ◌+◌, ◌-◌,
  if◌then◌else◌, ◌≡◌, arith, ap, sym, ◌∙◌,
}
use mathlib.Core.Path.{subst}
use sancus_riot.Kernel.{Kernel}
use sancus_riot.Kernel.Monad.{get}
use sancus_riot.Kernel.Within.{
  Same, Quiet, quiet, state_of, Within-elim, Within-pure, Within-get, Within-bind, Within-then,
  Within-if, Within-modify, Within-fault,
}
use sancus_riot.SecureMintimer.{
  overhead, isr_backoff, add32, sub32, lltimer_mask, lltimer_now, mintimer_now, spin_fuel,
}
use sancus_riot.SecureMintimer.TimerList.{Timers, null, list_fuel, merge_lists, set_next}
use sancus_riot.SecureMintimer.Quiet.{
  timers_only, lltimer_now-Quiet, mintimer_now-Quiet, spin_while-Quiet,
}
use sancus_riot.SecureMintimer.Callback.{
  select_loop, join_selected, select_long_timers, advance, next_period, time_left, wait_left, again,
  done, idle_round, busy_round, first_reference,
}

kernel_or : Kernel → Option Kernel → Kernel
kernel_or k none = k
kernel_or k (some k') = k'

kernel_of : {k k' : Kernel} → some k ≡ some k' → k ≡ k'
unfolding kernel_or
kernel_of {k = k} e = ap (kernel_or k) e

module _ (k k' : Kernel) where
  returned-Same : {k1 : Kernel} → Same k k1 → some k1 ≡ some k' → Same k k'
  returned-Same s h = subst (Same k) (kernel_of h) s

  either-Same :
      (t : Bool) (a b : Option Kernel)
      → (a ≡ some k' → Same k k')
      → (b ≡ some k' → Same k k')
      → (if t then a else b) ≡ some k'
      → Same k k'
  either-Same true a b v w h = v h
  either-Same false a b v w h = w h

  -- What the merging of the lists leads to, from the state `cut`.
  abbrev taken : Kernel → Option (ℕ × Timers) → Option Kernel
  taken cut none = none
  taken cut (some (merged, ts)) = some (record cut { timer_list_head = merged; timers = ts })

  taken-Same :
      (cut : Kernel) (o : Option (ℕ × Timers)) → Same k cut → taken cut o ≡ some k' → Same k k'
  taken-Same cut none s h = absurd (ground (arith, h))
  taken-Same cut (some (merged, ts)) s h =
      returned-Same
        (quiet.join k cut _ s (timers_only cut merged cut.overflow_list_head cut.long_list_head ts))
        h

  join_selected-eq :
      (start last head : ℕ)
      → let cut = record k { long_list_head = head; timers = set_next k.timers last null } in
        join_selected start last head k ≡ (
          if last == null
          then some (record k { long_list_head = head })
          else if k.timer_list_head == null
          then some (record cut { timer_list_head = start })
          else taken cut (merge_lists list_fuel cut.timers k.timer_list_head start))
  unfolding join_selected
  join_selected-eq start last head = ground arith

  join_selected-Same : (start last head : ℕ) → join_selected start last head k ≡ some k' → Same k k'
  join_selected-Same start last head h =
      let a = k.timer_list_head in
      let b = k.overflow_list_head in
      let ts = set_next k.timers last null in
      either-Same (last == null) _ _ (returned-Same (timers_only k a b head k.timers))
        (either-Same (a == null) _ _ (returned-Same (timers_only k start b head ts)) (
          taken-Same (record k { long_list_head = head; timers = ts }) _
            (timers_only k a b head ts)))
        (sym (join_selected-eq start last head) ∙ h)

  abbrev joined : Option Kernel → Option (Unit {0} × Kernel)
  joined none = none
  joined (some k1) = some (tt, k1)

  joined-Same :
      (o : Option Kernel) (u : Unit {0})
      → ((k1 : Kernel) → o ≡ some k1 → Same k k1)
      → joined o ≡ some (u, k')
      → Same k k'
  joined-Same none u w h = absurd (ground (arith, h))
  joined-Same (some k1) u w h = subst (Same k) (state_of h) (w k1 refl)

  abbrev selected : Option (ℕ × ℕ) → Option (Unit {0} × Kernel)
  selected none = none
  selected (some (last, head)) = joined (join_selected k.long_list_head last head k)

  select_long_timers-eq :
      select_long_timers k ≡ selected (select_loop list_fuel k null k.long_list_head)
  unfolding select_long_timers
  select_long_timers-eq = ground arith

selected-Same :
    (k k' : Kernel) (o : Option (ℕ × ℕ)) (u : Unit {0}) → selected k k' o ≡ some (u, k') → Same k k'
selected-Same k k' none u h = absurd (ground (arith, h))
selected-Same k k' (some (last, head)) u h =
    joined-Same k k' (join_selected k.long_list_head last head k) u
      (λ k1. join_selected-Same k k1 k.long_list_head last head) h

select_long_timers-Quiet : Quiet select_long_timers
select_long_timers-Quiet k k' u h = selected-Same k k' _ u (sym (select_long_timers-eq k k') ∙ h)

advance-Same : (k : Kernel) → Same k (advance k)
unfolding advance
advance-Same k = record {
  threads = refl;
  links = refl;
  queues = refl;
  cache = refl;
  active = refl;
  request = refl;
}

pub next_period-Quiet : Quiet next_period
unfolding next_period
next_period-Quiet =
    Within-then quiet _ _ (Within-modify quiet advance advance-Same) select_long_timers-Quiet

pub time_left-Quiet : (target reference : ℕ) → Quiet (time_left target reference)
unfolding time_left
time_left-Quiet target reference = Within-bind quiet lltimer_now _ lltimer_now-Quiet λ now.
    Within-pure quiet (if ltb now reference then 0 else if ltb now target then target - now else 0)

pub wait_left-Quiet : (fuel target reference : ℕ) → Quiet (wait_left fuel target reference)
unfolding wait_left
wait_left-Quiet zero target reference = Within-fault quiet
wait_left-Quiet (suc fuel) target reference =
    Within-bind quiet (time_left target reference) _ (time_left-Quiet target reference) λ left.
      Within-elim quiet (left == 0) _ _ (Within-pure quiet tt)
        (wait_left-Quiet fuel target reference)

pub idle_round-Quiet : (reference : ℕ) → Quiet (idle_round reference)
unfolding idle_round
idle_round-Quiet reference = Within-bind quiet lltimer_now _ lltimer_now-Quiet λ now.
    Within-if quiet (ltb now reference) _ _
      (Within-then quiet _ _ next_period-Quiet (Within-pure quiet (again 0)))
      (Within-if quiet (ltb (lltimer_mask (now + isr_backoff)) now) _ _
        (Within-then quiet _ _ (spin_while-Quiet spin_fuel (leb now))
          (Within-then quiet _ _ next_period-Quiet (Within-pure quiet (again 0))))
        (Within-pure quiet (done (lltimer_mask 0xffff_ffff))))

pub busy_round-Quiet : (head reference : ℕ) → Quiet (busy_round head reference)
unfolding busy_round
busy_round-Quiet head reference = Within-bind quiet get _ (Within-get quiet) λ k.
    Within-bind quiet mintimer_now _ mintimer_now-Quiet λ now. Within-pure quiet (
      let next_target = sub32 (k.timers head).target overhead in
      if ltb next_target (add32 now isr_backoff) then again reference else done next_target)

pub first_reference-Quiet : Quiet first_reference
unfolding first_reference
first_reference-Quiet = Within-bind quiet get _ (Within-get quiet) λ k.
    Within-if quiet (k.timer_list_head == null) _ _
      (Within-then quiet _ _ next_period-Quiet (
        Within-then quiet _ _ (spin_while-Quiet spin_fuel (λ t. t == lltimer_mask 0xffff_ffff))
          (Within-pure quiet 0)))
      lltimer_now-Quiet
