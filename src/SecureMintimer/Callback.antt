-- ===== src/SecureMintimer/Callback.antt =====
-- The interrupt handler of the timer: `_select_long_timers`, `_next_period`, `_timer_callback`.
pub mod Quiet
pub mod Keeping
use sancus_riot.Common.{
  ℕ, zero, suc, ◌+◌, ◌-◌, ◌%◌, ◌^◌, true, false, ◌&&◌, Option, none, some, ◌==◌, ltb, leb,
  if◌then◌else◌,
}
use sancus_riot.Kernel.{Kernel}
use sancus_riot.Kernel.Monad.{M, pure, ◌>>=◌, ◌>>◌, fault, get, modify}
use sancus_riot.SecureMintimer.{
  overhead, isr_backoff, add32, sub32, lltimer_mask, lltimer_now, mintimer_now, lltimer_set,
  this_high_period, shoot_timer, spin_while, spin_fuel,
}
use sancus_riot.SecureMintimer.Set.{set_target}
use sancus_riot.SecureMintimer.TimerList.{null, set_next, list_fuel, merge_lists}

-- The loop of `_select_long_timers`: the last entry that is selected, or NULL, and the new head.
select_loop : ℕ → Kernel → ℕ → ℕ → Option (ℕ × ℕ)
unfolding this_high_period
select_loop zero k last head = none
select_loop (suc fuel) k last head =
    let t = k.timers head in
    let rest = select_loop fuel k head t.next in
    if head == null
    then some (last, head)
    else if leb t.long_target k.long_cnt && this_high_period t.target k
    then rest
    else some (last, head)

-- What follows the loop: the selected timers, cut off, go to the current list.
join_selected : ℕ → ℕ → ℕ → Kernel → Option Kernel
unfolding merge_lists
join_selected start last head k =
    let cut = record k { long_list_head = head; timers = set_next k.timers last null } in
    if last == null
    then some (record k { long_list_head = head })
    else if k.timer_list_head == null
    then some (record cut { timer_list_head = start })
    else elim (merge_lists list_fuel cut.timers k.timer_list_head start) [
      | none ↦ none
      | some (merged, ts) ↦ some (record cut { timer_list_head = merged; timers = ts })
    ]

unfoldable pub select_long_timers : M (Unit {0})
unfolding select_loop join_selected
select_long_timers k = elim (select_loop list_fuel k null k.long_list_head) [
  | none ↦ none
  | some (last, head) ↦ elim (join_selected k.long_list_head last head k) [
    | none ↦ none
    | some k' ↦ some (tt, k')
  ]
]

-- The counters and lists of `_next_period`.
unfoldable pub advance : Kernel → Kernel
advance k =
    let high = add32 k.high_cnt (2 ^ 16) in
    record k {
      high_cnt = high;
      long_cnt = if high == 0 then add32 k.long_cnt 1 else k.long_cnt;
      timer_list_head = k.overflow_list_head;
      overflow_list_head = null;
    }

unfoldable pub next_period : M (Unit {0})
unfolding advance select_long_timers
next_period = modify advance >> select_long_timers

-- `_time_left`
unfoldable pub time_left : ℕ → ℕ → M ℕ
unfolding lltimer_now
time_left target reference = do
  now ← lltimer_now
  pure (if ltb now reference then 0 else if ltb now target then target - now else 0)

-- The loop that waits until nothing is left.
pub wait_left : ℕ → ℕ → ℕ → M (Unit {0})
unfolding time_left
wait_left zero target reference = fault
wait_left (suc fuel) target reference = do
  left ← time_left target reference
  elim (left == 0) [ false ↦ wait_left fuel target reference | true ↦ pure tt ]

-- One round of the loop that shoots: the first timer of the list goes.
pub shoot_first : M (Unit {0})
unfolding shoot_timer
shoot_first = do
  k ← get
  let timer = k.timer_list_head
  modify (λ k. record k { timer_list_head = (k.timers timer).next })
  modify (set_target timer 0 0)
  shoot_timer timer

-- The loop that shoots the timers that are due, or will be soon.
pub shoot_loop : ℕ → ℕ → M (Unit {0})
unfolding time_left wait_left shoot_first
shoot_loop zero reference k = none
shoot_loop (suc fuel) reference k =
    let target = lltimer_mask (k.timers k.timer_list_head).target in
    let more = do
      left ← time_left target reference
      elim (ltb left isr_backoff) [
        | true ↦ do wait_left spin_fuel target reference; shoot_first; shoot_loop fuel reference
        | false ↦ pure tt
      ]
    in (if k.timer_list_head == null then pure tt else more) k

-- How a round from the label `overflow` ends: with `goto overflow` and a new reference, or with the
-- next target.
pub data Round : Type 0 where
  again : ℕ → Round
  done : ℕ → Round

-- The end of a round with no timer left in this period.
pub idle_round : ℕ → M Round
unfolding lltimer_now lltimer_mask next_period spin_while
idle_round reference = do
  now ← lltimer_now
  if ltb now reference
      then next_period >> pure (again 0)
      else if ltb (lltimer_mask (now + isr_backoff)) now
      then (do spin_while spin_fuel (λ t. leb now t); next_period; pure (again 0))
      else pure (done (lltimer_mask 0xffff_ffff))

-- The end of a round with a timer left.
pub busy_round : ℕ → ℕ → M Round
unfolding mintimer_now
busy_round head reference = do
  k ← get
  let next_target = sub32 (k.timers head).target overhead
  now ← mintimer_now
  pure (if ltb next_target (add32 now isr_backoff) then again reference else done next_target)

-- A round. The sum that is compared with the reference is one of `unsigned int`, 16 bits wide.
pub round : ℕ → M Round
unfolding shoot_loop lltimer_now next_period spin_while idle_round busy_round
round reference = do
  shoot_loop list_fuel reference
  now ← lltimer_now
  if ltb ((now + isr_backoff) % 2 ^ 16) reference
      then (do next_period; spin_while spin_fuel (λ t. ltb reference t); pure (again 0))
      else do
        k ← get
        if k.timer_list_head == null
            then idle_round reference
            else busy_round k.timer_list_head reference

pub rounds : ℕ → ℕ → M ℕ
unfolding round
rounds zero reference = fault
rounds (suc fuel) reference = do
  r ← round reference
  elim r [ again reference' ↦ rounds fuel reference' | done target ↦ pure target ]

-- The start of the handler, which finds the reference.
pub first_reference : M ℕ
unfolding next_period lltimer_now spin_while
first_reference = do
  k ← get
  if k.timer_list_head == null
      then (do next_period; spin_while spin_fuel (λ t. t == lltimer_mask 0xffff_ffff); pure 0)
      else lltimer_now

-- `_timer_callback`, less the reset of the interrupt flag of the peripheral.
unfoldable pub timer_callback : ℕ → M (Unit {0})
unfolding first_reference rounds lltimer_set
timer_callback fuel = do
  modify (λ k. record k { in_handler = true })
  reference ← first_reference
  next_target ← rounds fuel reference
  modify (λ k. lltimer_set next_target (record k { in_handler = false }))
