-- ===== src/SecureMintimer.antt =====
-- sys/secure_mintimer/secure_mintimer_core.c: timers that wake threads, over one 16-bit hardware
-- counter. A `secure_mintimer_t *` is an address: NULL is 0, `&secure_mintimer_timer_list[i]` is
-- `i + 1`, `&scheduler_timer` is 17. The address 16 lies behind the end of the array.
pub mod TimerList
pub mod Quiet
pub mod Set
pub mod Callback
mod Tests
use sancus_riot.Common.{
  ℕ, zero, suc, ◌+◌, ◌-◌, ◌*◌, ◌/◌, ◌%◌, ◌^◌, Bool, true, false, not, ◌||◌, Option, none, some,
  ◌==◌, ltb, leb, if◌then◌else◌, bit_or,
}
use sancus_riot.Kernel.{Kernel, Thread, Timer, Status, sleeping, pending, update}
use sancus_riot.Kernel.Monad.{M, pure, ◌>>=◌, ◌>>◌, fault, get, modify, check}
use sancus_riot.Runqueue.{sched_set_status}
use TimerList.{
  Timers, null, add_timer, remove_timer, merge_lists, list_fuel, not_after, not_after_long,
}

-- SECURE_MINTIMER_TIMER_LIST_LENGTH
abbrev pub timer_list_length : ℕ
timer_list_length = 15

-- SECURE_MINTIMER_BACKOFF
abbrev pub backoff : ℕ
backoff = 200

-- SECURE_MINTIMER_OVERHEAD
abbrev pub overhead : ℕ
overhead = 300

-- SECURE_MINTIMER_ISR_BACKOFF
abbrev pub isr_backoff : ℕ
isr_backoff = 200

abbrev pub scheduler_timer : ℕ
scheduler_timer = 17

-- `uint32_t` addition and subtraction
abbrev pub add32 : ℕ → ℕ → ℕ
add32 a b = (a + b) % 2 ^ 32

abbrev pub sub32 : ℕ → ℕ → ℕ
sub32 a b = (a + 2 ^ 32 - b) % 2 ^ 32

-- `_secure_mintimer_lltimer_mask`: SECURE_MINTIMER_MASK is 0xffff0000.
unfoldable pub lltimer_mask : ℕ → ℕ
lltimer_mask val = val % 2 ^ 16

unfoldable pub is_set : Timer → Bool
is_set timer = not (timer.target == 0) || not (timer.long_target == 0)

-- `_secure_mintimer_lltimer_now`: a read of the hardware counter.
unfoldable pub lltimer_now : M ℕ
lltimer_now k = some (k.counter k.reads % 2 ^ 16, record k { reads = k.reads + 1 })

-- The loop that reads the counter until `test` fails.
unfoldable pub spin_while : ℕ → (ℕ → Bool) → M (Unit {0})
spin_while zero test = fault
spin_while (suc fuel) test = do
  now ← lltimer_now
  elim (test now) [ true ↦ spin_while fuel test | false ↦ pure tt ]

-- The counter runs through all its values within so many reads.
abbrev pub spin_fuel : ℕ
spin_fuel = 2 ^ 17

unfoldable pub spin_until : ℕ → M (Unit {0})
unfolding spin_while
spin_until target = do
  let value = lltimer_mask target
  spin_while spin_fuel (λ now. ltb value now)
  spin_while spin_fuel (λ now. ltb now value)

-- `_secure_mintimer_now`: the loop over `_secure_mintimer_high_cnt` ends at once, since no interrupt
-- can change that variable inside the protected module.
unfoldable pub mintimer_now : M ℕ
unfolding lltimer_now
mintimer_now = do k ← get; now ← lltimer_now; pure (bit_or k.high_cnt now)

-- `_secure_mintimer_now_internal`: the short and the long part.
unfoldable pub now_internal : M (ℕ × ℕ)
unfolding lltimer_now
now_internal = do k ← get; now ← lltimer_now; pure (bit_or k.high_cnt now, k.long_cnt)

unfoldable pub now64 : M ℕ
unfolding now_internal
now64 = do (short_term, long_term) ← now_internal; pure (long_term * 2 ^ 32 + short_term)

unfoldable pub lltimer_set : ℕ → Kernel → Kernel
unfolding lltimer_mask
lltimer_set target k = if k.in_handler then k else record k { compare = lltimer_mask target }

unfoldable pub this_high_period : ℕ → Kernel → Bool
this_high_period target k = target / 2 ^ 16 * 2 ^ 16 == k.high_cnt

-- To shoot a timer is to let its thread be scheduled again.
unfoldable pub shoot_timer : ℕ → M (Unit {0})
shoot_timer timer = do
  check timer
  k ← get
  let thread = (k.timers timer).thread
  if thread == null then pure tt else sched_set_status thread pending
  modify (λ k. record k { switch_request = true })

-- What a list function leaves, or a fault where its loop did not end.
lists : {A : Type 0} → Option A → (A → Kernel → Kernel) → M (Unit {0})
lists o f = elim o [ none ↦ fault | some a ↦ modify (f a) ]

unfoldable pub add_to_timer_list : ℕ → M (Unit {0})
unfolding lists
add_to_timer_list timer = do
  k ← get
  lists (add_timer list_fuel not_after k.timers k.timer_list_head timer)
      λ (head, ts) k. record k { timer_list_head = head; timers = ts }

unfoldable pub add_to_overflow_list : ℕ → M (Unit {0})
unfolding lists
add_to_overflow_list timer = do
  k ← get
  lists (add_timer list_fuel not_after k.timers k.overflow_list_head timer)
      λ (head, ts) k. record k { overflow_list_head = head; timers = ts }

unfoldable pub add_to_long_list : ℕ → M (Unit {0})
unfolding lists
add_to_long_list timer = do
  k ← get
  lists (add_timer list_fuel not_after_long k.timers k.long_list_head timer)
      λ (head, ts) k. record k { long_list_head = head; timers = ts }
