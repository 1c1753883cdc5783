-- ===== src/ThreadFlags/Waits.antt =====
-- Beginning to wait for flags, and clearing them; no wake-up is lost by any call.
use sancus_riot.Common.{
  ℕ, ◌%◌, ◌^◌, ◌<◌, ◌≡◌, ◌≢◌, refl, bit_and, Bool, true, false, some, none, ◌==◌,
}
use sancus_riot.Kernel.{Kernel, Status, flag_blocked_any, flag_blocked_all, on_runqueue, update}
use sancus_riot.Runqueue.{set_status, sched_set_status}
use sancus_riot.ThreadFlags.{
  Flags, clear_atomic, with_flags, thread_flags_wake, thread_flags_clear, block, begin_wait_any,
  begin_wait_all,
}
use sancus_riot.ThreadFlags.Lost.{NotWoken}

pub any-null :
    (k : Kernel) (f : Flags) (mask : ℕ)
    → k.active_thread == 0 ≡ true
    → begin_wait_any mask f k ≡ none
unfolding begin_wait_any
any-null k f mask e = rw e refl

pub any-blocks :
    (k : Kernel) (f : Flags) (mask : ℕ)
    → k.active_thread == 0 ≡ false
    → bit_and (f.flags k.active_thread) mask == 0 ≡ true
    → begin_wait_any mask f k
      ≡ some (
        (true, record f { wait_data = update f.wait_data k.active_thread mask }),
        set_status k k.active_thread flag_blocked_any,
      )
unfolding begin_wait_any block sched_set_status
any-blocks k f mask nn e = rw (nn, e) refl

pub any-passes :
    (k : Kernel) (f : Flags) (mask : ℕ)
    → k.active_thread == 0 ≡ false
    → bit_and (f.flags k.active_thread) mask == 0 ≡ false
    → begin_wait_any mask f k ≡ some ((false, f), k)
unfolding begin_wait_any
any-passes k f mask nn e = rw (nn, e) refl

pub all-blocks :
    (k : Kernel) (f : Flags) (mask : ℕ)
    → k.active_thread == 0 ≡ false
    → bit_and (f.flags k.active_thread) mask == mask ≡ false
    → begin_wait_all mask f k
      ≡ some (
        (true, record f { wait_data = update f.wait_data k.active_thread mask }),
        set_status k k.active_thread flag_blocked_all,
      )
unfolding begin_wait_all block sched_set_status
all-blocks k f mask nn e = rw (nn, e) refl

pub all-passes :
    (k : Kernel) (f : Flags) (mask : ℕ)
    → k.active_thread == 0 ≡ false
    → bit_and (f.flags k.active_thread) mask == mask ≡ true
    → begin_wait_all mask f k ≡ some ((false, f), k)
unfolding begin_wait_all
all-passes k f mask nn e = rw (nn, e) refl

pub all-null :
    (k : Kernel) (f : Flags) (mask : ℕ)
    → k.active_thread == 0 ≡ true
    → begin_wait_all mask f k ≡ none
unfolding begin_wait_all
all-null k f mask e = rw e refl

pub clear-null :
    (k : Kernel) (f : Flags) (mask : ℕ)
    → k.active_thread == 0 ≡ true
    → thread_flags_clear mask f k ≡ none
unfolding thread_flags_clear
clear-null k f mask e = rw e refl

pub clear-eq :
    (k : Kernel) (f : Flags) (mask : ℕ)
    → k.active_thread == 0 ≡ false
    → thread_flags_clear mask f k ≡ some (clear_atomic k.active_thread mask f, k)
unfolding thread_flags_clear
clear-eq k f mask nn = rw nn refl

-- One call, up to its yield. A mask has 16 bits, and a thread that clears its flags is able to run.
pub data Call : Kernel → Flags → Kernel → Flags → Type 0 where
  sets :
      (thread mask : ℕ) (woken : Bool) {k k' : Kernel} {f : Flags}
      → thread_flags_wake thread (with_flags thread mask f) k ≡ some (woken, k')
      → Call k f k' (with_flags thread mask f)
  waits_any :
      (mask : ℕ) (blocked : Bool) {k k' : Kernel} {f f' : Flags}
      → mask < 2 ^ 16
      → begin_wait_any mask f k ≡ some ((blocked, f'), k')
      → Call k f k' f'
  waits_all :
      (mask : ℕ) (blocked : Bool) {k k' : Kernel} {f f' : Flags}
      → mask < 2 ^ 16
      → begin_wait_all mask f k ≡ some ((blocked, f'), k')
      → Call k f k' f'
  clears :
      (mask cleared : ℕ) {k k' : Kernel} {f f' : Flags}
      → on_runqueue (k.threads k.active_thread).status ≡ true
      → thread_flags_clear mask f k ≡ some ((cleared, f'), k')
      → Call k f k' f'

module _ (k k' : Kernel) (f f' : Flags) (a : NotWoken k f) where
  -- The flags and the mask of a thread that begins to wait.
  waiting : ℕ → Flags
  waiting mask = record f { wait_data = update f.wait_data k.active_thread mask }

-- What a thread with this status, these flags and this mask waits for has not happened.
abbrev pub Asleep : Status → ℕ → ℕ → Type 0
Asleep flag_blocked_any flags mask = bit_and flags mask ≡ 0
Asleep flag_blocked_all flags mask = bit_and flags mask ≢ mask
Asleep _ flags mask = Unit

-- No thread waits for flags that it has.
abbrev pub IsAwake : Kernel → Flags → Type 0
IsAwake k f = (n : ℕ) → Asleep (k.threads n).status (f.flags n) (f.wait_data n % 2 ^ 16)
