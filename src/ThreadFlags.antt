-- ===== src/ThreadFlags.antt =====
-- core/thread_flags.c: flags of threads, sixteen of them, and waiting for them. The flags and the
-- masks that threads wait for are passed in and returned beside the variables of the scheduler.
pub mod Lost
pub mod Waits
pub mod Cleared
pub mod Settled
mod Tests
use sancus_riot.Common.{
  ℕ, ◌+◌, ◌-◌, ◌%◌, ◌^◌, bit_and, bit_or, Bool, true, false, not, Option, none, some, ◌==◌,
  if◌then◌else◌,
}
use sancus_riot.Kernel.{Kernel, Status, flag_blocked_any, flag_blocked_all, pending, update}
use sancus_riot.Kernel.Monad.{M, pure, ◌>>=◌, ◌>>◌, get, modify, check}
use sancus_riot.Runqueue.{sched_set_status}
use sancus_riot.Entry.{Caller, thread_yield_higher}

-- The fields `flags` and `wait_data` of each thread.
pub record Flags : Type 0 where
  pub flags : ℕ → ℕ
  pub wait_data : ℕ → ℕ

-- `~mask`, of 16 bits.
abbrev pub complement16 : ℕ → ℕ
complement16 mask = 2 ^ 16 - 1 - mask % 2 ^ 16

-- The flags that were set, and what is left.
unfoldable pub clear_atomic : ℕ → ℕ → Flags → ℕ × Flags
clear_atomic thread mask f =
    let mask = bit_and mask (f.flags thread) in
    (
      mask,
      record f { flags = update f.flags thread (bit_and (f.flags thread) (complement16 mask)) },
    )

-- `_thread_flags_wait`, up to the yield.
unfoldable pub block : ℕ → ℕ → Status → Flags → M Flags
block mask thread threadstate f = do
  check thread
  sched_set_status thread threadstate
  pure (record f { wait_data = update f.wait_data thread mask })

unfoldable pub thread_flags_clear : ℕ → Flags → M (ℕ × Flags)
thread_flags_clear mask f = do
  k ← get
  check k.active_thread
  pure (clear_atomic k.active_thread mask f)

-- `_thread_flags_wait_any`, up to the yield; `true` is that the thread has to wait.
unfoldable pub begin_wait_any : ℕ → Flags → M (Bool × Flags)
begin_wait_any mask f = do
  k ← get
  check k.active_thread
  if bit_and (f.flags k.active_thread) mask == 0
      then (do f ← block mask k.active_thread flag_blocked_any f; pure (true, f))
      else pure (false, f)

-- The same for `thread_flags_wait_all`.
unfoldable pub begin_wait_all : ℕ → Flags → M (Bool × Flags)
begin_wait_all mask f = do
  k ← get
  check k.active_thread
  if bit_and (f.flags k.active_thread) mask == mask
      then pure (false, f)
      else (do f ← block mask k.active_thread flag_blocked_all f; pure (true, f))

-- A thread that has to wait goes on by clearing flags when it runs again, which is `none` here.
unfoldable pub wait_or : ℕ → Caller → (Flags → M (ℕ × Flags)) → Bool × Flags → M (Option ℕ × Flags)
wait_or fuel caller clear (true, f) = do thread_yield_higher fuel caller; pure (none, f)
wait_or fuel caller clear (false, f) = do (mask, f) ← clear f; pure (some mask, f)

unfoldable pub thread_flags_wait_any : ℕ → Caller → ℕ → Flags → M (Option ℕ × Flags)
unfolding wait_or
thread_flags_wait_any fuel caller mask f =
    begin_wait_any mask f >>= wait_or fuel caller (thread_flags_clear mask)

-- `tmp & (~tmp + 1)` for the flags that are set.
unfoldable pub clear_one : ℕ → Flags → M (ℕ × Flags)
clear_one mask f = do
  k ← get
  check k.active_thread
  let tmp = bit_and (f.flags k.active_thread) mask
  pure (clear_atomic k.active_thread (bit_and tmp ((complement16 tmp + 1) % 2 ^ 16)) f)

unfoldable pub thread_flags_wait_one : ℕ → Caller → ℕ → Flags → M (Option ℕ × Flags)
unfolding wait_or
thread_flags_wait_one fuel caller mask f =
    begin_wait_any mask f >>= wait_or fuel caller (clear_one mask)

unfoldable pub thread_flags_wait_all : ℕ → Caller → ℕ → Flags → M (Option ℕ × Flags)
unfolding wait_or
thread_flags_wait_all fuel caller mask f =
    begin_wait_all mask f >>= wait_or fuel caller (thread_flags_clear mask)

-- Whether a thread with this status, these flags and this mask is to be woken.
unfoldable pub wakeup : Status → ℕ → ℕ → Bool
wakeup flag_blocked_any flags mask = not (bit_and flags mask == 0)
wakeup flag_blocked_all flags mask = bit_and flags mask == mask
wakeup _ flags mask = false

unfoldable pub thread_flags_wake : ℕ → Flags → M Bool
thread_flags_wake thread f = do
  check thread
  k ← get
  if wakeup (k.threads thread).status (f.flags thread) (f.wait_data thread % 2 ^ 16)
      then (do
        sched_set_status thread pending
        modify (λ k. record k { switch_request = true })
        pure true)
      else pure false

-- `thread->flags |= mask`
abbrev pub with_flags : ℕ → ℕ → Flags → Flags
with_flags thread mask f = record f { flags = update f.flags thread (bit_or (f.flags thread) mask) }

unfoldable pub thread_flags_set : ℕ → Caller → ℕ → ℕ → Flags → M Flags
thread_flags_set fuel caller thread mask f = do
  woken ← thread_flags_wake thread (with_flags thread mask f)
  if woken
      then (do thread_yield_higher fuel caller; pure (with_flags thread mask f))
      else pure (with_flags thread mask f)
