-- ===== src/System/Safety.antt =====
-- The calls of the scheduler as a step relation, and what every run of them keeps.
use sancus_riot.Common.{ℕ, ◌≡◌, ◌≢◌, ◌⊎◌, Bool, Option, some}
use sancus_riot.Kernel.{Kernel}
use sancus_riot.Entry.{FunctionType, Caller, Interrupted, exitless_entry, isr_func}
use sancus_riot.Thread.{
  CreateResult, thread_wakeup, thread_sleep, create_protected, create_unprotected,
}
use sancus_riot.Mutex.{mutex_locked, mutex_lock, mutex_unlock, mutex_unlock_and_sleep}
use sancus_riot.Mailbox.{Mbox, Memory, Outcome, mbox_put, mbox_get}
use sancus_riot.Mailbox.Settled.{CanWait, mbox_put-Settled}
use sancus_riot.Mailbox.Gets.{mbox_get-Settled}
use sancus_riot.ThreadFlags.{
  Flags, thread_flags_set, thread_flags_wait_any, thread_flags_wait_one, thread_flags_wait_all,
}
use sancus_riot.ThreadFlags.Settled.{
  thread_flags_set-Settled, wait_any-Settled, wait_one-Settled, wait_all-Settled,
}
use sancus_riot.System.Sound.{IsSettled}
use sancus_riot.System.Entries.{exitless_entry-Settled}
use sancus_riot.System.Interrupts.{isr_func-Settled}
use sancus_riot.System.Waits.{wakeup-Settled, thread_sleep-Settled}
use sancus_riot.System.Releases.{mutex_unlock-Settled, unlock_and_sleep-Settled}
use sancus_riot.System.Creates.{
  IsPriority, IsIdle, create_protected-Settled, create_unprotected-Settled,
}
use sancus_riot.System.Mutexes.{IsHeld, mutex_lock-Settled}

-- One call of the scheduler that returns. Every argument is free but the following: a new thread has
-- a priority in range that is not that of periodic jobs, and no unused entry is on a run queue then;
-- a mutex that is waited for is free, or locked with fewer than 64 threads in its list; and fewer than
-- 64 threads wait at a mailbox, none of which is able to run.
pub data Step : Kernel → Kernel → Type 0 where
  enters :
      (fuel : ℕ) (due : Bool) (function : FunctionType) (sp : ℕ) (protected : Bool) {k k' : Kernel}
      → exitless_entry fuel due function sp protected k ≡ some (tt, k')
      → Step k k'
  interrupts :
      (fuel : ℕ) (violation overflow : Bool) (interrupted : Interrupted) (sp : ℕ) {k k' : Kernel}
      → isr_func fuel violation overflow interrupted sp k ≡ some (tt, k')
      → Step k k'
  wakes_up :
      (pid : ℕ) (woken : Bool) {k k' : Kernel} → thread_wakeup pid k ≡ some (woken, k') → Step k k'
  falls_asleep :
      (fuel : ℕ) (caller : Caller) {k k' : Kernel}
      → thread_sleep fuel caller k ≡ some (tt, k')
      → Step k k'
  creates_protected :
      (priority sp entry idx : ℕ) (r : CreateResult) {k k' : Kernel}
      → IsPriority priority
      → IsIdle k
      → create_protected priority sp entry idx k ≡ some (r, k')
      → Step k k'
  creates_unprotected :
      (priority sp : ℕ) (r : CreateResult) {k k' : Kernel}
      → IsPriority priority
      → IsIdle k
      → create_unprotected priority sp k ≡ some (r, k')
      → Step k k'
  locks :
      (fuel : ℕ) (caller : Caller) (queue : ℕ) (blocking : Bool) (r : Bool × ℕ) {k k' : Kernel}
      → (queue ≡ 0) ⊎ IsHeld k queue
      → k.active_thread ≢ mutex_locked
      → mutex_lock fuel caller queue blocking k ≡ some (r, k')
      → Step k k'
  unlocks :
      (fuel queue next : ℕ) {k k' : Kernel}
      → mutex_unlock fuel queue k ≡ some (next, k')
      → Step k k'
  unlocks_and_sleeps :
      (fuel : ℕ) (caller : Caller) (queue next : ℕ) {k k' : Kernel}
      → mutex_unlock_and_sleep fuel caller queue k ≡ some (next, k')
      → Step k k'
  puts :
      (fuel : ℕ) (caller : Caller) (msg : ℕ) (blocking : Bool) (mbox : Mbox) (memory : Memory)
      (r : Outcome × Mbox × Memory) {k k' : Kernel}
      → CanWait k mbox.writers
      → mbox_put fuel caller msg blocking mbox memory k ≡ some (r, k')
      → Step k k'
  gets :
      (fuel : ℕ) (caller : Caller) (msg : ℕ) (blocking : Bool) (mbox : Mbox) (memory : Memory)
      (r : Outcome × Mbox × Memory) {k k' : Kernel}
      → CanWait k mbox.readers
      → mbox_get fuel caller msg blocking mbox memory k ≡ some (r, k')
      → Step k k'
  sets_flags :
      (fuel : ℕ) (caller : Caller) (thread mask : ℕ) (f f' : Flags) {k k' : Kernel}
      → thread_flags_set fuel caller thread mask f k ≡ some (f', k')
      → Step k k'
  waits_for_any :
      (fuel : ℕ) (caller : Caller) (mask : ℕ) (f : Flags) (r : Option ℕ × Flags) {k k' : Kernel}
      → thread_flags_wait_any fuel caller mask f k ≡ some (r, k')
      → Step k k'
  waits_for_one :
      (fuel : ℕ) (caller : Caller) (mask : ℕ) (f : Flags) (r : Option ℕ × Flags) {k k' : Kernel}
      → thread_flags_wait_one fuel caller mask f k ≡ some (r, k')
      → Step k k'
  waits_for_all :
      (fuel : ℕ) (caller : Caller) (mask : ℕ) (f : Flags) (r : Option ℕ × Flags) {k k' : Kernel}
      → thread_flags_wait_all fuel caller mask f k ≡ some (r, k')
      → Step k k'

-- So many calls one after the other.
pub data Run : Kernel → Kernel → Type 0 where
  stays : {k : Kernel} → Run k k
  steps : {k k1 k' : Kernel} → Run k k1 → Step k1 k' → Run k k'

Step-Settled : {k k' : Kernel} → IsSettled k → Step k k' → IsSettled k'
Step-Settled s (enters fuel due function sp protected h) =
    exitless_entry-Settled fuel due function sp protected _ _ tt s h
Step-Settled s (interrupts fuel violation overflow interrupted sp h) =
    isr_func-Settled fuel violation overflow interrupted sp _ _ tt s h
Step-Settled s (wakes_up pid woken h) = wakeup-Settled pid _ _ woken s h
Step-Settled s (falls_asleep fuel caller h) = thread_sleep-Settled fuel caller _ _ tt s h
Step-Settled s (creates_protected priority sp entry idx r hp idle h) =
    create_protected-Settled priority sp entry idx _ _ r hp idle s h
Step-Settled s (creates_unprotected priority sp r hp idle h) =
    create_unprotected-Settled priority sp _ _ r hp idle s h
Step-Settled s (locks fuel caller queue blocking r m pr h) =
    mutex_lock-Settled fuel caller queue blocking _ _ r m pr s h
Step-Settled s (unlocks fuel queue next h) = mutex_unlock-Settled fuel queue _ _ next s h
Step-Settled s (unlocks_and_sleeps fuel caller queue next h) =
    unlock_and_sleep-Settled fuel caller queue _ _ next s h
Step-Settled s (puts fuel caller msg blocking mbox memory r c h) =
    mbox_put-Settled fuel caller msg blocking mbox memory _ _ r c s h
Step-Settled s (gets fuel caller msg blocking mbox memory r c h) =
    mbox_get-Settled fuel caller msg blocking mbox memory _ _ r c s h
Step-Settled s (sets_flags fuel caller thread mask f f' h) =
    thread_flags_set-Settled fuel caller thread mask f f' _ _ s h
Step-Settled s (waits_for_any fuel caller mask f r h) =
    wait_any-Settled fuel caller mask f _ _ r s h
Step-Settled s (waits_for_one fuel caller mask f r h) =
    wait_one-Settled fuel caller mask f _ _ r s h
Step-Settled s (waits_for_all fuel caller mask f r h) =
    wait_all-Settled fuel caller mask f _ _ r s h

-- In every state that a run of calls of the scheduler leads to, the variables are in order, if
-- they were at the start: the run queues are circular lists without common threads, they hold
-- exactly the running and pending threads by priority and agree with the bit cache, no thread has
-- the priority of periodic jobs, each entry knows its own pid or was never used, and either no
-- thread is active or the active one is the first of its run queue. The calls are the entry from
-- other modules with each of its functions and with or without a timer interrupt pending, the
-- interrupt handler with or without a violation, whatever the interrupt stops, waking, sleeping,
-- creating threads, locking and unlocking a mutex, unlocking it to sleep, putting into a mailbox
-- and getting from it, setting the flags of a thread and waiting for flags, where a thread that
-- yields does it through the entry and after any number of timer interrupts, with any arguments
-- and as far as they return; but a new thread gets a priority below 16 that is not that of
-- periodic jobs, while no unused entry is on a run queue, and a mutex that is locked is free or
-- has a proper list of fewer than 64 threads, fewer than 64 threads, none of them able to run,
-- wait at the side of a mailbox where a thread may have to wait, and in both cases the address of
-- the active thread is not that of mutex_LOCKED.
pub Run-Settled : (k k' : Kernel) → IsSettled k → Run k k' → IsSettled k'
Run-Settled k k' s stays = s
Run-Settled k k' s (steps r e) = Step-Settled (Run-Settled k _ s r) e
