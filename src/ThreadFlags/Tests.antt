-- ===== src/ThreadFlags/Tests.antt =====
-- Examples for thread flags: the active thread has the flags 2 and 3; thread 5 begins to wait for
-- flag 1, and gets it.
use sancus_riot.Common.{true, false, [], ◌==◌, if◌then◌else◌, arith}
use sancus_riot.Kernel.{Kernel, flag_blocked_any, pending}
use sancus_riot.Runqueue.{set_status}
use sancus_riot.Sched.{with_thread}
use sancus_riot.Sched.Example.{two}
use sancus_riot.Entry.{Caller}
use sancus_riot.ThreadFlags.{Flags}
use sancus_riot.ThreadFlags.Cleared.{OneCleared, thread_flags_wait_one-OneCleared}

abbrev caller : Caller
caller = record { interrupts = []; due = false; sp = 0x9000; protected = true }

abbrev flags : Flags
flags = record { flags = λ n. if n == 3 then 12 else 0; wait_data = λ n. 2 }

-- Thread 5 waits for flag 1.
abbrev waiting : Kernel
waiting = with_thread two 5 (record (two.threads 5) { status = flag_blocked_any })

thread_flags_wait_one-OneCleared_example : OneCleared 0 caller two flags 12
thread_flags_wait_one-OneCleared_example =
    thread_flags_wait_one-OneCleared 0 caller 12 flags two (λ e. ground arith) (omega arith)
      (λ e. ground arith)

abbrev woken : Kernel
woken = record (set_status waiting 5 pending) { switch_request = true }
