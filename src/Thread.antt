-- ===== src/Thread.antt =====
-- core/thread.c: finding, waking and creating threads inside the scheduler, and
-- core/include/kernel_types.h: `pid_is_valid`. A pid that is passed in is not negative here.
pub mod Create
pub mod Wakeup
mod Tests
use sancus_riot.Common.{
  ℕ, zero, suc, ◌+◌, ◌%◌, ◌^◌, Bool, true, false, not, ◌&&◌, Option, none, some, ◌==◌, ltb, leb,
  if◌then◌else◌,
}
use sancus_riot.Clist.Chain.{null, set_next}
use sancus_riot.Kernel.{
  Kernel, Thread, Status, sleeping, running, pending, on_runqueue, is_sleeping, update,
  periodic_prio_level, max_prio_level_unprotected, pid_undef, pid_first, pid_last,
}
use sancus_riot.Kernel.Monad.{M, pure, ◌>>=◌, ◌>>◌, fault, get, modify}
use sancus_riot.Runqueue.{sched_set_status}
use sancus_riot.Sched.{sched_set_own_status}
use sancus_riot.Entry.{Caller, thread_yield_higher}
use sancus_riot.SecureMintimer.{now_internal}
use sancus_riot.SecureMintimer.Set.{tsleep_specific_pid}

unfoldable pub pid_is_valid : ℕ → Bool
pid_is_valid pid = leb pid_first pid && leb pid pid_last

-- The thread of a pid, or NULL.
unfoldable pub thread_get : ℕ → ℕ
unfolding pid_is_valid
thread_get pid = if pid_is_valid pid then pid else null

-- `none` is STATUS_NOT_FOUND.
unfoldable pub thread_getstatus : Kernel → ℕ → Option Status
unfolding thread_get
thread_getstatus k pid =
    if thread_get pid == null then none else some (k.threads (thread_get pid)).status

unfoldable pub thread_getpid : Kernel → ℕ
thread_getpid k = k.active_pid

unfoldable pub thread_sleep : ℕ → Caller → M (Unit {0})
thread_sleep fuel caller = do
  k ← get
  if k.irq_is_in then pure tt else sched_set_own_status sleeping >> thread_yield_higher fuel caller

-- `true` is the result 1, `false` is STATUS_NOT_FOUND.
unfoldable pub thread_wakeup : ℕ → M Bool
unfolding thread_get
thread_wakeup pid = do
  k ← get
  let thread = thread_get pid
  if thread == null
      then pure false
      else if is_sleeping (k.threads thread).status
      then sched_set_status thread running >> pure true
      else pure false

-- The loop that looks for an unused entry of `sched_threads`: `tries` entries from `i` on are left.
unfoldable pub free_pid : ℕ → Kernel → ℕ → ℕ
free_pid zero k i = pid_undef
free_pid (suc tries) k i =
    let rest = free_pid tries k (i + 1) in if not (k.threads i).in_use then i else rest

-- What a function that creates a thread returns.
pub data CreateResult : Type 0 where
  created : ℕ → CreateResult
  overflow : CreateResult
  invalid : CreateResult

-- The entry of a new thread.
unfoldable pub register : ℕ → ℕ → Bool → ℕ → Kernel → Kernel
register pid priority is_sm sp k = record k {
  threads = update k.threads pid (record (k.threads pid) {
    in_use = true;
    pid = pid;
    priority = priority;
    is_sm = is_sm;
    sp = sp;
  });
  links = set_next k.links pid null;
  num_threads = (k.num_threads + 1) % 2 ^ 16;
}

-- `_thread_create_scheduler_internal`
unfoldable pub create_internal : ℕ → Bool → ℕ → M CreateResult
create_internal priority is_sm sp = do
  k ← get
  let pid = free_pid pid_last k pid_first
  if pid == pid_undef then pure overflow else do
    modify (register pid priority is_sm sp)
    sched_set_status pid pending
    pure (created pid)

-- The entry of a protected thread is set even if none was created: the error code is no valid
-- index of `sched_threads` then, which is a fault.
unfoldable pub set_entry : CreateResult → ℕ → ℕ → M CreateResult
set_entry (created pid) entry idx k = some (
  created pid,
  record k {
    threads = update k.threads pid (record (k.threads pid) { sm_idx = idx; sm_entry = entry });
  },
)
set_entry overflow entry idx k = none
set_entry invalid entry idx k = none

-- `thread_create_protected_in_scheduler`
unfoldable pub create_protected : ℕ → ℕ → ℕ → ℕ → M CreateResult
unfolding set_entry
create_protected priority sp entry idx = do
  r ← create_internal priority true sp
  set_entry r entry idx

-- `thread_create_unprotected_in_scheduler`
unfoldable pub create_unprotected : ℕ → ℕ → M CreateResult
create_unprotected priority sp =
    if ltb priority max_prio_level_unprotected
    then pure invalid
    else create_internal priority false sp

-- `thread_change_to_periodical`
unfoldable pub change_to_periodical : ℕ → ℕ → ℕ → M (Unit {0})
change_to_periodical pid runtime period = do
  sched_set_status pid sleeping
  modify λ k. record k {
    threads =
        update k.threads pid
          (record (k.threads pid) { priority = periodic_prio_level; period = period });
  }
  (short_term, _) ← now_internal
  modify λ k. record k {
    threads = update k.threads pid (record (k.threads pid) {
      last_reference = short_term;
      last_runtime = 0;
      runtime = runtime;
      original_idx = (k.threads pid).sm_idx;
    });
  }
  tsleep_specific_pid period pid
