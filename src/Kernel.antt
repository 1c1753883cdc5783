-- ===== src/Kernel.antt =====
-- The variables of the protected scheduler, the SM `sancus_sm_timer`: core/sched.c,
-- core/include/sched.h and sys/secure_mintimer/secure_mintimer_core.c.
-- A thread pointer is the thread's pid: `&sched_threads[pid]` is `pid`, and NULL is 0, which is
-- KERNEL_PID_UNDEF and no thread. The node `rq_entry` of a thread has the thread's address.
pub mod Monad
pub mod Within
use sancus_riot.Common.{ℕ, ◌+◌, Bool, true, false, ◌==◌, leb, if◌then◌else◌}
use sancus_riot.Clist.Chain.{Links}

-- `thread_status_t`
pub data Status : Type 0 where
  stopped : Status
  sleeping : Status
  mutex_blocked : Status
  receive_blocked : Status
  send_blocked : Status
  reply_blocked : Status
  flag_blocked_any : Status
  flag_blocked_all : Status
  mbox_blocked : Status
  cond_blocked : Status
  running : Status
  pending : Status

-- `status >= STATUS_ON_RUNQUEUE`: the enumeration lists `running` and `pending` last.
abbrev pub on_runqueue : Status → Bool
on_runqueue running = true
on_runqueue pending = true
on_runqueue _ = false

abbrev pub is_running : Status → Bool
is_running running = true
is_running _ = false

abbrev pub is_sleeping : Status → Bool
is_sleeping sleeping = true
is_sleeping _ = false

-- `thread_t`, less `rq_entry`, which is in `Kernel.links`.
pub record Thread : Type 0 where
  pub is_sm : Bool
  pub sp : ℕ
  pub sm_idx : ℕ
  pub status : Status
  pub priority : ℕ
  pub pid : ℕ
  pub in_use : Bool
  pub sm_entry : ℕ
  pub period : ℕ
  pub runtime : ℕ
  pub last_reference : ℕ
  pub last_runtime : ℕ
  pub original_idx : ℕ

-- `secure_mintimer_t`
pub record Timer : Type 0 where
  pub next : ℕ
  pub target : ℕ
  pub long_target : ℕ
  pub thread : ℕ

-- The variables of the scheduler. The last three are the timer peripheral: `counter n` is what the
-- n-th read of TIMER_A->R gives, `reads` the number of reads so far, `compare` the register CCR0.
pub record Kernel : Type 0 where
  pub threads : ℕ → Thread
  pub links : Links
  pub runqueues : ℕ → ℕ
  pub bitcache : ℕ
  pub active_thread : ℕ
  pub active_pid : ℕ
  pub num_threads : ℕ
  pub switch_request : Bool
  pub irq_is_in : Bool
  pub timers : ℕ → Timer
  pub timer_list_head : ℕ
  pub overflow_list_head : ℕ
  pub long_list_head : ℕ
  pub long_cnt : ℕ
  pub high_cnt : ℕ
  pub in_handler : Bool
  pub initialization_done : Bool
  pub counter : ℕ → ℕ
  pub reads : ℕ
  pub compare : ℕ

abbrev pub update {ℓ} : {A : Type ℓ} → (ℕ → A) → ℕ → A → ℕ → A
update f i a j = if j == i then a else f j

-- SCHED_PRIO_LEVELS
abbrev pub prio_levels : ℕ
prio_levels = 16

-- SCHED_PERIODIC_PRIO_LEVEL
abbrev pub periodic_prio_level : ℕ
periodic_prio_level = 1

-- SCHED_MAX_PRIO_LEVEL_UNPROTECTED
abbrev pub max_prio_level_unprotected : ℕ
max_prio_level_unprotected = 3

-- KERNEL_PID_UNDEF, KERNEL_PID_FIRST, KERNEL_PID_LAST and MAXTHREADS
abbrev pub pid_undef : ℕ
pid_undef = 0

abbrev pub pid_first : ℕ
pid_first = 1

abbrev pub max_threads : ℕ
max_threads = 32

abbrev pub pid_last : ℕ
pid_last = 32
