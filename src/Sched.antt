-- ===== src/Sched.antt =====
-- core/sched.c: choosing the next thread, yielding, ending a thread. The functions that call
-- `periodic_thread_schedule_next_timer` take the fuel of its loop.
pub mod Pick
pub mod Ready
pub mod Run
pub mod Yield
pub mod Turns
pub mod Example
mod Tests
use sancus_riot.Common.{
  ℕ, zero, suc, ◌+◌, ◌-◌, ◌%◌, ◌^◌, Bool, true, false, not, ◌&&◌, ◌||◌, Option, none, some, ◌==◌,
  ltb, leb, if◌then◌else◌,
}
use sancus_riot.Clist.{Clist}
use sancus_riot.Kernel.{
  Kernel, Thread, Timer, Status, stopped, sleeping, running, pending, on_runqueue, is_running,
  update, periodic_prio_level, pid_undef,
}
use sancus_riot.Kernel.Monad.{M, pure, ◌>>=◌, ◌>>◌, fault, get, modify, check}
use sancus_riot.Runqueue.{
  bitarithm_lsb_sm_timer, runqueue, set_runqueue, with_status, sm_clist_lpoprpush, sched_set_status,
}
use sancus_riot.SecureMintimer.{scheduler_timer, add32, sub32, now_internal}
use sancus_riot.SecureMintimer.Set.{
  set_target, secure_mintimer_remove, get_available_timer, set_absolute_explicit, set_absolute,
}

-- SCHEDULER_OVERHEAD_RUN
abbrev pub overhead_run : ℕ
overhead_run = 300

abbrev pub with_thread : Kernel → ℕ → Thread → Kernel
with_thread k process t = record k { threads = update k.threads process t }

-- The loop of `periodic_thread_schedule_next_timer`: `last_reference` moves on by whole periods.
unfoldable pub catch_up : ℕ → ℕ → ℕ → ℕ → Option ℕ
catch_up zero period current_time last_reference = none
catch_up (suc fuel) period current_time last_reference =
    let rest = catch_up fuel period current_time (add32 last_reference period) in
    if ltb last_reference current_time && ltb (sub32 current_time last_reference) current_time
    then rest
    else some last_reference

set_last_reference : ℕ → ℕ → ℕ → M (Unit {0})
unfolding catch_up
set_last_reference fuel process current_time k =
    let t = k.threads process in
    elim (catch_up fuel t.period current_time t.last_reference) [
      | none ↦ none
      | some r ↦ some (tt, with_thread k process (record t { last_reference = r }))
    ]

unfoldable pub periodic_thread_schedule_next_timer : ℕ → ℕ → ℕ → M (Unit {0})
unfolding set_last_reference
periodic_thread_schedule_next_timer fuel process current_time = do
  set_last_reference fuel process current_time
  k ← get
  timer ← get_available_timer (k.threads process).pid
  sched_set_status process sleeping
  k ← get
  set_absolute timer (k.threads process).last_reference
  modify λ k.
      let t = k.threads process in
      with_thread k process (record t { sm_idx = t.original_idx; last_runtime = 0 })

-- The check at the start of `sched_run_internal` whether a periodic job has used its time; `true` is
-- `goto end`.
unfoldable pub keeps_running : ℕ → ℕ → M Bool
unfolding periodic_thread_schedule_next_timer
keeps_running fuel active = do
  (current_time, _) ← now_internal
  k ← get
  let t = k.threads active
  let runtime = add32 (sub32 t.last_runtime overhead_run) (sub32 current_time t.last_reference)
  if leb t.runtime runtime
      then periodic_thread_schedule_next_timer fuel active current_time >> pure false
      else modify (λ k. with_thread k active (record t { last_runtime = runtime })) >> pure true

-- Whether the active thread is a periodic job that was interrupted.
unfoldable pub interrupted_job : Kernel → Bool
interrupted_job k =
    let t = k.threads k.active_thread in
    not (k.active_thread == pid_undef)
    && (is_running t.status && (t.priority == periodic_prio_level && not k.switch_request))

-- `next_thread`: the first of the first run queue that is not empty. A bit cache without a bit makes
-- the loop run for ever, a queue without an entry is a read through NULL.
unfoldable pub next_thread : Kernel → Option ℕ
next_thread k = elim (bitarithm_lsb_sm_timer k.bitcache) [
  | none ↦ none
  | some nextrq ↦ if k.runqueues nextrq == 0 then none else some (k.links (k.runqueues nextrq))
]

-- The active thread, if it runs, becomes pending.
unfoldable pub preempt : Kernel → Kernel
preempt k =
    if k.active_thread == pid_undef
    then k
    else if is_running (k.threads k.active_thread).status
    then with_status k k.active_thread pending
    else k

-- The change of the active thread to `next`.
unfoldable pub activate : ℕ → Kernel → Kernel
activate next k =
    let k' = with_status (preempt k) next running in
    record k' { active_pid = (k'.threads next).pid; active_thread = next }

-- The middle of `sched_run_internal`; the result is `changed_thread`.
unfoldable pub switch_thread : M Bool
switch_thread = do
  modify (λ k. record k { switch_request = false })
  k ← get
  elim (next_thread k) [
    | none ↦ fault
    | some next ↦
        if k.active_thread == next then pure false else modify (activate next) >> pure true
  ]

-- What follows the label `end`: the timer that ends the time of a periodic job.
unfoldable pub arm_scheduler_timer : M (Unit {0})
arm_scheduler_timer = do
  k ← get
  check k.active_thread
  if (k.threads k.active_thread).priority == periodic_prio_level
      then (do
        modify (λ k.
            set_runqueue k periodic_prio_level
              (sm_clist_lpoprpush (runqueue k periodic_prio_level)))
        (short_term, long_term) ← now_internal
        let t = k.threads k.active_thread
        modify (
            set_target scheduler_timer (sub32 (add32 short_term t.runtime) t.last_runtime)
              long_term)
        set_absolute_explicit scheduler_timer short_term)
      else pure tt

unfoldable pub sched_run_internal : ℕ → M Bool
sched_run_internal fuel = do
  k ← get
  keep ← (if interrupted_job k then keeps_running fuel k.active_thread else pure false)
  changed ← (if keep then pure false else switch_thread)
  arm_scheduler_timer
  pure changed

unfoldable pub sched_set_own_status : Status → M (Unit {0})
sched_set_own_status status = do k ← get; sched_set_status k.active_thread status

-- `sched_yield`
unfoldable pub sched_yield : ℕ → M (Unit {0})
sched_yield fuel = do
  k ← get
  let me = k.active_thread
  let t = k.threads me
  if not (me == pid_undef) && on_runqueue t.status
      then modify (λ k. set_runqueue k t.priority (sm_clist_lpoprpush (runqueue k t.priority)))
      else pure tt
  check me
  if t.priority == periodic_prio_level
      then (do
        secure_mintimer_remove scheduler_timer
        (short_term, _) ← now_internal
        periodic_thread_schedule_next_timer fuel me short_term
        modify (λ k. record k { switch_request = true }))
      else pure tt

-- `thread_yield_higher_internal`, up to the restoring of the context; the result is that of
-- `sched_run_internal`.
unfoldable pub yield_higher_internal : ℕ → Bool → M Bool
yield_higher_internal fuel do_thread_yield = do
  if do_thread_yield then sched_yield fuel else pure tt
  sched_run_internal fuel

-- `sched_switch_internal_allow_yield`
unfoldable pub switch_internal_allow_yield : ℕ → ℕ → Bool → M (Unit {0})
switch_internal_allow_yield fuel other_prio yield_allowed = do
  k ← get
  check k.active_thread
  let t = k.threads k.active_thread
  if not (on_runqueue t.status) || ltb other_prio t.priority
      then (do
        modify (λ k. record k { switch_request = true })
        if not k.irq_is_in && yield_allowed
            then (do _ ← yield_higher_internal fuel true; pure tt)
            else pure tt)
      else pure tt

unfoldable pub sched_switch_internal : ℕ → ℕ → M (Unit {0})
unfolding switch_internal_allow_yield
sched_switch_internal fuel other_prio = switch_internal_allow_yield fuel other_prio true

-- `sched_num_threads--`, an `int` as its bit pattern.
abbrev pub dec16 : ℕ → ℕ
dec16 n = (n + 2 ^ 16 - 1) % 2 ^ 16

unfoldable pub sched_task_exit_internal : M (Unit {0})
sched_task_exit_internal = do
  k ← get
  if k.active_pid == pid_undef then pure tt else do
    modify (λ k.
        record (with_thread k k.active_pid (record (k.threads k.active_pid) { in_use = false })) {
          num_threads = dec16 k.num_threads;
        })
    sched_set_status k.active_thread stopped
    modify (λ k. record k { active_thread = pid_undef })
