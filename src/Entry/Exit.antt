-- ===== src/Entry/Exit.antt =====
-- Ending a thread through the entry of the scheduler.
use sancus_riot.Common.{
  ℕ, ◌≡◌, refl, ◌≢◌, Bool, true, false, none, some, arith, ◌⊎◌, inl, inr, Option-cases,
}
use sancus_riot.Kernel.{Kernel, stopped, pid_undef}
use sancus_riot.Runqueue.{sched_set_status}
use sancus_riot.Sched.{
  with_thread, dec16, sched_yield, yield_higher_internal, sched_task_exit_internal,
}
use sancus_riot.Entry.{exit, store_context, default_entry, dispatch, exitless_entry}

-- A yield while no thread is active reads through NULL.
yield-none : (fuel : ℕ) (k : Kernel) → k.active_thread ≡ pid_undef → sched_yield fuel k ≡ none
unfolding sched_yield
yield-none fuel k e = rw e refl

yield_higher-none :
    (fuel : ℕ) (k : Kernel) → k.active_thread ≡ pid_undef → yield_higher_internal fuel true k ≡ none
unfolding yield_higher_internal
yield_higher-none fuel k e = ground (arith, yield-none fuel k e)

default-none :
    (fuel : ℕ) (k : Kernel) → k.active_thread ≡ pid_undef → default_entry fuel false k ≡ none
unfolding default_entry
default-none fuel k e = ground (arith, yield_higher-none fuel k e)

set_status-cases :
    (k : Kernel) (n : ℕ)
    → (sched_set_status n stopped k ≡ none)
      ⊎ ((k' : Kernel) × (sched_set_status n stopped k ≡ some (tt, k')))
set_status-cases k n = elim (Option-cases (sched_set_status n stopped k)) [
  | inl e ↦ inl e
  | inr ((tt, k'), e) ↦ inr (k', e)
]

-- The kernel when `sched_task_exit_internal` changes the status.
abbrev unused : Kernel → Kernel
unused k =
    record (with_thread k k.active_pid (record (k.threads k.active_pid) { in_use = false })) {
      num_threads = dec16 k.num_threads;
    }

exit-none :
    (k : Kernel)
    → k.active_pid ≢ pid_undef
    → sched_set_status k.active_thread stopped (unused k) ≡ none
    → sched_task_exit_internal k ≡ none
unfolding sched_task_exit_internal
exit-none k h e = ground (arith, e)

exit-some :
    (k k' : Kernel)
    → k.active_pid ≢ pid_undef
    → sched_set_status k.active_thread stopped (unused k) ≡ some (tt, k')
    → sched_task_exit_internal k ≡ some (tt, record k' { active_thread = pid_undef })
unfolding sched_task_exit_internal
exit-some k k' h e = ground (arith, e)

entry-none :
    (fuel sp : ℕ) (protected : Bool) (k : Kernel)
    → sched_task_exit_internal k ≡ none
    → exitless_entry fuel false exit sp protected k ≡ none
unfolding exitless_entry dispatch store_context
entry-none fuel sp protected k e = ground (arith, e)

entry-some :
    (fuel sp : ℕ) (protected : Bool) (k k' : Kernel)
    → sched_task_exit_internal k ≡ some (tt, k')
    → default_entry fuel false k' ≡ none
    → exitless_entry fuel false exit sp protected k ≡ none
unfolding exitless_entry dispatch store_context
entry-some fuel sp protected k k' e d = ground (arith, e, d)

-- The entry that ends a thread, with a thread active and no timer interrupt pending, always
-- faults: the yield that follows the end of the thread reads the priority of the active thread
-- through NULL.
pub exitless_entry-fault :
    (fuel sp : ℕ) (protected : Bool) (k : Kernel)
    → k.active_pid ≢ pid_undef
    → exitless_entry fuel false exit sp protected k ≡ none
exitless_entry-fault fuel sp protected k h = elim (set_status-cases (unused k) k.active_thread) [
  | inl e ↦ entry-none fuel sp protected k (exit-none k h e)
  | inr (k', e) ↦
      entry-some fuel sp protected k (record k' { active_thread = pid_undef }) (exit-some k k' h e)
        (default-none fuel _ refl)
]
