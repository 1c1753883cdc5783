-- ===== src/Thread/Tests.antt =====
-- Examples for creating and waking threads.
use sancus_riot.Common.{false, ℕ, ◌≤◌, ◌≡◌, true, some, arith, ◌⊎◌}
use sancus_riot.Kernel.{Kernel, running, pid_first, pid_last}
use sancus_riot.Runqueue.Scheduled.{IsScheduled, requeue}
use sancus_riot.Sched.Example.{two, queues_of_two, two-IsScheduled}
use sancus_riot.Thread.{pid_is_valid, thread_wakeup, create_internal, created, overflow}
use sancus_riot.Runqueue.{set_status}
use sancus_riot.Thread.Wakeup.{thread_wakeup-IsScheduled}
use sancus_riot.Thread.Create.{Created, create_internal-IsScheduled}

thread_wakeup-IsScheduled_example :
    (k' : Kernel) × (thread_wakeup 5 two ≡ some (true, k'))
    × IsScheduled k' (requeue two 5 running queues_of_two)
    × (k' ≡ set_status two 5 running)
    × ((true ≡ false) ⊎ ((k'.threads 5).status ≡ running))
unfolding pid_is_valid
thread_wakeup-IsScheduled_example = thread_wakeup-IsScheduled two queues_of_two 5 two-IsScheduled

create_internal-IsScheduled_example :
    ((pid : ℕ) × (k' : Kernel) × (create_internal 2 true 0x8000 two ≡ some (created pid, k'))
      × Created two queues_of_two 2 true 0x8000 pid k')
    ⊎ (((n : ℕ) → pid_first ≤ n → n ≤ pid_last → (two.threads n).in_use ≡ true)
        × (create_internal 2 true 0x8000 two ≡ some (overflow, two)))
create_internal-IsScheduled_example =
    create_internal-IsScheduled two queues_of_two 2 0x8000 true two-IsScheduled (omega arith)
      λ n unused. ground arith
