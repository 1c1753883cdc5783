-- ===== src/Sched/Tests.antt =====
-- Examples for the scheduler.
use sancus_riot.Common.{◌≡◌, refl, Bool, true, false, some, [], ◌∷◌, arith}
use sancus_riot.Kernel.{Kernel, sleeping, update}
use sancus_riot.Runqueue.{set_status}
use sancus_riot.Runqueue.Scheduled.{IsScheduled, requeue}
use sancus_riot.Runqueue.SetStatus.{set_status-IsScheduled}
use sancus_riot.Sched.{interrupted_job, sched_run_internal, yield_higher_internal}
use sancus_riot.Sched.Pick.{Switched}
use sancus_riot.Sched.Run.{sched_run_internal-Switched}
use sancus_riot.Sched.Yield.{TookTurn, yield-TookTurn}
use sancus_riot.Sched.Turns.{HasTurn, yields-HasTurn}
use sancus_riot.Sched.Example.{two, queues_of_two, two-IsScheduled, two-OneRuns, two_next}

set_status-IsScheduled_example :
    IsScheduled (set_status two 3 sleeping) (requeue two 3 sleeping queues_of_two)
set_status-IsScheduled_example =
    set_status-IsScheduled two queues_of_two two-IsScheduled 3 sleeping (λ e. ground arith)
      (λ on off. refl)

not_interrupted : interrupted_job two ≡ false
unfolding interrupted_job
not_interrupted = refl

sched_run_internal-Switched_example :
    (c : Bool) × (k' : Kernel) × (sched_run_internal 0 two ≡ some (c, k'))
    × Switched two queues_of_two 3 c k'
sched_run_internal-Switched_example =
    sched_run_internal-Switched 0 two queues_of_two 3 two-IsScheduled two-OneRuns two_next
      (λ e. ground arith) not_interrupted

yield-TookTurn_example :
    (k' : Kernel) × (yield_higher_internal 0 true two ≡ some (true, k'))
    × TookTurn k' (update queues_of_two 2 (4 ∷ 3 ∷ [])) 4
yield-TookTurn_example =
    yield-TookTurn 0 two queues_of_two 2 3 4 [] two-IsScheduled two-OneRuns refl (omega arith)
      (λ e. ground arith) refl (λ j lt. ground arith)

yields-HasTurn_example : HasTurn 0 1 two 4
yields-HasTurn_example =
    yields-HasTurn 0 two queues_of_two 2 3 4 [] [] two-IsScheduled two-OneRuns refl (omega arith)
      (λ e. ground arith) refl (λ j lt. ground arith)
