-- ===== src/System/Tests.antt =====
-- Examples for runs of the scheduler.
use sancus_riot.Common.{◌≡◌, refl, true, false, some, [], ◌∷◌, arith, inl, inr}
use sancus_riot.Kernel.{Kernel, update}
use sancus_riot.Sched.Example.{two, queues_of_two, two-IsScheduled, two-OneRuns}
use sancus_riot.Sched.Yield.{TookTurn}
use sancus_riot.Entry.{yield, exitless_entry}
use sancus_riot.Entry.Yield.{exitless_entry-TookTurn}
use sancus_riot.Thread.Wakeup.{thread_wakeup-IsScheduled}
use sancus_riot.System.Sound.{IsSettled}
use sancus_riot.System.Safety.{stays, steps, enters, wakes_up, Run-Settled}

two-Settled : IsSettled two
two-Settled = (
  queues_of_two,
  record { scheduled = two-IsScheduled; aperiodic = λ n e. ground arith; named = λ n. inl refl },
  inr refl,
)

-- Thread 3 yields, so that thread 4 runs.
yielded :
    (k' : Kernel) × (exitless_entry 0 false yield 0x9000 true two ≡ some (tt, k'))
    × TookTurn k' (update queues_of_two 2 (4 ∷ 3 ∷ [])) 4
yielded =
    exitless_entry-TookTurn 0 0x9000 true two queues_of_two 2 3 4 [] two-IsScheduled two-OneRuns
      refl (omega arith) (λ e. ground arith) refl (λ j lt. ground arith)

-- Then it wakes thread 5.
Run-Settled_example : IsSettled (thread_wakeup-IsScheduled yielded.0 _ 5 yielded.2.scheduled).0
Run-Settled_example =
    let woken = thread_wakeup-IsScheduled yielded.0 _ 5 yielded.2.scheduled in
    Run-Settled two woken.0 two-Settled
      (steps (steps stays (enters 0 false yield 0x9000 true yielded.1)) (wakes_up 5 _ woken.1))
