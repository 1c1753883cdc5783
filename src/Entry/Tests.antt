-- ===== src/Entry/Tests.antt =====
-- Examples for the entry of the scheduler.
use sancus_riot.Common.{◌≡◌, refl, true, false, none, some, [], ◌∷◌, arith}
use sancus_riot.Kernel.{Kernel, update}
use sancus_riot.Sched.Example.{two, queues_of_two, two-IsScheduled, two-OneRuns}
use sancus_riot.Sched.Yield.{TookTurn}
use sancus_riot.Entry.{yield, exit, exitless_entry}
use sancus_riot.Entry.Yield.{exitless_entry-TookTurn}
use sancus_riot.Entry.Exit.{exitless_entry-fault}

exitless_entry-TookTurn_example :
    (k' : Kernel) × (exitless_entry 0 false yield 0x9000 true two ≡ some (tt, k'))
    × TookTurn k' (update queues_of_two 2 (4 ∷ 3 ∷ [])) 4
exitless_entry-TookTurn_example =
    exitless_entry-TookTurn 0 0x9000 true two queues_of_two 2 3 4 [] two-IsScheduled two-OneRuns
      refl (omega arith) (λ e. ground arith) refl (λ j lt. ground arith)

exitless_entry-fault_example : exitless_entry 0 false exit 0x9000 true two ≡ none
exitless_entry-fault_example = exitless_entry-fault 0 0x9000 true two (λ e. ground arith)
