-- ===== src/Mutex/Tests.antt =====
-- Examples for mutexes: threads 6 and 7 wait.
use sancus_riot.Common.{◌≡◌, refl, some, [], ◌∷◌, arith, ℕ}
use sancus_riot.Kernel.{Kernel, pending}
use sancus_riot.Runqueue.Scheduled.{IsScheduled, requeue}
use sancus_riot.Sched.Example.{two, queues_of_two, two-IsScheduled}
use sancus_riot.Mutex.{mutex_unlock}
use sancus_riot.Mutex.Enqueue.{Enqueued, Begins}
use sancus_riot.Mutex.Insert.{insert}
use sancus_riot.Mutex.Order.{Placed, enqueue-Placed}
use sancus_riot.Mutex.Unlock.{Waiting, IsLocked, mutex_unlock-IsLocked}

two-Waiting : Waiting two 6 (6 ∷ 7 ∷ [])
two-Waiting = record {
  linked = (refl, (λ e. ground arith), (refl, (λ e. ground arith), refl));
  distinct = (refl, (refl, tt));
  proper = refl;
  blocked = λ n i. ground (arith, i);
}

mutex_unlock-IsLocked_example :
    (queue' : ℕ) × (k' : Kernel) × (mutex_unlock 0 6 two ≡ some (queue', k'))
    × IsLocked k' queue' (7 ∷ [])
    × IsScheduled k' (requeue two 6 pending queues_of_two)
    × ((k'.threads 6).status ≡ pending)
    × (k'.active_thread ≡ 3)
mutex_unlock-IsLocked_example =
    mutex_unlock-IsLocked 0 two queues_of_two 6 6 (7 ∷ []) two-IsScheduled two-Waiting
      (λ e. ground arith)

two-Begins : Begins two queues_of_two
two-Begins = record {
  scheduled = two-IsScheduled;
  active = λ e. ground arith;
  proper = λ e. ground arith;
  runs = refl;
  head = refl;
}

enqueue-Placed_example :
    Enqueued two queues_of_two 6 (6 ∷ 7 ∷ [])
    × Placed two 3 (6 ∷ 7 ∷ []) (insert two 2 3 (6 ∷ 7 ∷ []))
enqueue-Placed_example =
    enqueue-Placed two queues_of_two 6 (6 ∷ 7 ∷ []) two-Begins two-Waiting (omega arith)
      ((omega arith, tt), (tt, tt))
