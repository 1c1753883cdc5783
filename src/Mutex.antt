-- ===== src/Mutex.antt =====
-- core/mutex.c, with `thread_add_to_list` of core/thread.c and `list_remove_head` of
-- core/include/list.h. A mutex is the pointer `queue.next`: it is passed in and returned beside the
-- variables of the scheduler. The waiting threads follow it through their `rq_entry`.
pub mod Unlock
pub mod Insert
pub mod Lock
pub mod Enqueue
pub mod Order
mod Tests
use sancus_riot.Common.{
  ℕ, zero, suc, Bool, true, false, not, Option, none, some, ◌==◌, ltb, if◌then◌else◌,
}
use sancus_riot.Clist.Chain.{null, set_next}
use sancus_riot.Kernel.{Kernel, Thread, mutex_blocked, sleeping, pending, on_runqueue}
use sancus_riot.Kernel.Monad.{M, pure, ◌>>=◌, ◌>>◌, fault, get, modify, check}
use sancus_riot.Runqueue.{sched_set_status}
use sancus_riot.Sched.{switch_internal_allow_yield}
use sancus_riot.Entry.{Caller, thread_yield_higher}

-- mutex_LOCKED
abbrev pub mutex_locked : ℕ
mutex_locked = 0xffff

-- No list of threads is as long.
abbrev pub wait_fuel : ℕ
wait_fuel = 64

-- The loop of `thread_add_to_list`: `prev` is the entry that `list` points to, NULL while it is the
-- list itself, and `cur` is `list->next`.
wait_place : ℕ → Kernel → ℕ → ℕ → ℕ → Option (ℕ × ℕ)
wait_place zero k my_prio prev cur = none
wait_place (suc fuel) k my_prio prev cur =
    let rest = wait_place fuel k my_prio cur (k.links cur) in
    if cur == null
    then some (prev, cur)
    else if ltb my_prio (k.threads cur).priority
    then some (prev, cur)
    else rest

-- The new `list->next`. The assertion of the source is a fault here where it fails.
unfoldable pub thread_add_to_list : ℕ → ℕ → M ℕ
unfolding wait_place
thread_add_to_list list thread k =
    let place = wait_place wait_fuel k (k.threads thread).priority null list in
    if on_runqueue (k.threads thread).status then none else elim place [
      | none ↦ none
      | some (prev, cur) ↦
          let links = set_next k.links thread cur in
          if prev == null
          then some (thread, record k { links = links })
          else some (list, record k { links = set_next links prev thread })
    ]

-- The head that is removed, and the new `list->next`.
unfoldable pub list_remove_head : ℕ → Kernel → ℕ × ℕ
list_remove_head list k = (list, if list == null then list else k.links list)

-- The branch of `_mutex_lock` that waits, up to the yield.
unfoldable pub enqueue : ℕ → M ℕ
enqueue queue = do
  k ← get
  let me = k.active_thread
  sched_set_status me mutex_blocked
  if queue == mutex_locked
      then modify (λ k. record k { links = set_next k.links me null }) >> pure me
      else thread_add_to_list queue me

-- `_mutex_lock`: the result, and the mutex. A thread that has to wait gets its result when it runs
-- again; the scheduler's variables are those after its yield.
unfoldable pub mutex_lock : ℕ → Caller → ℕ → Bool → M (Bool × ℕ)
mutex_lock fuel caller queue blocking =
    if queue == null
    then pure (true, mutex_locked)
    else if blocking
    then (do queue ← enqueue queue; thread_yield_higher fuel caller; pure (true, queue))
    else pure (false, queue)

-- Waking the first thread that waits: it and the new `queue.next`.
unfoldable pub wake_first : ℕ → M (ℕ × ℕ)
wake_first queue = do
  k ← get
  let (process, next) = list_remove_head queue k
  sched_set_status process pending
  pure (process, if next == null then mutex_locked else next)

unfoldable pub mutex_unlock : ℕ → ℕ → M ℕ
mutex_unlock fuel queue =
    if queue == null then pure null else if queue == mutex_locked then pure null else do
      (process, next) ← wake_first queue
      k ← get
      switch_internal_allow_yield fuel (k.threads process).priority false
      pure next

-- `mutex_unlock_and_sleep`
unfoldable pub mutex_unlock_and_sleep : ℕ → Caller → ℕ → M ℕ
mutex_unlock_and_sleep fuel caller queue = do
  next ←
      (if queue == null
        then pure null
        else if queue == mutex_locked
        then pure null
        else do (_, next) ← wake_first queue; pure next)
  k ← get
  sched_set_status k.active_thread sleeping
  thread_yield_higher fuel caller
  pure next
