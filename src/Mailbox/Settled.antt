-- ===== src/Mailbox/Settled.antt =====
-- Putting a message keeps a settled state settled, and so does waiting at a mailbox.
use sancus_riot.Common.{
  ℕ, ◌≡◌, refl, sym, ◌≢◌, ◌∙◌, Bool, true, false, some, none, List, arith, ◌==◌, Bool-cases, inl,
  inr, if◌then◌else◌,
}
use mathlib.Core.Path.{subst}
use sancus_riot.Clist.Chain.{null}
use sancus_riot.Kernel.{Kernel, mbox_blocked, pending}
use sancus_riot.Kernel.Monad.{pure, ◌>>=◌, ◌>>◌, check}
use sancus_riot.Kernel.Within.{state_of, bind-inv}
use sancus_riot.Runqueue.{sched_set_status}
use sancus_riot.Entry.{Caller, thread_yield_higher, enter_sched_switch}
use sancus_riot.Cib.{cib_full}
use sancus_riot.Mutex.{mutex_locked, thread_add_to_list, list_remove_head}
use sancus_riot.Mailbox.{
  Mbox, Memory, Outcome, result, waits, wait, wake_waiter, put_resumed, deliver, mbox_put,
}
use sancus_riot.Mailbox.Joins.{IsWaiting, inserted, joined-Sound}
use sancus_riot.System.Sound.{IsSound, IsSettled}
use sancus_riot.System.Entries.{enter_sched_switch-Settled}
use sancus_riot.System.Yields.{thread_yield_higher-Settled}
use sancus_riot.System.Ends.{check-inv, sched_set_status-inv}
use sancus_riot.System.Joins.{joined-Settled}
use sancus_riot.System.Mutexes.{begins}

status-null : (k : Kernel) (n : ℕ) → n ≡ null → sched_set_status n mbox_blocked k ≡ none
unfolding sched_set_status
status-null k n e = rw e refl

-- A list of waiting threads, and an active thread that may join it.
pub record CanWait (k : Kernel) (list : ℕ) : Type 0 where
  pub waiting : List ℕ
  pub line : IsWaiting k list waiting
  pub proper : k.active_thread ≢ mutex_locked

joins-Sound :
    (k k1 k2 : Kernel) (list next : ℕ) (u : Unit {0})
    → CanWait k list
    → IsSettled k
    → sched_set_status k.active_thread mbox_blocked k ≡ some (u, k1)
    → thread_add_to_list list k.active_thread k1 ≡ some (next, k2)
    → IsSound k2
joins-Sound k k1 k2 list next u c (qs, s, first) h g = elim (Bool-cases (k.active_thread == null)) [
  | inl e ↦ absurd (ground (arith, status-null k k.active_thread (ground (arith, e)), h))
  | inr e ↦
      let nn : k.active_thread ≢ null = ground (arith, e) in
      let b = begins k qs s first nn c.proper in
      let i = inserted k qs list c.waiting b c.line in
      let g' =
        subst (λ m. thread_add_to_list list k.active_thread m ≡ some (next, k2))
          (sym (sched_set_status-inv k.active_thread mbox_blocked k k1 u h)) g in
      subst IsSound (state_of (sym i.returns ∙ g')) (joined-Sound k qs list c.waiting b c.line s)
]

pub wait-Settled :
    (fuel : ℕ) (caller : Caller) (list : ℕ) (k k' : Kernel) (next : ℕ)
    → CanWait k list
    → IsSettled k
    → wait fuel caller list k ≡ some (next, k')
    → IsSettled k'
unfolding wait
wait-Settled fuel caller list k k' next c s h =
    let (u, k1, e, e') =
      bind-inv (sched_set_status k.active_thread mbox_blocked)
        (λ _. do
          next ← thread_add_to_list list k.active_thread
          thread_yield_higher fuel caller
          pure next)
        k k' next h in
    let (n, k2, f, f') =
      bind-inv (thread_add_to_list list k.active_thread)
        (λ next. do thread_yield_higher fuel caller; pure next) k1 k' next e' in
    let (t, k3, g, g') = bind-inv (thread_yield_higher fuel caller) (λ _. pure n) k2 k' next f' in
    subst IsSettled (state_of g')
      (thread_yield_higher-Settled fuel caller k2 k3 t (joins-Sound k k1 k2 list n u c s e f) g)

wake_waiter-Settled :
    (fuel : ℕ) (caller : Caller) (thread : ℕ) (k k' : Kernel) (u : Unit {0})
    → thread ≢ null
    → IsSettled k
    → wake_waiter fuel caller thread k ≡ some (u, k')
    → IsSettled k'
unfolding wake_waiter
wake_waiter-Settled fuel caller thread k k' u nn s h =
    let (u1, k1, e, e') =
      bind-inv (sched_set_status thread pending)
        (λ _ k. enter_sched_switch fuel caller (k.threads thread).priority k) k k' u h in
    enter_sched_switch-Settled fuel caller (k1.threads thread).priority k1 k' u
      (subst IsSettled (sched_set_status-inv thread pending k k1 u1 e)
        (joined-Settled k thread pending nn refl s))
      e'

-- A put when no reader waits.
put-none :
    (fuel : ℕ) (caller : Caller) (msg : ℕ) (blocking : Bool) (mbox : Mbox) (memory : Memory)
    (k : Kernel)
    → mbox.readers == null ≡ true
    → mbox_put fuel caller msg blocking mbox memory k
      ≡ (if cib_full mbox.cib
            then (if blocking
                then (do
                  writers ← wait fuel caller mbox.writers
                  pure (waits, record mbox { writers = writers }, memory))
                else pure (result 0, mbox, memory))
            else put_resumed msg mbox memory)
          k
unfolding mbox_put list_remove_head
put-none fuel caller msg blocking mbox memory k e = rw e refl

put-waits :
    (fuel : ℕ) (caller : Caller) (mbox : Mbox) (memory : Memory) (k k' : Kernel)
    (r : Outcome × Mbox × Memory)
    → CanWait k mbox.writers
    → IsSettled k
    → (do
      writers ← wait fuel caller mbox.writers
      pure (waits, record mbox { writers = writers }, memory))
        k
      ≡ some (r, k')
    → IsSettled k'
put-waits fuel caller mbox memory k k' r c s h =
    let (n, k1, e, e') =
      bind-inv (wait fuel caller mbox.writers)
        (λ writers. pure (waits, record mbox { writers = writers }, memory)) k k' r h in
    subst IsSettled (state_of e') (wait-Settled fuel caller mbox.writers k k1 n c s e)

pub resumed-same :
    (msg : ℕ) (mbox : Mbox) (memory : Memory) (k k' : Kernel) (r : Outcome × Mbox × Memory)
    → put_resumed msg mbox memory k ≡ some (r, k')
    → k ≡ k'
unfolding put_resumed
resumed-same msg mbox memory k k' r h = state_of h

-- A put when a reader waits.
put-some :
    (fuel : ℕ) (caller : Caller) (msg : ℕ) (blocking : Bool) (mbox : Mbox) (memory : Memory)
    (k : Kernel)
    → mbox.readers == null ≡ false
    → mbox_put fuel caller msg blocking mbox memory k
      ≡ (do
        check (memory.wait_data mbox.readers)
        wake_waiter fuel caller mbox.readers
        pure (
          result 1,
          record mbox { readers = k.links mbox.readers },
          deliver msg mbox.readers memory,
        ))
          k
unfolding mbox_put list_remove_head
put-some fuel caller msg blocking mbox memory k e = rw e refl

pub wakes-Settled :
    {A : Type 0} (fuel : ℕ) (caller : Caller) (thread : ℕ) (k k' : Kernel) (a b : A)
    → thread ≢ null
    → IsSettled k
    → (do wake_waiter fuel caller thread; pure a) k ≡ some (b, k')
    → IsSettled k'
wakes-Settled fuel caller thread k k' a b nn s h =
    let (u, k1, e, e') = bind-inv (wake_waiter fuel caller thread) (λ _. pure a) k k' b h in
    subst IsSettled (state_of e') (wake_waiter-Settled fuel caller thread k k1 u nn s e)

pub mbox_put-Settled :
    (fuel : ℕ) (caller : Caller) (msg : ℕ) (blocking : Bool) (mbox : Mbox) (memory : Memory)
    (k k' : Kernel) (r : Outcome × Mbox × Memory)
    → CanWait k mbox.writers
    → IsSettled k
    → mbox_put fuel caller msg blocking mbox memory k ≡ some (r, k')
    → IsSettled k'
mbox_put-Settled fuel caller msg blocking mbox memory k k' r c s h =
    elim (Bool-cases (mbox.readers == null)) [
      | inl e ↦
          nobody (cib_full mbox.cib) blocking
            (sym (put-none fuel caller msg blocking mbox memory k e) ∙ h)
      | inr e ↦
          let a : Outcome × Mbox × Memory = (
            result 1,
            record mbox { readers = k.links mbox.readers },
            deliver msg mbox.readers memory,
          ) in
          let (u, k1, f, f') =
            bind-inv (check (memory.wait_data mbox.readers))
              (λ _. do wake_waiter fuel caller mbox.readers; pure a) k k' r
              (sym (put-some fuel caller msg blocking mbox memory k e) ∙ h) in
          wakes-Settled fuel caller mbox.readers k1 k' a r (ground (arith, e))
            (subst IsSettled (check-inv (memory.wait_data mbox.readers) k k1 u f) s) f'
    ]
  where
    nobody :
        (full blocking : Bool)
        → (if full
              then (if blocking
                  then (do
                    writers ← wait fuel caller mbox.writers
                    pure (waits, record mbox { writers = writers }, memory))
                  else pure (result 0, mbox, memory))
              else put_resumed msg mbox memory)
            k
          ≡ some (r, k')
        → IsSettled k'
    nobody true true h = put-waits fuel caller mbox memory k k' r c s h
    nobody true false h = subst IsSettled (state_of h) s
    nobody false b h = subst IsSettled (resumed-same msg mbox memory k k' r h) s
