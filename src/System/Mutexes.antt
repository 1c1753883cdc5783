-- ===== src/System/Mutexes.antt =====
-- Waiting for a mutex keeps a settled state settled.
use sancus_riot.Common.{
  ℕ, ◌<◌, ◌≡◌, refl, sym, ◌≢◌, ◌∙◌, ◌⊎◌, List, length, Bool, true, false, none, some, arith, ◌==◌,
  Bool-cases, inl, inr, if◌then◌else◌,
}
use mathlib.Core.Path.{subst}
use sancus_riot.Clist.Chain.{null}
use sancus_riot.Kernel.{Kernel, mutex_blocked}
use sancus_riot.Kernel.Monad.{M, pure, ◌>>=◌, ◌>>◌}
use sancus_riot.Kernel.Within.{state_of, bind-inv}
use sancus_riot.Runqueue.{sched_set_status}
use sancus_riot.Runqueue.Invariant.{Queues}
use sancus_riot.Runqueue.Scheduled.{IsHead, threads-set_status}
use sancus_riot.Entry.{Caller, thread_yield_higher}
use sancus_riot.Sched.Ready.{Keeps-threads}
use sancus_riot.Mutex.{mutex_locked, wait_fuel, enqueue, mutex_lock}
use sancus_riot.Mutex.Unlock.{IsLocked}
use sancus_riot.Mutex.Enqueue.{Begins, enqueue-Enqueued}
use sancus_riot.System.Sound.{Sound, IsSound, IsSettled, IsFirst, Sound-Keeps}
use sancus_riot.System.Yields.{thread_yield_higher-Settled}
use sancus_riot.System.Joins.{has-head}

-- A mutex that is locked, with fewer than 64 threads waiting.
pub record IsHeld (k : Kernel) (queue : ℕ) : Type 0 where
  pub waiting : List ℕ
  pub few : length waiting < wait_fuel
  pub held : IsLocked k queue waiting

-- The active thread is able to run and the first of its run queue.
pub begins :
    (k : Kernel) (qs : Queues)
    → Sound k qs
    → IsFirst k qs
    → k.active_thread ≢ null
    → k.active_thread ≢ mutex_locked
    → Begins k qs
begins k qs s first nn pr = record {
  scheduled = s.scheduled;
  active = nn;
  proper = pr;
  runs = sym (s.scheduled.exact k.active_thread) ∙ has-head k.active_thread _ head;
  head = head;
}
  where
    head : IsHead k.active_thread (qs (k.threads k.active_thread).priority)
    head = elim first [ inl z ↦ absurd (nn z) | inr h ↦ h ]

enqueue-null : (queue : ℕ) (k : Kernel) → k.active_thread ≡ null → enqueue queue k ≡ none
unfolding enqueue sched_set_status
enqueue-null queue k e = rw e refl

enqueue-Sound :
    (queue queue' : ℕ) (k k' : Kernel)
    → IsHeld k queue
    → k.active_thread ≢ mutex_locked
    → IsSettled k
    → enqueue queue k ≡ some (queue', k')
    → IsSound k'
enqueue-Sound queue queue' k k' m pr (qs, s, first) h =
    elim (Bool-cases (k.active_thread == null)) [
      | inl e ↦ absurd (ground (arith, enqueue-null queue k (ground (arith, e)), h))
      | inr e ↦
          let nn : k.active_thread ≢ null = ground (arith, e) in
          let q = enqueue-Enqueued k qs queue m.waiting (begins k qs s first nn pr) m.held m.few in
          subst IsSound (state_of (sym q.returns ∙ h)) (
            _,
            Sound-Keeps k q.kernel_after qs _ q.scheduled
                (Keeps-threads k q.kernel_after k.active_thread
                  (record (k.threads k.active_thread) { status = mutex_blocked })
                  (q.threads ∙ threads-set_status k k.active_thread mutex_blocked) refl refl)
                s,
          )
    ]

-- What a locking that waits does.
waits : ℕ → Caller → ℕ → M (Bool × ℕ)
waits fuel c queue = do queue ← enqueue queue; thread_yield_higher fuel c; pure (true, queue)

waits-Settled :
    (fuel : ℕ) (c : Caller) (queue : ℕ) (k k' : Kernel) (r : Bool × ℕ)
    → IsHeld k queue
    → k.active_thread ≢ mutex_locked
    → IsSettled k
    → waits fuel c queue k ≡ some (r, k')
    → IsSettled k'
unfolding waits
waits-Settled fuel c queue k k' r m pr s h =
    let (q, k1, e, e') =
      bind-inv (enqueue queue) (λ queue. do thread_yield_higher fuel c; pure (true, queue)) k k' r
        h in
    let (u, k2, f, f') = bind-inv (thread_yield_higher fuel c) (λ _. pure (true, q)) k1 k' r e' in
    subst IsSettled (state_of f')
      (thread_yield_higher-Settled fuel c k1 k2 u (enqueue-Sound queue q k k1 m pr s e) f)

mutex_lock-free :
    (fuel : ℕ) (c : Caller) (queue : ℕ) (blocking : Bool) (k : Kernel)
    → queue == null ≡ true
    → mutex_lock fuel c queue blocking k ≡ some ((true, mutex_locked), k)
unfolding mutex_lock
mutex_lock-free fuel c queue blocking k e = rw e refl

mutex_lock-held :
    (fuel : ℕ) (c : Caller) (queue : ℕ) (blocking : Bool) (k : Kernel)
    → queue == null ≡ false
    → mutex_lock fuel c queue blocking k
      ≡ (if blocking then waits fuel c queue else pure (false, queue)) k
unfolding mutex_lock waits
mutex_lock-held fuel c queue blocking k e = rw e refl

pub mutex_lock-Settled :
    (fuel : ℕ) (c : Caller) (queue : ℕ) (blocking : Bool) (k k' : Kernel) (r : Bool × ℕ)
    → (queue ≡ null) ⊎ IsHeld k queue
    → k.active_thread ≢ mutex_locked
    → IsSettled k
    → mutex_lock fuel c queue blocking k ≡ some (r, k')
    → IsSettled k'
mutex_lock-Settled fuel c queue blocking k k' r m pr s h = elim (Bool-cases (queue == null)) [
  | inl e ↦ subst IsSettled (state_of (sym (mutex_lock-free fuel c queue blocking k e) ∙ h)) s
  | inr e ↦ elim m [
    | inl z ↦ absurd (ground (arith, e, z))
    | inr held ↦ either blocking held (sym (mutex_lock-held fuel c queue blocking k e) ∙ h)
  ]
]
  where
    either :
        (t : Bool)
        → IsHeld k queue
        → (if t then waits fuel c queue else pure (false, queue)) k ≡ some (r, k')
        → IsSettled k'
    either true held h = waits-Settled fuel c queue k k' r held pr s h
    either false held h = subst IsSettled (state_of h) s
