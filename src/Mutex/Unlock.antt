-- ===== src/Mutex/Unlock.antt =====
-- Unlocking a mutex hands it to the first thread that waits.
use sancus_riot.Common.{
  ℕ, ◌≡◌, refl, sym, ap, ◌≢◌, ◌∙◌, Bool, true, false, not, ◌||◌, ◌&&◌, some, List, [], ◌∷◌, arith,
  ◌==◌, ltb, if◌then◌else◌, has, Distinct, Bool-cases, inl, inr,
}
use mathlib.Core.Path.{subst}
use sancus_riot.Clist.Chain.{Links, null}
use sancus_riot.Clist.Frame.{rpush-frame, ne-next}
use sancus_riot.Clist.Erase.{has-ne}
use sancus_riot.Kernel.{Kernel, mutex_blocked, pending, on_runqueue}
use sancus_riot.Runqueue.{runqueue, add_to_runqueue, set_status, sched_set_status, sm_clist_rpush}
use sancus_riot.Runqueue.Invariant.{Queues}
use sancus_riot.Runqueue.Scheduled.{
  IsScheduled, IsScheduled-frame, requeue, threads-set_status, active-set_status,
}
use sancus_riot.Runqueue.SetStatus.{set_status-IsScheduled, not_queued}
use sancus_riot.Sched.{switch_internal_allow_yield}
use sancus_riot.Mutex.{mutex_locked, list_remove_head, wake_first, mutex_unlock}

-- From the pointer `a` the entries lead through `ws` to NULL.
abbrev pub Waits : Links → ℕ → List ℕ → Type 0
Waits l a [] = a ≡ null
Waits l a (w ∷ ws) = (a ≡ w) × (w ≢ null) × Waits l (l w) ws

-- The threads `ws` wait behind the pointer `queue`.
pub record Waiting (k : Kernel) (queue : ℕ) (ws : List ℕ) : Type 0 where
  pub linked : Waits k.links queue ws
  pub distinct : Distinct ws
  pub proper : has mutex_locked ws ≡ false
  pub blocked : (n : ℕ) → has n ws ≡ true → (k.threads n).status ≡ mutex_blocked

-- A locked mutex for which the threads `ws` wait, the next one first.
abbrev pub IsLocked : Kernel → ℕ → List ℕ → Type 0
IsLocked k queue [] = queue ≡ mutex_locked
IsLocked k queue (w ∷ ws) = Waiting k queue (w ∷ ws)

pub Waits-frame :
    (l l' : Links) (a : ℕ) (ws : List ℕ)
    → ((n : ℕ) → has n ws ≡ true → l' n ≡ l n)
    → Waits l a ws
    → Waits l' a ws
Waits-frame l l' a [] same w = w
Waits-frame l l' a (x ∷ ws) same w = (
  w.0,
  w.1,
  rw (same x (ground arith)) (Waits-frame l l' (l x) ws (λ n i. same n (ground arith)) w.2),
)

-- Putting a thread on its run queue spares the entries of threads that are on none.
links-pending :
    (k : Kernel) (qs : Queues) (n m : ℕ)
    → IsScheduled k qs
    → on_runqueue (k.threads n).status ≡ false
    → m ≢ n
    → m ≢ null
    → on_runqueue (k.threads m).status ≡ false
    → (set_status k n pending).links m ≡ k.links m
unfolding set_status add_to_runqueue sm_clist_rpush
links-pending k qs n m v off ne nn idle =
    let p = (k.threads n).priority in
    rw off (
      rpush-frame (runqueue k p) n m ne (
        ne-next (runqueue k p) (qs p) m (v.holds.queues p (v.levels n)) (not_queued k qs v m idle p)
          nn))

not_on_runqueue_of_blocked :
    (k : Kernel) (n : ℕ)
    → (k.threads n).status ≡ mutex_blocked
    → on_runqueue (k.threads n).status ≡ false
not_on_runqueue_of_blocked k n e = ap on_runqueue e

pub ne-null_of_Waits :
    (l : Links) (a : ℕ) (ws : List ℕ) (m : ℕ) → Waits l a ws → has m ws ≡ true → m ≢ null
ne-null_of_Waits l a [] m w i e = absurd (ground (arith, i))
ne-null_of_Waits l a (x ∷ ws) m w i e = elim (Bool-cases (m == x)) [
  | inl s ↦ let s' : m ≡ x = ground (arith, s) in w.1 (sym s' ∙ e)
  | inr s ↦ ne-null_of_Waits l (l x) ws m w.2 (ground (arith, i)) e
]

-- The pointer that `wake_first` leaves.
abbrev pointer : ℕ → ℕ
pointer next = if next == null then mutex_locked else next

module _ (k : Kernel) (qs : Queues) (v : IsScheduled k qs) (queue w : ℕ) (ws : List ℕ)
    (lock : Waiting k queue (w ∷ ws)) where
  idle : on_runqueue (k.threads w).status ≡ false
  idle = not_on_runqueue_of_blocked k w (lock.blocked w (ground arith))

  rest_kept : (m : ℕ) → has m ws ≡ true → (set_status k w pending).links m ≡ k.links m
  rest_kept m i =
      links-pending k qs w m v idle (has-ne m w ws i lock.distinct.0)
        (ne-null_of_Waits k.links queue (w ∷ ws) m lock.linked (ground (arith, i)))
        (not_on_runqueue_of_blocked k m (lock.blocked m (ground (arith, i))))

  rest_blocked :
      (m : ℕ) → has m ws ≡ true → ((set_status k w pending).threads m).status ≡ mutex_blocked
  rest_blocked m i = rw (threads-set_status k w pending, other) (lock.blocked m (ground (arith, i)))
    where
      ne : m ≢ w
      ne = has-ne m w ws i lock.distinct.0

      other : m == w ≡ false
      other = ground arith

  rest_Waits : Waits (set_status k w pending).links (k.links w) ws
  rest_Waits =
      Waits-frame k.links (set_status k w pending).links (k.links w) ws rest_kept lock.linked.2

  woken_status : ((set_status k w pending).threads w).status ≡ pending
  woken_status = rw (threads-set_status k w pending, self) refl
    where
      self : w == w ≡ true
      self = ground arith

still-IsLocked :
    (k k' : Kernel) (next : ℕ) (ws : List ℕ)
    → Waits k'.links next ws
    → Distinct ws
    → has mutex_locked ws ≡ false
    → ((m : ℕ) → has m ws ≡ true → (k'.threads m).status ≡ mutex_blocked)
    → IsLocked k' (pointer next) ws
still-IsLocked k k' next [] w d p b = rw w refl
still-IsLocked k k' next (x ∷ ws) w d p b =
    subst (λ q. Waiting k' q (x ∷ ws)) (sym named)
      record { linked = w; distinct = d; proper = p; blocked = b }
  where
    named : pointer next ≡ next
    named = ground (arith, w.0, w.1)

IsLocked-frame :
    (k k' : Kernel) (queue : ℕ) (ws : List ℕ)
    → k'.links ≡ k.links
    → k'.threads ≡ k.threads
    → IsLocked k queue ws
    → IsLocked k' queue ws
IsLocked-frame k k' queue [] el et v = v
IsLocked-frame k k' queue (w ∷ ws) el et v = record {
  linked = subst (λ l. Waits l queue (w ∷ ws)) (sym el) v.linked;
  distinct = v.distinct;
  proper = v.proper;
  blocked = λ n i. rw et (v.blocked n i);
}

pub wake_first-eq :
    (k : Kernel) (queue : ℕ)
    → queue ≢ null
    → wake_first queue k ≡ some ((queue, pointer (k.links queue)), set_status k queue pending)
unfolding wake_first list_remove_head sched_set_status
wake_first-eq k queue n = rw ne refl
  where
    ne : queue == null ≡ false
    ne = ground arith

-- A switch that may not yield at once sets the switch request at most.
switch_request-only :
    (fuel prio : ℕ) (k : Kernel)
    → k.active_thread ≢ null
    → (r : Bool) × (switch_internal_allow_yield fuel prio false k
        ≡ some (tt, record k { switch_request = r }))
unfolding switch_internal_allow_yield
switch_request-only fuel prio k n =
    elim (Bool-cases (
      not (on_runqueue (k.threads k.active_thread).status)
      || ltb prio (k.threads k.active_thread).priority)) [
        | inl e ↦ (true, rw (ne, e, never (not k.irq_is_in)) refl)
        | inr e ↦ (k.switch_request, rw (ne, e) refl)
      ]
  where
    ne : k.active_thread == null ≡ false
    ne = ground arith

    never : (b : Bool) → (b && false) ≡ false
    never b = ground arith

mutex_unlock-eq :
    (fuel queue process next : ℕ) (k k1 k2 : Kernel)
    → queue ≢ null
    → queue ≢ mutex_locked
    → wake_first queue k ≡ some ((process, next), k1)
    → switch_internal_allow_yield fuel (k1.threads process).priority false k1 ≡ some (tt, k2)
    → mutex_unlock fuel queue k ≡ some (next, k2)
unfolding mutex_unlock
mutex_unlock-eq fuel queue process next k k1 k2 n m w s = ground (arith, w, s)

-- Where the scheduler's invariant holds, unlocking a mutex for which threads wait, while a thread
-- is active, hands it to the first of them: the call returns, the mutex stays locked with the
-- others waiting in the same order, the first one is pending at the end of the queue of its
-- priority, the invariant is kept, and the active thread stays active.
pub mutex_unlock-IsLocked :
    (fuel : ℕ) (k : Kernel) (qs : Queues) (queue w : ℕ) (ws : List ℕ)
    → IsScheduled k qs
    → IsLocked k queue (w ∷ ws)
    → k.active_thread ≢ null
    → (queue' : ℕ) × (k' : Kernel) × (mutex_unlock fuel queue k ≡ some (queue', k'))
      × IsLocked k' queue' ws
      × IsScheduled k' (requeue k w pending qs)
      × ((k'.threads w).status ≡ pending)
      × (k'.active_thread ≡ k.active_thread)
mutex_unlock-IsLocked fuel k qs queue w ws v lock act =
    let (r, switch) =
      switch_request-only fuel (k1.threads w).priority k1 (λ e. act (sym same ∙ e)) in
    let k2 = record k1 { switch_request = r } in
    (
      pointer (k.links w),
      k2,
      mutex_unlock-eq fuel queue w (pointer (k.links w)) k k1 k2 (λ e. lock.linked.1 (sym at_w ∙ e))
          (λ e. has-ne w mutex_locked (w ∷ ws) (ground arith) lock.proper (sym at_w ∙ e)) wakes
          switch,
      IsLocked-frame k1 k2 (pointer (k.links w)) ws refl refl (
          still-IsLocked k k1 (k.links w) ws (rest_Waits k qs v queue w ws lock) lock.distinct.1
            (ground (arith, lock.proper)) (rest_blocked k qs v queue w ws lock)),
      IsScheduled-frame k1 k2 (requeue k w pending qs) refl refl refl refl (
          set_status-IsScheduled k qs v w pending lock.linked.1
            (λ on off. absurd (ground (arith, off)))),
      woken_status k qs v queue w ws lock,
      same,
    )
  where
    k1 : Kernel
    k1 = set_status k w pending

    at_w : queue ≡ w
    at_w = lock.linked.0

    same : k1.active_thread ≡ k.active_thread
    same = active-set_status k w pending

    wakes : wake_first queue k ≡ some ((w, pointer (k.links w)), k1)
    wakes =
        subst (λ q. wake_first q k ≡ some ((w, pointer (k.links w)), k1)) (sym at_w)
          (wake_first-eq k w lock.linked.1)
