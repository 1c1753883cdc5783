-- ===== src/Mutex/Enqueue.antt =====
-- A thread that waits for a mutex leaves its run queue and joins the list of the mutex.
use sancus_riot.Common.{
  ℕ, ◌<◌, ◌≡◌, refl, sym, ap, ◌≢◌, ◌∙◌, true, false, ◌||◌, some, List, [], ◌∷◌, arith, ◌==◌,
  if◌then◌else◌, has, length, Bool-cases, inl, inr,
}
use mathlib.Core.Path.{subst}
use sancus_riot.Clist.Chain.{Links, null, set_next}
use sancus_riot.Clist.Erase.{has-ne}
use sancus_riot.Kernel.{Kernel, mutex_blocked, on_runqueue}
use sancus_riot.Runqueue.{set_status, sched_set_status}
use sancus_riot.Runqueue.Invariant.{Queues}
use sancus_riot.Runqueue.Scheduled.{
  IsScheduled, IsHead, requeue, threads-set_status, active-set_status,
}
use sancus_riot.Runqueue.SetStatus.{set_status-IsScheduled, not_queued}
use sancus_riot.Mutex.{mutex_locked, wait_fuel, enqueue, thread_add_to_list}
use sancus_riot.Mutex.Unlock.{Waits, Waiting, IsLocked, Waits-frame, ne-null_of_Waits}
use sancus_riot.Mutex.Insert.{insert, Inserted, thread_add_to_list-insert}
use sancus_riot.Mutex.Lock.{
  IsScheduled-links, links-blocked, has-insert, Distinct-insert, insert-priorities, insert-IsLocked,
}

-- The kernel after the change of the status.
abbrev left : Kernel → Kernel
left k = set_status k k.active_thread mutex_blocked

enqueue-locked :
    (k : Kernel)
    → k.active_thread ≢ null
    → enqueue mutex_locked k
      ≡ some (
        k.active_thread,
        record (left k) { links = set_next (left k).links k.active_thread null },
      )
unfolding enqueue sched_set_status
enqueue-locked k n = rw ne refl
  where
    ne : k.active_thread == null ≡ false
    ne = ground arith

enqueue-waiting :
    (k : Kernel) (queue : ℕ)
    → k.active_thread ≢ null
    → queue ≢ mutex_locked
    → enqueue queue k ≡ thread_add_to_list queue k.active_thread (left k)
unfolding enqueue sched_set_status
enqueue-waiting k queue n m = rw (ne, other) refl
  where
    ne : k.active_thread == null ≡ false
    ne = ground arith

    other : queue == mutex_locked ≡ false
    other = ground arith

-- What a thread that begins to wait leaves.
pub record Enqueued (k : Kernel) (qs : Queues) (queue : ℕ) (ws : List ℕ) : Type 0 where
  pub queue_after : ℕ
  pub kernel_after : Kernel
  pub returns : enqueue queue k ≡ some (queue_after, kernel_after)
  pub locked :
      IsLocked kernel_after queue_after
        (insert k (k.threads k.active_thread).priority k.active_thread ws)
  pub scheduled : IsScheduled kernel_after (requeue k k.active_thread mutex_blocked qs)
  pub active : kernel_after.active_thread ≡ k.active_thread
  pub threads : kernel_after.threads ≡ (set_status k k.active_thread mutex_blocked).threads

-- A thread that is able to run, and first of its queue, begins to wait for a mutex.
pub record Begins (k : Kernel) (qs : Queues) : Type 0 where
  pub scheduled : IsScheduled k qs
  pub active : k.active_thread ≢ null
  pub proper : k.active_thread ≢ mutex_locked
  pub runs : on_runqueue (k.threads k.active_thread).status ≡ true
  pub head : IsHead k.active_thread (qs (k.threads k.active_thread).priority)

module _ (k : Kernel) (qs : Queues) (b : Begins k qs) where
  left-IsScheduled : IsScheduled (left k) (requeue k k.active_thread mutex_blocked qs)
  left-IsScheduled =
      set_status-IsScheduled k qs b.scheduled k.active_thread mutex_blocked b.active
        (λ on off. b.head)

  status-left :
      (n : ℕ)
      → ((left k).threads n).status
        ≡ (if n == k.active_thread then mutex_blocked else (k.threads n).status)
  status-left n =
      rw (threads-set_status k k.active_thread mutex_blocked)
        (elim (Bool-cases (n == k.active_thread)) [ inl e ↦ rw e refl | inr e ↦ rw e refl ])

  priority-left : (n : ℕ) → ((left k).threads n).priority ≡ (k.threads n).priority
  priority-left n =
      rw (threads-set_status k k.active_thread mutex_blocked)
        (elim (Bool-cases (n == k.active_thread)) [
          | inl e ↦
              let e' : n ≡ k.active_thread = ground (arith, e) in
              rw e (ap (λ m. (k.threads m).priority) (sym e'))
          | inr e ↦ rw e refl
        ])

  self_blocked : ((left k).threads k.active_thread).status ≡ mutex_blocked
  self_blocked = status-left k.active_thread ∙ rw self refl
    where
      self : k.active_thread == k.active_thread ≡ true
      self = ground arith

  -- New pointers of threads that wait leave the run queues in order.
  spared :
      (l : Links)
      → ((n : ℕ) → ((left k).threads n).status ≢ mutex_blocked → l n ≡ (left k).links n)
      → IsScheduled (record (left k) { links = l }) (requeue k k.active_thread mutex_blocked qs)
  spared l same =
      IsScheduled-links (left k) (requeue k k.active_thread mutex_blocked qs) l left-IsScheduled
        λ p n i. same n λ e. absurd (
          ground (
            arith,
            i,
            not_queued (left k) (requeue k k.active_thread mutex_blocked qs) left-IsScheduled n
                (ap on_runqueue e) p,
          ))

  enqueue_first : (queue : ℕ) → queue ≡ mutex_locked → Enqueued k qs queue []
  unfolding insert
  enqueue_first queue e = record {
    queue_after = k.active_thread;
    kernel_after = record (left k) { links = set_next (left k).links k.active_thread null };
    returns = rw e (enqueue-locked k b.active);
    locked = record {
      linked = (refl, b.active, ground arith);
      distinct = (refl, tt);
      proper = ground (arith, b.proper);
      blocked = λ n i.
          let e' : n ≡ k.active_thread = ground (arith, i) in
          ap (λ m. ((left k).threads m).status) e' ∙ self_blocked;
    };
    scheduled =
        spared (set_next (left k).links k.active_thread null)
          (λ n ne. ground (arith, ap (λ m. ((left k).threads m).status), self_blocked));
    active = active-set_status k k.active_thread mutex_blocked;
    threads = refl;
  }

  module _ (queue w : ℕ) (ws : List ℕ) (lock : Waiting k queue (w ∷ ws)) where
    not_waiting : has k.active_thread (w ∷ ws) ≡ false
    not_waiting = elim (Bool-cases (has k.active_thread (w ∷ ws))) [
      | inl i ↦ absurd (ground (arith, ap on_runqueue (lock.blocked k.active_thread i), b.runs))
      | inr o ↦ o
    ]

    still_blocked : (n : ℕ) → has n (w ∷ ws) ≡ true → ((left k).threads n).status ≡ mutex_blocked
    still_blocked n i = status-left n ∙ rw other (lock.blocked n i)
      where
        ne : n ≢ k.active_thread
        ne = has-ne n k.active_thread (w ∷ ws) i not_waiting

        other : n == k.active_thread ≡ false
        other = ground (arith, ne)

    still_linked : Waits (left k).links queue (w ∷ ws)
    still_linked =
        Waits-frame k.links (left k).links queue (w ∷ ws)
          (λ n i.
            links-blocked k qs k.active_thread n b.scheduled b.runs
              (ne-null_of_Waits k.links queue (w ∷ ws) n lock.linked i)
              (ap on_runqueue (lock.blocked n i)))
          lock.linked

    inserted : length (w ∷ ws) < wait_fuel → Inserted (left k) queue k.active_thread (w ∷ ws)
    inserted h =
        thread_add_to_list-insert (left k) queue k.active_thread (w ∷ ws) b.active
          (ap on_runqueue self_blocked) lock.distinct not_waiting still_linked h

    list_after-insert :
        insert (left k) ((left k).threads k.active_thread).priority k.active_thread (w ∷ ws)
        ≡ insert k (k.threads k.active_thread).priority k.active_thread (w ∷ ws)
    list_after-insert =
        ap (λ p. insert (left k) p k.active_thread (w ∷ ws)) (priority-left k.active_thread)
        ∙ insert-priorities k (left k) (k.threads k.active_thread).priority k.active_thread (w ∷ ws)
            priority-left

    has-list_after :
        (n : ℕ)
        → has n (insert k (k.threads k.active_thread).priority k.active_thread (w ∷ ws))
          ≡ (n == k.active_thread || has n (w ∷ ws))
    has-list_after n = has-insert k (k.threads k.active_thread).priority k.active_thread n (w ∷ ws)

    all_blocked :
        (n : ℕ)
        → has n (insert k (k.threads k.active_thread).priority k.active_thread (w ∷ ws)) ≡ true
        → ((left k).threads n).status ≡ mutex_blocked
    all_blocked n i = elim (Bool-cases (n == k.active_thread)) [
      | inl e ↦
          let e' : n ≡ k.active_thread = ground (arith, e) in
          ap (λ m. ((left k).threads m).status) e' ∙ self_blocked
      | inr e ↦ still_blocked n (ground (arith, has-list_after n))
    ]

    not_in : (n : ℕ) → ((left k).threads n).status ≢ mutex_blocked → has n (w ∷ ws) ≡ false
    not_in n ne = elim (Bool-cases (has n (w ∷ ws))) [
      | inl i ↦ absurd (ne (still_blocked n i))
      | inr o ↦ o
    ]

    enqueue_behind : length (w ∷ ws) < wait_fuel → Enqueued k qs queue (w ∷ ws)
    enqueue_behind h =
        let i = inserted h in
        record {
          queue_after = i.list_after;
          kernel_after = record (left k) { links = i.links_after };
          returns =
              enqueue-waiting k queue b.active (λ e.
                has-ne w mutex_locked (w ∷ ws) (ground arith) lock.proper (sym lock.linked.0 ∙ e))
              ∙ i.returns;
          locked =
              insert-IsLocked k (record (left k) { links = i.links_after }) i.list_after
                (k.threads k.active_thread).priority k.active_thread (w ∷ ws)
                record {
                  linked = subst (Waits i.links_after i.list_after) list_after-insert i.linked;
                  distinct =
                      Distinct-insert k (k.threads k.active_thread).priority k.active_thread
                        (w ∷ ws) not_waiting lock.distinct;
                  proper = ground (arith, has-list_after mutex_locked, lock.proper, b.proper);
                  blocked = all_blocked;
                };
          scheduled = spared i.links_after λ n ne.
              i.others n (λ e. ne (ap (λ m. ((left k).threads m).status) e ∙ self_blocked))
                (not_in n ne);
          active = active-set_status k k.active_thread mutex_blocked;
          threads = refl;
        }

-- The branch of `_mutex_lock` that waits ends at its yield, with the thread in the list of the mutex
-- at the place that `insert` gives.
pub enqueue-Enqueued :
    (k : Kernel) (qs : Queues) (queue : ℕ) (ws : List ℕ)
    → Begins k qs
    → IsLocked k queue ws
    → length ws < wait_fuel
    → Enqueued k qs queue ws
enqueue-Enqueued k qs queue [] b lock h = enqueue_first k qs b queue lock
enqueue-Enqueued k qs queue (w ∷ ws) b lock h = enqueue_behind k qs b queue w ws lock h
