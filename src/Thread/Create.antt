-- ===== src/Thread/Create.antt =====
-- Creating a thread.
use sancus_riot.Common.{
  ℕ, zero, suc, ◌+◌, ◌<◌, ◌≤◌, ◌≡◌, refl, ap, ◌≢◌, Bool, true, false, some, [], ◌∷◌, ◌++◌, arith,
  ◌==◌, has, Bool-cases, inl, inr, ◌⊎◌,
}
use mathlib.Core.Path.{subst}
use sancus_riot.Clist.Chain.{null}
use sancus_riot.Clist.Frame.{IsClist-frame}
use sancus_riot.Kernel.{Kernel, pending, on_runqueue, update, pid_undef, pid_first, pid_last}
use sancus_riot.Runqueue.{runqueue, set_status, sched_set_status}
use sancus_riot.Runqueue.Invariant.{Queues}
use sancus_riot.Runqueue.Scheduled.{IsScheduled, requeue, requeued, threads-set_status}
use sancus_riot.Runqueue.SetStatus.{set_status-IsScheduled, not_queued}
use sancus_riot.Thread.{free_pid, register, create_internal, created, overflow}

-- `pid` is the first pid that no thread uses.
pub record IsFree (k : Kernel) (pid : ℕ) : Type 0 where
  pub positive : pid_first ≤ pid
  pub in_range : pid ≤ pid_last
  pub unused : (k.threads pid).in_use ≡ false
  pub first : (j : ℕ) → pid_first ≤ j → j < pid → (k.threads j).in_use ≡ true

-- What the search finds from `i` on: an unused entry, or that all are used.
abbrev pub Searched : ℕ → Kernel → ℕ → ℕ → Type 0
Searched tries k i r =
    ((i ≤ r)
      × (r < i + tries)
      × ((k.threads r).in_use ≡ false)
      × ((j : ℕ) → i ≤ j → j < r → (k.threads j).in_use ≡ true))
    ⊎ ((r ≡ pid_undef) × ((j : ℕ) → i ≤ j → j < i + tries → (k.threads j).in_use ≡ true))

pub free_pid-Searched : (tries : ℕ) (k : Kernel) (i : ℕ) → Searched tries k i (free_pid tries k i)
unfolding free_pid
free_pid-Searched zero k i = inr (refl, λ j h l. absurd (omega (arith, h, l)))
free_pid-Searched (suc tries) k i = elim (Bool-cases (k.threads i).in_use) [
  | inl used ↦ rw used (elim (free_pid-Searched tries k (i + 1)) [
    | inl (low, high, free, all) ↦
        inl (omega (arith, low), omega (arith, high), free, λ j h l. from used j h λ h'. all j h' l)
    | inr (none_left, all) ↦
        inr (none_left, λ j h l. from used j h λ h'. all j h' (omega (arith, l)))
  ])
  | inr free ↦ rw free (inl (omega arith, omega arith, free, λ j h l. absurd (omega (arith, h, l))))
]
  where
    from :
        (k.threads i).in_use ≡ true
        → (j : ℕ) → i ≤ j
        → (i + 1 ≤ j → (k.threads j).in_use ≡ true)
        → (k.threads j).in_use ≡ true
    from used j h later = elim (Bool-cases (j == i)) [
      | inl e ↦ let e' : j ≡ i = ground arith in rw e' used
      | inr e ↦ later (ground arith)
    ]

register-pid :
    (k : Kernel) (pid priority sp : ℕ) (is_sm : Bool)
    → let t = (register pid priority is_sm sp k).threads pid in
      (t.in_use ≡ true) × (t.sp ≡ sp) × (t.is_sm ≡ is_sm)
unfolding register
register-pid k pid priority sp is_sm = rw (self pid) (refl, refl, refl)
  where
    self : (m : ℕ) → m == m ≡ true
    self m = ground arith

register-other :
    (k : Kernel) (pid priority sp n : ℕ) (is_sm : Bool)
    → n ≢ pid
    → update
        (register pid priority is_sm sp k).threads
        pid
        (record ((register pid priority is_sm sp k).threads pid) { status = pending })
        n
      ≡ k.threads n
unfolding register
register-other k pid priority sp n is_sm ne = rw differ refl
  where
    differ : n == pid ≡ false
    differ = ground arith

requeue-register :
    (k : Kernel) (qs : Queues) (pid priority sp : ℕ) (is_sm : Bool)
    → on_runqueue (k.threads pid).status ≡ false
    → requeue (register pid priority is_sm sp k) pid pending qs
      ≡ update qs priority (qs priority ++ (pid ∷ []))
unfolding requeue requeued register
requeue-register k qs pid priority sp is_sm off = rw (self pid) (rw off refl)
  where
    self : (m : ℕ) → m == m ≡ true
    self m = ground arith

module _ (k : Kernel) (qs : Queues) (v : IsScheduled k qs) (pid priority sp : ℕ)
    (is_sm : Bool) where
  pub register-IsScheduled :
      priority < 16
      → ((q : ℕ) → has pid (qs q) ≡ false)
      → on_runqueue (k.threads pid).status ≡ false
      → IsScheduled (register pid priority is_sm sp k) qs
  unfolding register
  register-IsScheduled hp out off = record {
    holds = record {
      queues = λ q hq.
          IsClist-frame (runqueue k q) (runqueue (register pid priority is_sm sp k) q) (qs q) refl
            (λ m i. ground (arith, ap (λ a. has a (qs q)), out q)) (v.holds.queues q hq);
      cache = v.holds.cache;
      apart = v.holds.apart;
    };
    exact = λ n. elim (Bool-cases (n == pid)) [
      | inl e ↦ let e' : n ≡ pid = ground arith in rw e' (ground (arith, out priority, off))
      | inr e ↦ rw e (v.exact n)
    ];
    placed = λ p n i. elim (Bool-cases (n == pid)) [
      | inl e ↦
          let e' : n ≡ pid = ground arith in
          absurd (ground (arith, i, out p, ap (λ a. has a (qs p)) e'))
      | inr e ↦ rw e (v.placed p n i)
    ];
    levels = λ n. elim (Bool-cases (n == pid)) [ inl e ↦ rw e hp | inr e ↦ rw e (v.levels n) ];
  }

  -- The queues and the status after the new thread is put on its run queue.
  pended :
      pid ≢ null
      → priority < 16
      → ((q : ℕ) → has pid (qs q) ≡ false)
      → on_runqueue (k.threads pid).status ≡ false
      → IsScheduled
          (set_status (register pid priority is_sm sp k) pid pending)
          (update qs priority (qs priority ++ (pid ∷ [])))
  pended nn hp out off =
      subst (IsScheduled (set_status (register pid priority is_sm sp k) pid pending)) joins (
        set_status-IsScheduled (register pid priority is_sm sp k) qs
          (register-IsScheduled hp out off) pid pending nn
          (λ on stop. absurd (ground (arith, stop))))
    where
      joins :
          requeue (register pid priority is_sm sp k) pid pending qs
          ≡ update qs priority (qs priority ++ (pid ∷ []))
      joins = requeue-register k qs pid priority sp is_sm off

-- What `_thread_create_scheduler_internal` leaves when it creates the thread `pid`.
pub record Created (k : Kernel) (qs : Queues) (priority : ℕ) (is_sm : Bool) (sp pid : ℕ)
    (k' : Kernel) : Type 0 where
  pub free : IsFree k pid
  pub scheduled : IsScheduled k' (update qs priority (qs priority ++ (pid ∷ [])))
  pub status : (k'.threads pid).status ≡ pending
  pub used : (k'.threads pid).in_use ≡ true
  pub stack : (k'.threads pid).sp ≡ sp
  pub protected : (k'.threads pid).is_sm ≡ is_sm
  pub others : (n : ℕ) → n ≢ pid → k'.threads n ≡ k.threads n

scheduled-Created :
    (k : Kernel) (qs : Queues) (priority sp pid : ℕ) (is_sm : Bool)
    → let k' = set_status (register pid priority is_sm sp k) pid pending in
      IsFree k pid
      → IsScheduled k' (update qs priority (qs priority ++ (pid ∷ [])))
      → Created k qs priority is_sm sp pid k'
scheduled-Created k qs priority sp pid is_sm free v = record {
  free = free;
  scheduled = v;
  status = rw (threads, self) refl;
  used = rw (threads, self) (register-pid k pid priority sp is_sm).0;
  stack = rw (threads, self) (register-pid k pid priority sp is_sm).1;
  protected = rw (threads, self) (register-pid k pid priority sp is_sm).2;
  others = λ n ne. rw threads (register-other k pid priority sp n is_sm ne);
}
  where
    threads :
        (set_status (register pid priority is_sm sp k) pid pending).threads
        ≡ update
            (register pid priority is_sm sp k).threads
            pid
            (record ((register pid priority is_sm sp k).threads pid) { status = pending })
    threads = threads-set_status (register pid priority is_sm sp k) pid pending

    self : pid == pid ≡ true
    self = ground arith

pub create-full :
    (k : Kernel) (priority sp : ℕ) (is_sm : Bool)
    → free_pid pid_last k pid_first ≡ pid_undef
    → create_internal priority is_sm sp k ≡ some (overflow, k)
unfolding create_internal
create-full k priority sp is_sm e = rw e refl

pub create-free :
    (k : Kernel) (pid priority sp : ℕ) (is_sm : Bool)
    → free_pid pid_last k pid_first ≡ pid
    → pid ≢ null
    → create_internal priority is_sm sp k
      ≡ some (created pid, set_status (register pid priority is_sm sp k) pid pending)
unfolding create_internal sched_set_status
create-free k pid priority sp is_sm e nn = rw (e, ne) refl
  where
    ne : pid == pid_undef ≡ false
    ne = ground arith

-- Where the scheduler's invariant holds, creating a thread in the scheduler with a priority in
-- range, where no unused entry is on a run queue: either the first unused pid is taken, and the
-- new thread has the given stack and is pending at the end of the queue of its priority while the
-- other threads are as they were, or all 32 pids are used, -EOVERFLOW comes back and nothing
-- changes.
pub create_internal-IsScheduled :
    (k : Kernel) (qs : Queues) (priority sp : ℕ) (is_sm : Bool)
    → IsScheduled k qs
    → priority < 16
    → ((n : ℕ) → (k.threads n).in_use ≡ false → on_runqueue (k.threads n).status ≡ false)
    → ((pid : ℕ) × (k' : Kernel) × (create_internal priority is_sm sp k ≡ some (created pid, k'))
        × Created k qs priority is_sm sp pid k')
      ⊎ (((n : ℕ) → pid_first ≤ n → n ≤ pid_last → (k.threads n).in_use ≡ true)
          × (create_internal priority is_sm sp k ≡ some (overflow, k)))
create_internal-IsScheduled k qs priority sp is_sm v hp idle =
    elim (free_pid-Searched pid_last k pid_first) [
      | inl (low, high, free, all) ↦
          let pid = free_pid pid_last k pid_first in
          let nn : pid ≢ null = λ e. omega (arith, low, e) in
          inl (
            pid,
            set_status (register pid priority is_sm sp k) pid pending,
            create-free k pid priority sp is_sm refl nn,
            scheduled-Created k qs priority sp pid is_sm
                (record {
                  positive = low;
                  in_range = omega (arith, high);
                  unused = free;
                  first = all;
                })
                (pended k qs v pid priority sp is_sm nn hp (not_queued k qs v pid (idle pid free))
                  (idle pid free)),
          )
      | inr (none_left, all) ↦
          inr (λ n h l. all n h (omega (arith, l)), create-full k priority sp is_sm none_left)
    ]
