-- ===== src/Sched/Pick.antt =====
-- The choice of the next thread in `sched_run_internal`.
use sancus_riot.Common.{
  ◌⊎◌, ℕ, ◌<◌, ◌≡◌, refl, sym, ap, ◌∙◌, Bool, true, false, not, some, List, [], ◌∷◌, arith, ◌==◌,
  has, Bool-cases, inl, inr,
}
use mathlib.Core.Path.{subst}
use sancus_riot.Clist.Queue.{IsClist, next_links, next-ne-null}
use sancus_riot.Clist.Frame.{not-has-null}
use sancus_riot.Kernel.{Kernel, Status, running, pending, on_runqueue, is_running, pid_undef}
use sancus_riot.Runqueue.{bitarithm_lsb_sm_timer, runqueue, with_status}
use sancus_riot.Runqueue.Cache.{bitarithm_lsb_sm_timer-least}
use sancus_riot.Runqueue.Invariant.{Queues, Holds, empty_bit}
use sancus_riot.Runqueue.Scheduled.{IsScheduled, IsScheduled-frame}
use sancus_riot.Runqueue.SetStatus.{with_status-IsScheduled}
use sancus_riot.Sched.{next_thread, preempt, activate, switch_thread}

-- `x` is the first thread of the highest priority (the least number) at which one is ready.
pub record IsNext (qs : Queues) (x : ℕ) : Type 0 where
  pub level : ℕ
  pub rest : List ℕ
  pub in_range : level < 16
  pub first : qs level ≡ x ∷ rest
  pub above : (j : ℕ) → j < level → qs j ≡ []

module _ (k : Kernel) (qs : Queues) (x : ℕ) (h : Holds k qs) (i : IsNext qs x) where
  lsb_level : bitarithm_lsb_sm_timer k.bitcache ≡ some i.level
  lsb_level =
      bitarithm_lsb_sm_timer-least k.bitcache i.level i.in_range
        (h.cache i.level i.in_range ∙ ap empty_bit i.first)
        (λ j lt. h.cache j (omega (arith, i.in_range)) ∙ ap empty_bit (i.above j lt))

  circle : IsClist (runqueue k i.level) (x ∷ i.rest)
  circle = subst (IsClist (runqueue k i.level)) i.first (h.queues i.level i.in_range)

  -- With the run queues in order, the bit cache and the queue lead to the next thread.
  pub next_thread-IsNext : next_thread k ≡ some x
  unfolding next_thread
  next_thread-IsNext = ground (
    arith,
    lsb_level,
    next-ne-null (runqueue k i.level) x i.rest circle,
    next_links (runqueue k i.level) x i.rest circle,
  )

  pub ready : has x (qs i.level) ≡ true
  ready = rw i.first (ground arith)

-- No thread but the active one runs.
pub record OneRuns (k : Kernel) : Type 0 where
  pub only : (n : ℕ) → is_running (k.threads n).status ≡ true → n ≡ k.active_thread

-- What a change to the thread `x` leaves.
pub record Switched (k : Kernel) (qs : Queues) (x : ℕ) (changed : Bool) (k' : Kernel) : Type 0 where
  pub scheduled : IsScheduled k' qs
  pub active : k'.active_thread ≡ x
  pub request : k'.switch_request ≡ false
  pub flag : changed ≡ not (k.active_thread == x)
  pub one_runs : OneRuns k'
  pub runs : (changed ≡ false) ⊎ ((k'.threads x).status ≡ running)

on_runqueue_of_running : (s : Status) → is_running s ≡ true → on_runqueue s ≡ true
on_runqueue_of_running s h = ground arith

pub on_runqueue_of_has :
    (k : Kernel) (qs : Queues) (p x : ℕ)
    → IsScheduled k qs
    → has x (qs p) ≡ true
    → on_runqueue (k.threads x).status ≡ true
on_runqueue_of_has k qs p x v i =
    sym (v.exact x) ∙ ap (λ q. has x (qs q)) (sym (v.placed p x i)) ∙ i

-- NULL is not in a queue, so its status is not that of a thread that can run.
pub null_off :
    (k : Kernel) (qs : Queues) → IsScheduled k qs → is_running (k.threads 0).status ≡ false
null_off k qs v = ground (
  arith,
  v.exact 0,
  not-has-null (runqueue k (k.threads 0).priority) (qs (k.threads 0).priority)
      (v.holds.queues (k.threads 0).priority (v.levels 0)),
)

pub preempt-IsScheduled : (k : Kernel) (qs : Queues) → IsScheduled k qs → IsScheduled (preempt k) qs
unfolding preempt
preempt-IsScheduled k qs v = elim (Bool-cases (k.active_thread == pid_undef)) [
  | inl e ↦ rw e v
  | inr e ↦ elim (Bool-cases (is_running (k.threads k.active_thread).status)) [
    | inl on ↦
        rw (e, on)
          (with_status-IsScheduled k qs v k.active_thread pending
            (sym (on_runqueue_of_running (k.threads k.active_thread).status on)))
    | inr off ↦ rw (e, off) v
  ]
]

-- After `preempt` no thread runs.
preempt_quiet :
    (k : Kernel) (qs : Queues)
    → IsScheduled k qs
    → OneRuns k
    → (n : ℕ) → is_running ((preempt k).threads n).status ≡ false
unfolding preempt
preempt_quiet k qs v r n = elim (Bool-cases (is_running (k.threads n).status)) [
  | inl on ↦
      let e = r.only n on in
      ground (arith, null_off k qs v, ap (λ m. is_running (k.threads m).status) e)
  | inr off ↦ ground arith
]

abbrev pub cleared : Kernel → Kernel
cleared k = record k { switch_request = false }

status-activate : (x : ℕ) (k : Kernel) → ((activate x k).threads x).status ≡ running
unfolding activate
status-activate x k = ground arith

request-activate : (x : ℕ) (k : Kernel) → (activate x k).switch_request ≡ k.switch_request
unfolding activate preempt
request-activate x k = ground arith

pub active-activate : (x : ℕ) (k : Kernel) → (activate x k).active_thread ≡ x
unfolding activate
active-activate x k = refl

pub switch-same :
    (k : Kernel) (x : ℕ)
    → next_thread (cleared k) ≡ some x
    → k.active_thread == x ≡ true
    → switch_thread k ≡ some (false, cleared k)
unfolding switch_thread
switch-same k x n e = ground arith

pub switch-other :
    (k : Kernel) (x : ℕ)
    → next_thread (cleared k) ≡ some x
    → k.active_thread == x ≡ false
    → switch_thread k ≡ some (true, activate x (cleared k))
unfolding switch_thread
switch-other k x n e = ground arith

pub activate-IsScheduled :
    (k : Kernel) (qs : Queues) (x p : ℕ)
    → IsScheduled k qs
    → has x (qs p) ≡ true
    → IsScheduled (activate x k) qs
unfolding activate
activate-IsScheduled k qs x p v i =
    let v' = preempt-IsScheduled k qs v in
    let w =
      with_status-IsScheduled (preempt k) qs v' x running
        (sym (on_runqueue_of_has (preempt k) qs p x v' i)) in
    IsScheduled-frame (with_status (preempt k) x running) _ qs refl refl refl refl w

activate-OneRuns :
    (k : Kernel) (qs : Queues) (x : ℕ) → IsScheduled k qs → OneRuns k → OneRuns (activate x k)
unfolding activate
activate-OneRuns k qs x v r = record { only = λ n h. ground (arith, preempt_quiet k qs v r n) }

-- The middle of `sched_run_internal` changes to the first thread of the highest priority that is
-- ready, and does not fault: it ends with that thread active, keeps the run queues, clears the switch
-- request and reports whether the active thread changed; no other thread is left running, and after
-- a change the new one is running.
pub switch_thread-Switched :
    (k : Kernel) (qs : Queues) (x : ℕ)
    → IsScheduled k qs
    → OneRuns k
    → IsNext qs x
    → (c : Bool) × (k' : Kernel) × (switch_thread k ≡ some (c, k')) × Switched k qs x c k'
switch_thread-Switched k qs x v r i = elim (Bool-cases (k.active_thread == x)) [
  | inl e ↦ (
    false,
    cleared k,
    stays e,
    record {
      scheduled = v';
      active = ground arith;
      request = refl;
      flag = rw e refl;
      one_runs = record { only = r.only };
      runs = inl refl;
    },
  )
  | inr e ↦ (
    true,
    activate x (cleared k),
    changes e,
    record {
      scheduled = activate-IsScheduled (cleared k) qs x i.level v' (ready k qs x v.holds i);
      active = active-activate x (cleared k);
      request = request-activate x (cleared k);
      flag = rw e refl;
      one_runs = activate-OneRuns (cleared k) qs x v' r';
      runs = inr (status-activate x (cleared k));
    },
  )
]
  where
    v' : IsScheduled (cleared k) qs
    v' = IsScheduled-frame k (cleared k) qs refl refl refl refl v

    r' : OneRuns (cleared k)
    r' = record { only = r.only }

    stays : k.active_thread == x ≡ true → switch_thread k ≡ some (false, cleared k)
    stays e = switch-same k x (next_thread-IsNext (cleared k) qs x v'.holds i) e

    changes : k.active_thread == x ≡ false → switch_thread k ≡ some (true, activate x (cleared k))
    changes e = switch-other k x (next_thread-IsNext (cleared k) qs x v'.holds i) e
