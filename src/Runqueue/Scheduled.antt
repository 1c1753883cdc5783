-- ===== src/Runqueue/Scheduled.antt =====
-- The scheduler's invariant, and what a change of status does to the queues and the threads.
use sancus_riot.Common.{
  ℕ, ◌<◌, ◌≡◌, refl, ap, true, List, [], ◌∷◌, ◌++◌, arith, ◌==◌, if◌then◌else◌, has, Bool-cases,
  inl, inr,
}
use sancus_riot.Kernel.{Kernel, Status, on_runqueue, update}
use sancus_riot.Runqueue.{add_to_runqueue, remove_from_runqueue, set_status}
use sancus_riot.Runqueue.Invariant.{Queues, Holds}

-- The scheduler's invariant: the run queues hold `qs`, every thread that is running or pending
-- stands in the queue of its priority, and no other thread stands in a queue.
pub record IsScheduled (k : Kernel) (qs : Queues) : Type 0 where
  pub holds : Holds k qs
  pub exact : (n : ℕ) → has n (qs (k.threads n).priority) ≡ on_runqueue (k.threads n).status
  pub placed : (p n : ℕ) → has n (qs p) ≡ true → p ≡ (k.threads n).priority
  pub levels : (n : ℕ) → (k.threads n).priority < 16

-- The invariant speaks of the threads, the pointers, the queues and the cache alone.
pub IsScheduled-frame :
    (k k' : Kernel) (qs : Queues)
    → k'.threads ≡ k.threads
    → k'.links ≡ k.links
    → k'.runqueues ≡ k.runqueues
    → k'.bitcache ≡ k.bitcache
    → IsScheduled k qs
    → IsScheduled k' qs
IsScheduled-frame k k' qs et el er eb v = record {
  holds = record {
    queues = λ p hp. rw (el, er) (v.holds.queues p hp);
    cache = λ p hp. rw eb (v.holds.cache p hp);
    apart = v.holds.apart;
  };
  exact = λ n. rw et (v.exact n);
  placed = λ p n i. rw et (v.placed p n i);
  levels = λ n. rw et (v.levels n);
}

abbrev pub tail : List ℕ → List ℕ
tail [] = []
tail (x ∷ xs) = xs

-- The queue of a thread after a change of its status: it joins at the end, or leaves at the head.
unfoldable pub requeued : Kernel → ℕ → Status → List ℕ → List ℕ
requeued k n s xs =
    let queued = on_runqueue (k.threads n).status in
    if on_runqueue s
    then (if queued then xs else xs ++ (n ∷ []))
    else (if queued then tail xs else xs)

-- The queues after a change of status.
unfoldable pub requeue : Kernel → ℕ → Status → Queues → Queues
unfolding requeued
requeue k n s qs = let p = (k.threads n).priority in update qs p (requeued k n s (qs p))

-- `n` is the first of the list `xs`.
abbrev pub IsHead : ℕ → List ℕ → Type 0
IsHead n [] = ⊥
IsHead n (x ∷ xs) = x ≡ n

pub cons_of_head : {n : ℕ} (xs : List ℕ) → IsHead n xs → xs ≡ n ∷ tail xs
cons_of_head [] h = absurd h
cons_of_head (x ∷ xs) h = ap (λ a. a ∷ xs) h

pub threads-add : (k : Kernel) (n : ℕ) → (add_to_runqueue k n).threads ≡ k.threads
unfolding add_to_runqueue
threads-add k n = refl

pub threads-remove : (k : Kernel) (n : ℕ) → (remove_from_runqueue k n).threads ≡ k.threads
unfolding remove_from_runqueue
threads-remove k n = ground arith

pub status-set_status :
    (k : Kernel) (n : ℕ) (s : Status) → ((set_status k n s).threads n).status ≡ s
unfolding set_status
status-set_status k n s = rw (self n) refl
  where
    self : (m : ℕ) → m == m ≡ true
    self m = ground arith

-- No other thread changes, and of `n` only the status.
pub threads-set_status :
    (k : Kernel) (n : ℕ) (s : Status)
    → (set_status k n s).threads ≡ update k.threads n (record (k.threads n) { status = s })
unfolding set_status
threads-set_status k n s = elim (Bool-cases (on_runqueue s)) [
  | inl on ↦ elim (Bool-cases (on_runqueue (k.threads n).status)) [
    | inl queued ↦ rw (on, queued) refl
    | inr off ↦ rw (on, off, threads-add k n) refl
  ]
  | inr stop ↦ elim (Bool-cases (on_runqueue (k.threads n).status)) [
    | inl queued ↦ rw (stop, queued, threads-remove k n) refl
    | inr off ↦ rw (stop, off) refl
  ]
]

pub active-add : (k : Kernel) (n : ℕ) → (add_to_runqueue k n).active_thread ≡ k.active_thread
unfolding add_to_runqueue
active-add k n = refl

pub active-remove :
    (k : Kernel) (n : ℕ) → (remove_from_runqueue k n).active_thread ≡ k.active_thread
unfolding remove_from_runqueue
active-remove k n = ground arith

pub active-set_status :
    (k : Kernel) (n : ℕ) (s : Status) → (set_status k n s).active_thread ≡ k.active_thread
unfolding set_status
active-set_status k n s = ground (arith, active-add k n, active-remove k n)
