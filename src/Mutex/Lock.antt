-- ===== src/Mutex/Lock.antt =====
-- Waiting for a mutex.
use sancus_riot.Common.{
  ℕ, ◌≡◌, refl, ◌≢◌, true, false, ◌||◌, List, [], ◌∷◌, arith, ◌==◌, ltb, if◌then◌else◌, has,
  Distinct, Bool-cases, inl, inr,
}
use mathlib.Core.Path.{subst}
use sancus_riot.Clist.Chain.{Links, null}
use sancus_riot.Clist.Frame.{lpop-frame, ne-next, IsClist-frame}
use sancus_riot.Kernel.{Kernel, Status, mutex_blocked, on_runqueue}
use sancus_riot.Runqueue.{runqueue, remove_from_runqueue, set_status, sm_clist_lpop}
use sancus_riot.Runqueue.Invariant.{Queues}
use sancus_riot.Runqueue.Scheduled.{IsScheduled}
use sancus_riot.Runqueue.SetStatus.{not_queued}
use sancus_riot.Mutex.Unlock.{Waiting, IsLocked}
use sancus_riot.Mutex.Insert.{insert}

-- Other pointers than those of the run queues may change.
pub IsScheduled-links :
    (k : Kernel) (qs : Queues) (l : Links)
    → IsScheduled k qs
    → ((p n : ℕ) → has n (qs p) ≡ true → l n ≡ k.links n)
    → IsScheduled (record k { links = l }) qs
IsScheduled-links k qs l v same = record {
  holds = record {
    queues = λ p h.
        IsClist-frame (runqueue k p) (runqueue (record k { links = l }) p) (qs p) refl (same p)
          (v.holds.queues p h);
    cache = v.holds.cache;
    apart = v.holds.apart;
  };
  exact = v.exact;
  placed = v.placed;
  levels = v.levels;
}

links-remove :
    (k : Kernel) (n m : ℕ)
    → m ≢ (runqueue k (k.threads n).priority).next
    → (remove_from_runqueue k n).links m ≡ k.links m
unfolding remove_from_runqueue sm_clist_lpop
links-remove k n m ne = ground (arith, lpop-frame (runqueue k (k.threads n).priority) m ne)

-- Taking a thread off its run queue spares the entries of threads that are on none.
pub links-off :
    (k : Kernel) (qs : Queues) (s : Status) (n m : ℕ)
    → on_runqueue s ≡ false
    → IsScheduled k qs
    → on_runqueue (k.threads n).status ≡ true
    → m ≢ null
    → on_runqueue (k.threads m).status ≡ false
    → (set_status k n s).links m ≡ k.links m
unfolding set_status
links-off k qs s n m off v on nn idle =
    let p = (k.threads n).priority in
    rw (on, off)
      (links-remove k n m (
        ne-next (runqueue k p) (qs p) m (v.holds.queues p (v.levels n)) (not_queued k qs v m idle p)
          nn))

pub links-blocked :
    (k : Kernel) (qs : Queues) (n m : ℕ)
    → IsScheduled k qs
    → on_runqueue (k.threads n).status ≡ true
    → m ≢ null
    → on_runqueue (k.threads m).status ≡ false
    → (set_status k n mutex_blocked).links m ≡ k.links m
links-blocked k qs n m = links-off k qs mutex_blocked n m refl

pub has-insert :
    (k : Kernel) (prio thread n : ℕ) (ws : List ℕ)
    → has n (insert k prio thread ws) ≡ (n == thread || has n ws)
unfolding insert
has-insert k prio thread n [] = refl
has-insert k prio thread n (w ∷ ws) = ground (arith, has-insert k prio thread n ws)

pub Distinct-insert :
    (k : Kernel) (prio thread : ℕ) (ws : List ℕ)
    → has thread ws ≡ false
    → Distinct ws
    → Distinct (insert k prio thread ws)
unfolding insert
Distinct-insert k prio thread [] out d = (refl, tt)
Distinct-insert k prio thread (w ∷ ws) out d = elim (Bool-cases (ltb prio (k.threads w).priority)) [
  | inl e ↦ rw e (out, d)
  | inr e ↦ rw e (
    ground (arith, has-insert k prio thread w ws, d.0, out),
    Distinct-insert k prio thread ws (ground (arith, out)) d.1,
  )
]

pub insert-priorities :
    (k k' : Kernel) (prio thread : ℕ) (ws : List ℕ)
    → ((n : ℕ) → (k'.threads n).priority ≡ (k.threads n).priority)
    → insert k' prio thread ws ≡ insert k prio thread ws
unfolding insert
insert-priorities k k' prio thread [] same = refl
insert-priorities k k' prio thread (w ∷ ws) same =
    rw (same w, insert-priorities k k' prio thread ws same) refl

pub insert-IsLocked :
    (k0 k : Kernel) (queue prio thread : ℕ) (ws : List ℕ)
    → Waiting k queue (insert k0 prio thread ws)
    → IsLocked k queue (insert k0 prio thread ws)
unfolding insert
insert-IsLocked k0 k queue prio thread [] w = w
insert-IsLocked k0 k queue prio thread (x ∷ ws) w =
    elim (Bool-cases (ltb prio (k0.threads x).priority)) [
      | inl e ↦ rw e (
          subst (λ b. Waiting k queue (if b then thread ∷ x ∷ ws else x ∷ insert k0 prio thread ws))
            e w)
      | inr e ↦ rw e (
          subst (λ b. Waiting k queue (if b then thread ∷ x ∷ ws else x ∷ insert k0 prio thread ws))
            e w)
    ]
