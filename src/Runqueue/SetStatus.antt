-- ===== src/Runqueue/SetStatus.antt =====
-- `sched_set_status` keeps the run queues, the bit cache and the thread states in step.
use sancus_riot.Common.{
  ℕ, ◌≡◌, refl, sym, ap, ◌≢◌, ◌∙◌, true, false, List, [], ◌∷◌, ◌++◌, arith, ◌==◌, if◌then◌else◌,
  has, has-append, Bool-cases, inl, inr,
}
use mathlib.Core.Path.{subst, fun_ext}
use sancus_riot.Clist.Chain.{null}
use sancus_riot.Clist.Queue.{IsClist}
use sancus_riot.Kernel.{Kernel, Status, on_runqueue, update}
use sancus_riot.Runqueue.{runqueue, with_status, add_to_runqueue, remove_from_runqueue, set_status}
use sancus_riot.Runqueue.Invariant.{
  Queues, Holds, add_to_runqueue-Holds, remove_from_runqueue-Holds,
}
use sancus_riot.Runqueue.Scheduled.{
  IsScheduled, tail, requeue, IsHead, cons_of_head, threads-add, threads-remove,
}

update_self {ℓ} : {A : Type ℓ} (f : ℕ → A) (i : ℕ) → update f i (f i) ≡ f
update_self f i = fun_ext λ j. at j
  where
    at : (j : ℕ) → update f i (f i) j ≡ f j
    at j = elim (Bool-cases (j == i)) [ inl e ↦ rw e (ap f (sym (equal e))) | inr e ↦ rw e ]
      where
        equal : j == i ≡ true → j ≡ i
        equal e = ground arith

module _ (k : Kernel) (qs : Queues) (v : IsScheduled k qs) where
  pub not_queued :
      (n : ℕ) → on_runqueue (k.threads n).status ≡ false → (q : ℕ) → has n (qs q) ≡ false
  not_queued n off q = elim (Bool-cases (has n (qs q))) [
    | inl i ↦ absurd (ground (arith, v.exact n, ap (λ p. has n (qs p)) (v.placed q n i)))
    | inr o ↦ o
  ]

  Holds-with_status :
      (k' : Kernel) (qs' : Queues) (n : ℕ) (s : Status)
      → Holds k' qs'
      → Holds (with_status k' n s) qs'
  Holds-with_status k' qs' n s h = record { queues = h.queues; cache = h.cache; apart = h.apart }

  -- The list `ys` in place of queue `p` of thread `n`, and status `s` for `n`, fit together if `ys`
  -- differs from that queue by `n` as the status says.
  fits :
      (k' : Kernel) (n : ℕ) (s : Status) (ys : List ℕ)
      → k'.threads ≡ k.threads
      → Holds k' (update qs (k.threads n).priority ys)
      → ((m : ℕ) → has m ys ≡ (if m == n then on_runqueue s else has m (qs (k.threads n).priority)))
      → IsScheduled (with_status k' n s) (update qs (k.threads n).priority ys)
  fits k' n s ys same h differ = record {
    holds = Holds-with_status k' (update qs p ys) n s h;
    exact = λ m. elim (Bool-cases (m == n)) [
      | inl e ↦ let e' : m ≡ n = ground arith in rw e' (rw same (ground (arith, differ n)))
      | inr e ↦ rw e (rw same (ground (arith, v.exact m, differ m)))
    ];
    placed = λ q m i. elim (Bool-cases (m == n)) [
      | inl e ↦
          let e' : m ≡ n = ground arith in
          rw e' (
            rw same
              (ground (arith, v.placed q m, differ m, ap (λ a. has a (qs q)) e', v.placed q n)))
      | inr e ↦ rw e (rw same (ground (arith, v.placed q m, differ m, v.placed p m)))
    ];
    levels = λ m. elim (Bool-cases (m == n)) [
      | inl e ↦ rw e (rw same (v.levels n))
      | inr e ↦ rw e (rw same (v.levels m))
    ];
  }
    where
      p : ℕ
      p = (k.threads n).priority

  joined :
      (n : ℕ) (s : Status)
      → n ≢ null
      → on_runqueue s ≡ true
      → on_runqueue (k.threads n).status ≡ false
      → let p = (k.threads n).priority in
        IsScheduled (with_status (add_to_runqueue k n) n s) (update qs p (qs p ++ (n ∷ [])))
  joined n s nn on off =
      fits (add_to_runqueue k n) n s (qs (k.threads n).priority ++ (n ∷ [])) (threads-add k n)
        (add_to_runqueue-Holds k qs v.holds n (v.levels n) nn (not_queued n off))
        λ m. ground (arith, has-append m (qs (k.threads n).priority) (n ∷ []))

  left :
      (n : ℕ) (s : Status)
      → on_runqueue s ≡ false
      → IsHead n (qs (k.threads n).priority)
      → let p = (k.threads n).priority in
        IsScheduled (with_status (remove_from_runqueue k n) n s) (update qs p (tail (qs p)))
  left n s stop head =
      fits (remove_from_runqueue k n) n s (tail (qs p)) (threads-remove k n)
        (remove_from_runqueue-Holds k qs v.holds n (tail (qs p)) (v.levels n) split)
        (behind (qs p) head (v.holds.queues p (v.levels n)))
    where
      p : ℕ
      p = (k.threads n).priority

      split : qs p ≡ n ∷ tail (qs p)
      split = cons_of_head (qs p) head

      behind :
          (xs : List ℕ)
          → IsHead n xs
          → IsClist (runqueue k p) xs
          → (m : ℕ) → has m (tail xs) ≡ (if m == n then on_runqueue s else has m xs)
      behind [] head c m = absurd head
      behind (x ∷ xs) head c m = elim (Bool-cases (m == n)) [
        | inl e ↦
            let e' : m ≡ x = ground (arith, head) in
            rw (e, stop) (ground (arith, c.distinct, ap (λ a. has a xs) e'))
        | inr e ↦ rw e (ground (arith, head))
      ]

  kept :
      (n : ℕ) (s : Status)
      → on_runqueue s ≡ on_runqueue (k.threads n).status
      → let p = (k.threads n).priority in IsScheduled (with_status k n s) (update qs p (qs p))
  kept n s same = fits k n s (qs p) refl (subst (Holds k) (sym (update_self qs p)) v.holds) λ m.
      elim (Bool-cases (m == n)) [
        | inl e ↦ let e' : m ≡ n = ground arith in rw (e, same, e') (v.exact n)
        | inr e ↦ rw e
      ]
    where
      p : ℕ
      p = (k.threads n).priority

  -- A change between running and pending leaves the queues as they are.
  pub with_status-IsScheduled :
      (n : ℕ) (s : Status)
      → on_runqueue s ≡ on_runqueue (k.threads n).status
      → IsScheduled (with_status k n s) qs
  with_status-IsScheduled n s same =
      subst (IsScheduled (with_status k n s)) (update_self qs (k.threads n).priority)
        (kept n s same)

  -- `sched_set_status` keeps the scheduler's invariant (the run queues are circular lists without
  -- common threads, hold exactly the running and pending threads by priority, and agree with the
  -- bit cache) and moves the thread: it joins its queue at the end, or leaves it. The thread is
  -- not NULL, and one that leaves has to be the first of its queue.
  pub set_status-IsScheduled :
      (n : ℕ) (s : Status)
      → n ≢ null
      → (on_runqueue (k.threads n).status ≡ true
          → on_runqueue s ≡ false
          → IsHead n (qs (k.threads n).priority))
      → IsScheduled (set_status k n s) (requeue k n s qs)
  unfolding set_status requeue
  set_status-IsScheduled n s nn head = elim (Bool-cases (on_runqueue s)) [
    | inl on ↦ elim (Bool-cases (on_runqueue (k.threads n).status)) [
      | inl queued ↦ rw (on, queued) (kept n s (on ∙ sym queued))
      | inr off ↦ rw (on, off) (joined n s nn on off)
    ]
    | inr stop ↦ elim (Bool-cases (on_runqueue (k.threads n).status)) [
      | inl queued ↦ rw (stop, queued) (left n s stop (head queued stop))
      | inr off ↦ rw (stop, off) (kept n s (stop ∙ sym off))
    ]
  ]
