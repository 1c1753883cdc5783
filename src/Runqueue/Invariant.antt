-- ===== src/Runqueue/Invariant.antt =====
-- The run queues as lists of threads, and `sched_set_status` on them.
use sancus_riot.Common.{
  ℕ, ◌<◌, ◌≡◌, refl, ◌≢◌, Bool, true, false, List, [], ◌∷◌, ◌++◌, arith, ◌==◌, if◌then◌else◌, has,
  has-append, ap, sym, bit_and, Bool-cases, inl, inr,
}
use mathlib.Core.Path.{subst}
use sancus_riot.Common.Bits.{bit}
use sancus_riot.Clist.{Clist, clist, rpush, lpop}
use sancus_riot.Clist.Chain.{null}
use sancus_riot.Clist.Queue.{IsClist, rpush-IsClist, lpop-IsClist, next-ne-null}
use sancus_riot.Clist.Frame.{rpush-frame, lpop-frame, IsClist-frame, not-has-null, ne-next}
use sancus_riot.Kernel.{Kernel, update}
use sancus_riot.Runqueue.{
  sm_clist_rpush, sm_clist_lpop, shifted_one, complement32, runqueue, set_runqueue, add_to_runqueue,
  remove_from_runqueue,
}
use sancus_riot.Runqueue.Cache.{bit-set, bit-cleared}

abbrev pub is_empty : List ℕ → Bool
is_empty [] = true
is_empty (x ∷ xs) = false

abbrev pub empty_bit : List ℕ → ℕ
empty_bit xs = if is_empty xs then 0 else 1

-- The threads of each priority that can run, the next one first.
abbrev pub Queues : Type 0
Queues = ℕ → List ℕ

-- The run queues hold the lists `qs`, which have no thread in common, and the bit cache tells which
-- of them are empty.
pub record Holds (k : Kernel) (qs : Queues) : Type 0 where
  pub queues : (p : ℕ) → p < 16 → IsClist (runqueue k p) (qs p)
  pub cache : (p : ℕ) → p < 16 → bit k.bitcache p ≡ empty_bit (qs p)
  pub apart : (p q n : ℕ) → has n (qs p) ≡ true → has n (qs q) ≡ true → p ≡ q

pub snoc_bit : (xs : List ℕ) (n : ℕ) → empty_bit (xs ++ (n ∷ [])) ≡ 1
snoc_bit [] n = refl
snoc_bit (x ∷ xs) n = refl

module _ (k : Kernel) (qs : Queues) (h : Holds k qs) where
  -- Another queue survives a change of the pointers at `next` of queue `p` and at `n`.
  other_queue :
      (p q : ℕ) (d : Clist)
      → p < 16
      → q < 16
      → p ≢ q
      → d.next ≡ k.runqueues q
      → ((m : ℕ) → has m (qs q) ≡ true → m ≢ k.runqueues p → d.links m ≡ k.links m)
      → IsClist d (qs q)
  other_queue p q d hp hq ne e same =
      IsClist-frame (runqueue k q) d (qs q) e
        (λ m i. same m i (ne-next (runqueue k p) (qs p) m (h.queues p hp) (out m i) (nonnull m i)))
        (h.queues q hq)
    where
      out : (m : ℕ) → has m (qs q) ≡ true → has m (qs p) ≡ false
      out m i = elim (Bool-cases (has m (qs p))) [
        | inl j ↦ absurd (ne (h.apart p q m j i))
        | inr o ↦ o
      ]

      nonnull : (m : ℕ) → has m (qs q) ≡ true → m ≢ null
      nonnull m i e =
          ground
            (arith, not-has-null (runqueue k q) (qs q) (h.queues q hq), ap (λ n. has n (qs q)) e)

  -- One queue changed, the others are kept.
  pub set_queue :
      (p : ℕ) (d : Clist) (ys : List ℕ)
      → p < 16
      → IsClist d ys
      → ((q m : ℕ) → has m (qs q) ≡ true → m ≢ k.runqueues p → d.links m ≡ k.links m)
      → (q : ℕ) → q < 16
      → IsClist (runqueue (set_runqueue k p d) q) (update qs p ys q)
  set_queue p d ys hp v same q hq = elim (Bool-cases (q == p)) [
    | inl e ↦ rw e v
    | inr e ↦
        rw e (other_queue p q (clist d.links (k.runqueues q)) hp hq (ground arith) refl (same q))
  ]

  pub add_to_runqueue-Holds :
      (n : ℕ)
      → (k.threads n).priority < 16
      → n ≢ null
      → ((q : ℕ) → has n (qs q) ≡ false)
      → let p = (k.threads n).priority in
        Holds (add_to_runqueue k n) (update qs p (qs p ++ (n ∷ [])))
  unfolding add_to_runqueue sm_clist_rpush
  add_to_runqueue-Holds n hp nn out =
      let p = (k.threads n).priority in
      record {
        queues =
            set_queue p (rpush (runqueue k p) n) (qs p ++ (n ∷ [])) hp
              (rpush-IsClist (runqueue k p) (qs p) n nn (out p) (h.queues p hp))
              (λ q m i ne.
                rpush-frame (runqueue k p) n m
                  (λ e. ground (arith, out q, ap (λ a. has a (qs q)) e)) ne);
        cache = λ q hq. ground (arith, bit-set k.bitcache p q hq, h.cache q hq, snoc_bit (qs p) n);
        apart = λ q r m i j. elim (Bool-cases (m == n)) [
          | inl e ↦
              let same : m ≡ n = ground arith in
              ground (arith, out q, out r, ap (λ a. has a (qs q)) same, ap (λ a. has a (qs r)) same)
          | inr e ↦ ground (arith, h.apart q r m, has-append m (qs p) (n ∷ []))
        ];
      }

  -- What `remove_from_runqueue` does to each variable, where the queue left behind is `rest`.
  removed :
      (n : ℕ) (rest : List ℕ)
      → let p = (k.threads n).priority in
        let d = (lpop (runqueue k p)).1 in
        IsClist d rest
        → ((q : ℕ) → runqueue (remove_from_runqueue k n) q ≡ runqueue (set_runqueue k p d) q)
          × ((remove_from_runqueue k n).bitcache ≡ (
              if is_empty rest
              then bit_and k.bitcache (complement32 (shifted_one p))
              else k.bitcache))
  unfolding remove_from_runqueue sm_clist_lpop
  removed n [] v = (λ q. ground arith, ground arith)
  removed n (x ∷ xs) v =
      let d = (lpop (runqueue k (k.threads n).priority)).1 in
      (λ q. ground (arith, next-ne-null d x xs v), ground (arith, next-ne-null d x xs v))

  -- The thread at the head of its queue goes.
  pub remove_from_runqueue-Holds :
      (n : ℕ) (rest : List ℕ)
      → (k.threads n).priority < 16
      → qs (k.threads n).priority ≡ n ∷ rest
      → Holds (remove_from_runqueue k n) (update qs (k.threads n).priority rest)
  remove_from_runqueue-Holds n rest hp head = record {
    queues = λ q hq.
        subst (λ c. IsClist c (update qs p rest q)) (sym (same.0 q))
          (set_queue p (lpop (runqueue k p)).1 rest hp popped
            (λ q m i ne. lpop-frame (runqueue k p) m ne) q hq);
    cache = λ q hq. ground (arith, same.1, head, bit-cleared k.bitcache p q hp hq, h.cache q hq);
    apart = λ q r m i j. ground (arith, h.apart q r m, head);
  }
    where
      p : ℕ
      p = (k.threads n).priority

      popped : IsClist (lpop (runqueue k p)).1 rest
      popped =
          (lpop-IsClist (runqueue k p) n rest
            (subst (IsClist (runqueue k p)) head (h.queues p hp))).1

      same :
          ((q : ℕ)
            → runqueue (remove_from_runqueue k n) q
              ≡ runqueue (set_runqueue k p (lpop (runqueue k p)).1) q)
          × ((remove_from_runqueue k n).bitcache ≡ (
              if is_empty rest
              then bit_and k.bitcache (complement32 (shifted_one p))
              else k.bitcache))
      same = removed n rest popped
