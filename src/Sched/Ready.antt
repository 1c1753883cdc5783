-- ===== src/Sched/Ready.antt =====
-- Whether a thread is ready, and what a call of the scheduler that returns has done.
use sancus_riot.Common.{
  ℕ, zero, suc, ◌+◌, ◌<◌, ◌≡◌, refl, sym, ap, ◌∙◌, Bool, none, some, List, [], ◌∷◌, arith, ◌==◌,
  Bool-cases, inl, inr, ◌⊎◌,
}
use mathlib.Core.Path.{subst}
use sancus_riot.Kernel.Within.{state_of}
use sancus_riot.Kernel.{update, Thread, Kernel, Status, running, pending, is_running, pid_undef}
use sancus_riot.Runqueue.{with_status}
use sancus_riot.Runqueue.Cache.{bitarithm_lsb_sm_timer-none}
use sancus_riot.Runqueue.Invariant.{Queues, Holds, empty_bit}
use sancus_riot.Runqueue.Scheduled.{IsScheduled, IsScheduled-frame}
use sancus_riot.Sched.{next_thread, switch_thread, activate, preempt}
use sancus_riot.Sched.Pick.{
  IsNext, next_thread-IsNext, ready, cleared, switch-same, switch-other, active-activate,
  activate-IsScheduled,
}

-- From level `p` on, with `n` levels left, either a thread is next or all queues are empty.
from_level :
    (qs : Queues) (n p : ℕ)
    → p + n ≡ 16
    → ((j : ℕ) → j < p → qs j ≡ [])
    → ((x : ℕ) × IsNext qs x) ⊎ ((j : ℕ) → j < 16 → qs j ≡ [])
from_level qs zero p e above = inr (λ j lt. above j (omega (arith, e, lt)))
from_level qs (suc n) p e above = at_level (qs p) refl λ f.
    from_level qs n (p + 1) (omega (arith, e)) λ j lt. elim (Bool-cases (j == p)) [
      | inl s ↦ let s' : j ≡ p = ground (arith, s) in ap qs s' ∙ f
      | inr s ↦ above j (ground (arith, s, lt))
    ]
  where
    at_level :
        (xs : List ℕ)
        → qs p ≡ xs
        → (qs p ≡ [] → ((x : ℕ) × IsNext qs x) ⊎ ((j : ℕ) → j < 16 → qs j ≡ []))
        → ((x : ℕ) × IsNext qs x) ⊎ ((j : ℕ) → j < 16 → qs j ≡ [])
    at_level (x ∷ rest) f further = inl (
      x,
      record { level = p; rest = rest; in_range = omega (arith, e); first = f; above = above },
    )
    at_level [] f further = further f

pub IsNext-cases : (qs : Queues) → ((x : ℕ) × IsNext qs x) ⊎ ((j : ℕ) → j < 16 → qs j ≡ [])
IsNext-cases qs = from_level qs 16 0 refl λ j lt. absurd (omega (arith, lt))

next_thread-none :
    (k : Kernel) (qs : Queues) → Holds k qs → ((j : ℕ) → j < 16 → qs j ≡ []) → next_thread k ≡ none
unfolding next_thread
next_thread-none k qs h e =
    ground
      (arith, bitarithm_lsb_sm_timer-none k.bitcache λ j lt. h.cache j lt ∙ ap empty_bit (e j lt))

switch_thread-none :
    (k : Kernel) (c : Bool) (k' : Kernel)
    → next_thread (cleared k) ≡ none
    → switch_thread k ≡ some (c, k')
    → ⊥
unfolding switch_thread
switch_thread-none k c k' n run = ground (arith, n, run)

-- A step that keeps the priorities of the threads, and their pids.
pub record Keeps (k k' : Kernel) : Type 0 where
  pub level : (n : ℕ) → (k'.threads n).priority ≡ (k.threads n).priority
  pub name : (n : ℕ) → (k'.threads n).pid ≡ (k.threads n).pid

pub Keeps-trans : (a b c : Kernel) → Keeps a b → Keeps b c → Keeps a c
Keeps-trans a b c f g = record {
  level = λ n. g.level n ∙ f.level n;
  name = λ n. g.name n ∙ f.name n;
}

pub Keeps-threads :
    (k k' : Kernel) (x : ℕ) (t : Thread)
    → k'.threads ≡ update k.threads x t
    → t.priority ≡ (k.threads x).priority
    → t.pid ≡ (k.threads x).pid
    → Keeps k k'
Keeps-threads k k' x t e ep en = record {
  level = λ n. elim (Bool-cases (n == x)) [
    | inl s ↦
        let s' : n ≡ x = ground (arith, s) in
        rw (e, s) (ep ∙ ap (λ m. (k.threads m).priority) (sym s'))
    | inr s ↦ rw (e, s) refl
  ];
  name = λ n. elim (Bool-cases (n == x)) [
    | inl s ↦
        let s' : n ≡ x = ground (arith, s) in rw (e, s) (en ∙ ap (λ m. (k.threads m).pid) (sym s'))
    | inr s ↦ rw (e, s) refl
  ];
}

with_status-Keeps : (k : Kernel) (x : ℕ) (s : Status) → Keeps k (with_status k x s)
with_status-Keeps k x s =
    Keeps-threads k (with_status k x s) x (record (k.threads x) { status = s }) refl refl refl

preempt-Keeps : (k : Kernel) → Keeps k (preempt k)
unfolding preempt
preempt-Keeps k = elim (Bool-cases (k.active_thread == pid_undef)) [
  | inl e ↦ rw e (record { level = λ n. refl; name = λ n. refl })
  | inr e ↦ elim (Bool-cases (is_running (k.threads k.active_thread).status)) [
    | inl on ↦ rw (e, on) (with_status-Keeps k k.active_thread pending)
    | inr off ↦ rw (e, off) (record { level = λ n. refl; name = λ n. refl })
  ]
]

activate-Keeps : (k : Kernel) (x : ℕ) → Keeps k (activate x k)
unfolding activate
activate-Keeps k x =
    let both =
      Keeps-trans k (preempt k) (with_status (preempt k) x running) (preempt-Keeps k)
        (with_status-Keeps (preempt k) x running) in
    record { level = both.level; name = both.name }

pub record Chosen (k : Kernel) (qs : Queues) (k' : Kernel) : Type 0 where
  pub thread : ℕ
  pub next : IsNext qs thread
  pub scheduled : IsScheduled k' qs
  pub active : k'.active_thread ≡ thread
  pub kept : Keeps k k'

pub switch_thread-Chosen :
    (k : Kernel) (qs : Queues) (c : Bool) (k' : Kernel)
    → IsScheduled k qs
    → switch_thread k ≡ some (c, k')
    → Chosen k qs k'
switch_thread-Chosen k qs c k' v run = elim (IsNext-cases qs) [
  | inr none_ready ↦
      absurd (switch_thread-none k c k' (next_thread-none (cleared k) qs v'.holds none_ready) run)
  | inl (x, i) ↦
      let n = next_thread-IsNext (cleared k) qs x v'.holds i in
      elim (Bool-cases (k.active_thread == x)) [
        | inl e ↦
            let same : cleared k ≡ k' = state_of (sym (switch-same k x n e) ∙ run) in
            subst (Chosen k qs) same (record {
              thread = x;
              next = i;
              scheduled = v';
              active = ground arith;
              kept = record { level = λ n. refl; name = λ n. refl };
            })
        | inr e ↦
            let same : activate x (cleared k) ≡ k' = state_of (sym (switch-other k x n e) ∙ run) in
            subst (Chosen k qs) same (record {
              thread = x;
              next = i;
              scheduled = activate-IsScheduled (cleared k) qs x i.level v' (ready k qs x v.holds i);
              active = active-activate x (cleared k);
              kept =
                  let c = activate-Keeps (cleared k) x in record { level = c.level; name = c.name };
            })
      ]
]
  where
    v' : IsScheduled (cleared k) qs
    v' = IsScheduled-frame k (cleared k) qs refl refl refl refl v
