-- ===== src/System/Creates.antt =====
-- Creating a thread keeps a settled state settled.
use sancus_riot.Common.{
  ℕ, ◌<◌, ◌≡◌, refl, sym, ap, ◌≢◌, ◌∙◌, ◌⊎◌, has, Bool, true, false, some, arith, ◌==◌, ltb,
  Bool-cases, inl, inr, if◌then◌else◌,
}
use mathlib.Core.Path.{subst}
use sancus_riot.Kernel.{
  Kernel, Thread, pending, on_runqueue, periodic_prio_level, pid_last, pid_first, pid_undef,
  max_prio_level_unprotected,
}
use sancus_riot.Kernel.Monad.{pure}
use sancus_riot.Kernel.Within.{state_of, bind-inv}
use sancus_riot.Runqueue.Scheduled.{IsHead}
use sancus_riot.Runqueue.SetStatus.{not_queued}
use sancus_riot.Thread.{
  free_pid, register, CreateResult, created, overflow, invalid, create_internal, create_protected,
  create_unprotected, set_entry,
}
use sancus_riot.Thread.Create.{register-IsScheduled, free_pid-Searched, create-full, create-free}
use sancus_riot.System.Sound.{IsSettled}
use sancus_riot.System.Joins.{has-head, joined-Settled}
use sancus_riot.System.Leave.{with_thread-Settled}

-- A priority for a new thread: in range, and not that of periodic jobs.
pub record IsPriority (priority : ℕ) : Type 0 where
  pub in_range : priority < 16
  pub aperiodic : priority ≢ periodic_prio_level

-- No entry that is unused is on a run queue.
abbrev pub IsIdle : Kernel → Type 0
IsIdle k = (n : ℕ) → (k.threads n).in_use ≡ false → on_runqueue (k.threads n).status ≡ false

module _ (k : Kernel) (pid priority sp : ℕ) (is_sm : Bool) where
  other_thread : (n : ℕ) → n ≢ pid → (register pid priority is_sm sp k).threads n ≡ k.threads n
  unfolding register
  other_thread n ne = rw differ refl
    where
      differ : n == pid ≡ false
      differ = ground arith

  own_thread :
      let t = (register pid priority is_sm sp k).threads pid in
      (t.priority ≡ priority) × (t.pid ≡ pid)
  unfolding register
  own_thread = rw self (refl, refl)
    where
      self : pid == pid ≡ true
      self = ground arith

  active-register : (register pid priority is_sm sp k).active_thread ≡ k.active_thread
  unfolding register
  active-register = refl

  register-Settled :
      IsPriority priority
      → (k.threads pid).in_use ≡ false
      → IsIdle k
      → IsSettled k
      → IsSettled (register pid priority is_sm sp k)
  register-Settled hp free idle (qs, s, first) = (
    qs,
    record {
      scheduled =
          register-IsScheduled k qs s.scheduled pid priority sp is_sm hp.in_range out
            (idle pid free);
      aperiodic = λ n. elim (Bool-cases (n == pid)) [
        | inl e ↦ λ z. hp.aperiodic (
            sym own_thread.0
            ∙ ap (λ m. ((register pid priority is_sm sp k).threads m).priority)
                (sym (ground (arith, e)))
            ∙ z)
        | inr e ↦ λ z.
            s.aperiodic n
              (ap (λ (t : Thread). t.priority) (sym (other_thread n (ground (arith, e)))) ∙ z)
      ];
      named = λ n. elim (Bool-cases (n == pid)) [
        | inl e ↦
            let e' : n ≡ pid = ground (arith, e) in
            inl (
              ap (λ m. ((register pid priority is_sm sp k).threads m).pid) e'
              ∙ own_thread.1
              ∙ sym e')
        | inr e ↦
            subst (λ (t : Thread). (t.pid ≡ n) ⊎ (t.pid ≡ 0))
              (sym (other_thread n (ground (arith, e)))) (s.named n)
      ];
    },
    elim first [
      | inl z ↦ inl (active-register ∙ z)
      | inr h ↦ inr (
          subst (λ a. IsHead a (qs ((register pid priority is_sm sp k).threads a).priority))
            (sym active-register)
            (subst (λ (t : Thread). IsHead k.active_thread (qs t.priority))
              (sym (other_thread k.active_thread (apart h))) h))
    ],
  )
    where
      out : (q : ℕ) → has pid (qs q) ≡ false
      out = not_queued k qs s.scheduled pid (idle pid free)

      apart :
          IsHead k.active_thread (qs (k.threads k.active_thread).priority) → k.active_thread ≢ pid
      apart h e = ground (
        arith,
        has-head k.active_thread _ h,
        ap (λ a. has a (qs (k.threads k.active_thread).priority)) e,
        out (k.threads k.active_thread).priority,
      )

pub create_internal-Settled :
    (priority sp : ℕ) (is_sm : Bool) (k k' : Kernel) (r : CreateResult)
    → IsPriority priority
    → IsIdle k
    → IsSettled k
    → create_internal priority is_sm sp k ≡ some (r, k')
    → IsSettled k'
create_internal-Settled priority sp is_sm k k' r hp idle s h =
    elim (free_pid-Searched pid_last k pid_first) [
      | inl (low, high, free, all) ↦
          let pid = free_pid pid_last k pid_first in
          let nn : pid ≢ pid_undef = λ e. omega (arith, low, e) in
          subst IsSettled (state_of (sym (create-free k pid priority sp is_sm refl nn) ∙ h)) (
            joined-Settled (register pid priority is_sm sp k) pid pending nn refl
              (register-Settled k pid priority sp is_sm hp free idle s))
      | inr (none_left, all) ↦
          subst IsSettled (state_of (sym (create-full k priority sp is_sm none_left) ∙ h)) s
    ]

set_entry-Settled :
    (r r' : CreateResult) (entry idx : ℕ) (k k' : Kernel)
    → IsSettled k
    → set_entry r entry idx k ≡ some (r', k')
    → IsSettled k'
unfolding set_entry
set_entry-Settled (created pid) r' entry idx k k' s h = subst IsSettled (state_of h) (
    with_thread-Settled k pid (record (k.threads pid) { sm_idx = idx; sm_entry = entry }) refl refl
      refl s)
set_entry-Settled overflow r' entry idx k k' s h = absurd (ground (arith, h))
set_entry-Settled invalid r' entry idx k k' s h = absurd (ground (arith, h))

pub create_protected-Settled :
    (priority sp entry idx : ℕ) (k k' : Kernel) (r : CreateResult)
    → IsPriority priority
    → IsIdle k
    → IsSettled k
    → create_protected priority sp entry idx k ≡ some (r, k')
    → IsSettled k'
unfolding create_protected
create_protected-Settled priority sp entry idx k k' r hp idle s h =
    let (r1, k1, e, e') =
      bind-inv (create_internal priority true sp) (λ r. set_entry r entry idx) k k' r h in
    set_entry-Settled r1 r entry idx k1 k'
      (create_internal-Settled priority sp true k k1 r1 hp idle s e) e'

pub create_unprotected-Settled :
    (priority sp : ℕ) (k k' : Kernel) (r : CreateResult)
    → IsPriority priority
    → IsIdle k
    → IsSettled k
    → create_unprotected priority sp k ≡ some (r, k')
    → IsSettled k'
unfolding create_unprotected
create_unprotected-Settled priority sp k k' r hp idle s h =
    either (ltb priority max_prio_level_unprotected) h
  where
    either :
        (t : Bool)
        → (if t then pure invalid else create_internal priority false sp) k ≡ some (r, k')
        → IsSettled k'
    either true h = subst IsSettled (state_of h) s
    either false h = create_internal-Settled priority sp false k k' r hp idle s h
