-- ===== src/System/Ends.antt =====
-- The end of a thread keeps a settled state settled: no thread is active then.
use sancus_riot.Common.{
  ℕ, ◌≡◌, refl, sym, ap, ◌∙◌, Bool, true, false, some, arith, ◌==◌, inl, if◌then◌else◌,
}
use mathlib.Core.Path.{subst}
use sancus_riot.Kernel.{Kernel, Status, stopped, pid_undef}
use sancus_riot.Kernel.Monad.{M, pure, fault, ◌>>◌, modify, check}
use sancus_riot.Kernel.Within.{state_of, bind-inv}
use sancus_riot.Runqueue.{set_status, sched_set_status}
use sancus_riot.Runqueue.Scheduled.{IsScheduled-frame}
use sancus_riot.Sched.{with_thread, dec16, sched_task_exit_internal}
use sancus_riot.System.Sound.{IsSound, IsSettled, IsSettled-Same}
use sancus_riot.System.Leave.{left-Sound, with_thread-Settled}

-- A state in which no thread is active is settled if it is sound.
vacant : (k : Kernel) → IsSound k → IsSettled (record k { active_thread = pid_undef })
vacant k (qs, s) = (
  qs,
  record {
    scheduled =
        IsScheduled-frame k (record k { active_thread = pid_undef }) qs refl refl refl refl
          s.scheduled;
    aperiodic = s.aperiodic;
    named = s.named;
  },
  inl refl,
)

pub check-inv : (p : ℕ) (k k' : Kernel) (u : Unit {0}) → check p k ≡ some (u, k') → k ≡ k'
check-inv p k k' u h = passed (p == 0) h
  where
    passed : (t : Bool) → (if t then fault else pure tt) k ≡ some (u, k') → k ≡ k'
    passed true h = absurd (ground (arith, h))
    passed false h = state_of h

pub sched_set_status-inv :
    (n : ℕ) (st : Status) (k k' : Kernel) (u : Unit {0})
    → sched_set_status n st k ≡ some (u, k')
    → set_status k n st ≡ k'
unfolding sched_set_status
sched_set_status-inv n st k k' u h =
    let (u1, k1, e, e') = bind-inv (check n) (λ _. modify (λ k. set_status k n st)) k k' u h in
    ap (λ k. set_status k n st) (check-inv n k k1 u1 e) ∙ state_of e'

-- The entry of the thread that ends.
unused : Kernel → Kernel
unused k =
    record (with_thread k k.active_pid (record (k.threads k.active_pid) { in_use = false })) {
      num_threads = dec16 k.num_threads;
    }

unused-Settled : (k : Kernel) → IsSettled k → IsSettled (unused k)
unfolding unused
unused-Settled k s =
    let k1 = with_thread k k.active_pid (record (k.threads k.active_pid) { in_use = false }) in
    IsSettled-Same k1 (record k1 { num_threads = dec16 k.num_threads })
      (record {
        threads = refl;
        links = refl;
        queues = refl;
        cache = refl;
        active = refl;
        request = refl;
      })
      (with_thread-Settled k k.active_pid (record (k.threads k.active_pid) { in_use = false }) refl
        refl refl s)

active-unused : (k : Kernel) → (unused k).active_thread ≡ k.active_thread
unfolding unused
active-unused k = refl

-- What the end of the thread `n` does after that.
ends : ℕ → M (Unit {0})
ends n = do sched_set_status n stopped; modify (λ k. record k { active_thread = pid_undef })

ends-Settled :
    (n : ℕ) (k k' : Kernel) (u : Unit {0})
    → n ≡ k.active_thread
    → IsSettled k
    → ends n k ≡ some (u, k')
    → IsSettled k'
unfolding ends
ends-Settled n k k' u en (qs, s, first) h =
    let (u1, k1, e, e') =
      bind-inv (sched_set_status n stopped)
        (λ _. modify (λ k. record k { active_thread = pid_undef })) k k' u h in
    subst IsSettled (state_of e') (
      vacant k1 (
        subst IsSound
          (ap (λ m. set_status k m stopped) (sym en) ∙ sched_set_status-inv n stopped k k1 u1 e)
          (left-Sound k qs k.active_thread stopped refl first s)))

pub task_exit-Settled :
    (k k' : Kernel) (u : Unit {0})
    → IsSettled k
    → sched_task_exit_internal k ≡ some (u, k')
    → IsSettled k'
unfolding sched_task_exit_internal ends unused
task_exit-Settled k k' u s h = either (k.active_pid == pid_undef) h
  where
    either :
        (t : Bool)
        → (if t then pure tt else modify unused >> ends k.active_thread) k ≡ some (u, k')
        → IsSettled k'
    either true h = subst IsSettled (state_of h) s
    either false h =
        ends-Settled k.active_thread (unused k) k' u (sym (active-unused k)) (unused-Settled k s) h
