-- ===== src/System/Releases.antt =====
-- Releasing a mutex keeps a settled state settled.
use sancus_riot.Common.{
  ℕ, ◌≡◌, refl, sym, ◌≢◌, ◌∙◌, Bool, true, false, some, arith, ◌==◌, Bool-cases, inl, inr,
  if◌then◌else◌,
}
use mathlib.Core.Path.{subst}
use sancus_riot.Clist.Chain.{null}
use sancus_riot.Kernel.{Kernel, sleeping, pending}
use sancus_riot.Kernel.Monad.{M, pure, ◌>>=◌, ◌>>◌, get}
use sancus_riot.Kernel.Within.{state_of, bind-inv}
use sancus_riot.Runqueue.{sched_set_status}
use sancus_riot.Sched.{switch_internal_allow_yield}
use sancus_riot.Entry.{Caller, thread_yield_higher}
use sancus_riot.Mutex.{mutex_locked, wake_first, mutex_unlock, mutex_unlock_and_sleep}
use sancus_riot.Mutex.Unlock.{wake_first-eq}
use sancus_riot.System.Sound.{IsSettled}
use sancus_riot.System.Entries.{switch-Settled}
use sancus_riot.System.Yields.{thread_yield_higher-Settled}
use sancus_riot.System.Joins.{joined-Settled}
use sancus_riot.System.Waits.{own_status-Sound}

-- Waking the first thread that waits.
wake_first-Settled :
    (queue : ℕ) (k k' : Kernel) (r : ℕ × ℕ)
    → queue ≢ null
    → IsSettled k
    → wake_first queue k ≡ some (r, k')
    → IsSettled k'
wake_first-Settled queue k k' r nn s h =
    subst IsSettled (state_of (sym (wake_first-eq k queue nn) ∙ h))
      (joined-Settled k queue pending nn refl s)

woken_or_not :
    {A : Type 0} (t : Bool) (queue : ℕ) (a : A) (rest : ℕ × ℕ → M A) (k k' : Kernel) (b : A)
    → queue ≢ null
    → ((r : ℕ × ℕ) (k1 : Kernel) → IsSettled k1 → rest r k1 ≡ some (b, k') → IsSettled k')
    → IsSettled k
    → (if t then pure a else wake_first queue >>= rest) k ≡ some (b, k')
    → IsSettled k'
woken_or_not true queue a rest k k' b nn w s h = subst IsSettled (state_of h) s
woken_or_not false queue a rest k k' b nn w s h =
    let (r, k1, e, e') = bind-inv (wake_first queue) rest k k' b h in
    w r k1 (wake_first-Settled queue k k1 r nn s e) e'

-- What an unlocking does once the first thread is woken.
released : ℕ → ℕ × ℕ → M ℕ
released fuel (process, next) = do
  k ← get
  switch_internal_allow_yield fuel (k.threads process).priority false
  pure next

released-Settled :
    (fuel : ℕ) (r : ℕ × ℕ) (k k' : Kernel) (next : ℕ)
    → IsSettled k
    → released fuel r k ≡ some (next, k')
    → IsSettled k'
unfolding released
released-Settled fuel (process, n) k k' next s h =
    let (u, k1, e, e') =
      bind-inv (switch_internal_allow_yield fuel (k.threads process).priority false) (λ _. pure n) k
        k' next h in
    subst IsSettled (state_of e')
      (switch-Settled fuel (k.threads process).priority false k k1 u s e)

mutex_unlock-null :
    (fuel queue : ℕ) (k : Kernel)
    → queue == null ≡ true
    → mutex_unlock fuel queue k ≡ some (null, k)
unfolding mutex_unlock
mutex_unlock-null fuel queue k e = rw e refl

mutex_unlock-held :
    (fuel queue : ℕ) (k : Kernel)
    → queue == null ≡ false
    → mutex_unlock fuel queue k
      ≡ (if queue == mutex_locked then pure null else wake_first queue >>= released fuel) k
unfolding mutex_unlock released
mutex_unlock-held fuel queue k e = rw e refl

pub mutex_unlock-Settled :
    (fuel queue : ℕ) (k k' : Kernel) (next : ℕ)
    → IsSettled k
    → mutex_unlock fuel queue k ≡ some (next, k')
    → IsSettled k'
mutex_unlock-Settled fuel queue k k' next s h = elim (Bool-cases (queue == null)) [
  | inl e ↦ subst IsSettled (state_of (sym (mutex_unlock-null fuel queue k e) ∙ h)) s
  | inr e ↦
      woken_or_not (queue == mutex_locked) queue null (released fuel) k k' next (ground (arith, e))
        (λ r k1 s1 h1. released-Settled fuel r k1 k' next s1 h1) s
        (sym (mutex_unlock-held fuel queue k e) ∙ h)
]

-- The first half of `mutex_unlock_and_sleep`.
hands_over : ℕ → M ℕ
hands_over queue =
    if queue == null
    then pure null
    else if queue == mutex_locked
    then pure null
    else do (_, next) ← wake_first queue; pure next

hands_over-Settled :
    (queue : ℕ) (k k' : Kernel) (next : ℕ)
    → IsSettled k
    → hands_over queue k ≡ some (next, k')
    → IsSettled k'
unfolding hands_over
hands_over-Settled queue k k' next s h = from (queue == null) refl h
  where
    from :
        (t : Bool)
        → queue == null ≡ t
        → (if t
              then pure null
              else if queue == mutex_locked
              then pure null
              else do (_, next) ← wake_first queue; pure next)
            k
          ≡ some (next, k')
        → IsSettled k'
    from true e h = subst IsSettled (state_of h) s
    from false e h =
        woken_or_not (queue == mutex_locked) queue null (λ (_, n). pure n) k k' next
          (ground (arith, e)) (λ r k1 s1 h1. subst IsSettled (state_of h1) s1) s h

-- The second half, for the active thread.
then_sleeps : ℕ → Caller → ℕ → M ℕ
then_sleeps fuel caller next = do
  k ← get
  sched_set_status k.active_thread sleeping
  thread_yield_higher fuel caller
  pure next

then_sleeps-Settled :
    (fuel : ℕ) (caller : Caller) (n : ℕ) (k k' : Kernel) (next : ℕ)
    → IsSettled k
    → then_sleeps fuel caller n k ≡ some (next, k')
    → IsSettled k'
unfolding then_sleeps
then_sleeps-Settled fuel caller n k k' next s h =
    let (u, k1, e, e') =
      bind-inv (sched_set_status k.active_thread sleeping)
        (λ _. do thread_yield_higher fuel caller; pure n) k k' next h in
    let (c, k2, f, f') = bind-inv (thread_yield_higher fuel caller) (λ _. pure n) k1 k' next e' in
    subst IsSettled (state_of f') (
      thread_yield_higher-Settled fuel caller k1 k2 c (own_status-Sound sleeping k k1 u refl s e) f)

pub unlock_and_sleep-Settled :
    (fuel : ℕ) (caller : Caller) (queue : ℕ) (k k' : Kernel) (next : ℕ)
    → IsSettled k
    → mutex_unlock_and_sleep fuel caller queue k ≡ some (next, k')
    → IsSettled k'
unfolding mutex_unlock_and_sleep hands_over then_sleeps
unlock_and_sleep-Settled fuel caller queue k k' next s h =
    let (n, k1, e, e') = bind-inv (hands_over queue) (then_sleeps fuel caller) k k' next h in
    then_sleeps-Settled fuel caller n k1 k' next (hands_over-Settled queue k k1 n s e) e'
