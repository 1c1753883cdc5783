-- ===== src/Mailbox/Gets.antt =====
-- Getting a message keeps a settled state settled.
use sancus_riot.Common.{
  ℕ, ◌≡◌, refl, sym, ◌∙◌, Bool, true, false, some, arith, ◌==◌, Bool-cases, inl, inr, if◌then◌else◌,
}
use mathlib.Core.Path.{subst}
use sancus_riot.Entry.{Caller}
use sancus_riot.Clist.Chain.{null}
use sancus_riot.Cib.{cib_avail}
use sancus_riot.Kernel.{Kernel, update}
use sancus_riot.Kernel.Monad.{M, pure, ◌>>=◌, ◌>>◌, check}
use sancus_riot.Kernel.Within.{state_of, bind-inv}
use sancus_riot.Mutex.{list_remove_head}
use sancus_riot.Mailbox.{Mbox, Memory, Outcome, result, wait, wake_waiter, take_message, mbox_get}
use sancus_riot.Mailbox.Settled.{CanWait, wait-Settled, wakes-Settled}
use sancus_riot.System.Sound.{IsSettled}
use sancus_riot.System.Ends.{check-inv}

-- The part for an empty mailbox.
waits_for : ℕ → Caller → ℕ → ℕ → Mbox → Memory → M (Outcome × Mbox × Memory)
waits_for fuel caller msg me mbox memory = do
  readers ← wait fuel caller mbox.readers
  pure (
    result 1,
    record mbox { readers = readers },
    record memory { wait_data = update memory.wait_data me msg },
  )

get-empty :
    (fuel : ℕ) (caller : Caller) (msg : ℕ) (blocking : Bool) (mbox : Mbox) (memory : Memory)
    (k : Kernel)
    → cib_avail mbox.cib == 0 ≡ true
    → mbox_get fuel caller msg blocking mbox memory k
      ≡ (if blocking
            then (check k.active_thread >> waits_for fuel caller msg k.active_thread mbox memory)
            else pure (result 0, mbox, memory))
          k
unfolding mbox_get waits_for
get-empty fuel caller msg true mbox memory k e = rw e refl
get-empty fuel caller msg false mbox memory k e = rw e refl

-- The part for a mailbox that holds a message.
get-full :
    (fuel : ℕ) (caller : Caller) (msg : ℕ) (blocking : Bool) (mbox : Mbox) (memory : Memory)
    (k : Kernel)
    → cib_avail mbox.cib == 0 ≡ false
    → mbox_get fuel caller msg blocking mbox memory k
      ≡ (if mbox.writers == null
            then pure (result 1, (take_message msg mbox memory).0, (take_message msg mbox memory).1)
            else (do
              wake_waiter fuel caller mbox.writers
              pure (
                result 1,
                record (take_message msg mbox memory).0 { writers = k.links mbox.writers },
                (take_message msg mbox memory).1,
              )))
          k
unfolding mbox_get list_remove_head take_message
get-full fuel caller msg blocking mbox memory k e = elim (Bool-cases (mbox.writers == null)) [
  | inl n ↦ rw (e, n) refl
  | inr n ↦ rw (e, n) refl
]

pub mbox_get-Settled :
    (fuel : ℕ) (caller : Caller) (msg : ℕ) (blocking : Bool) (mbox : Mbox) (memory : Memory)
    (k k' : Kernel) (r : Outcome × Mbox × Memory)
    → CanWait k mbox.readers
    → IsSettled k
    → mbox_get fuel caller msg blocking mbox memory k ≡ some (r, k')
    → IsSettled k'
unfolding waits_for
mbox_get-Settled fuel caller msg blocking mbox memory k k' r c s h =
    elim (Bool-cases (cib_avail mbox.cib == 0)) [
      | inl e ↦ empty blocking (sym (get-empty fuel caller msg blocking mbox memory k e) ∙ h)
      | inr e ↦
          writer (mbox.writers == null) refl
            (sym (get-full fuel caller msg blocking mbox memory k e) ∙ h)
    ]
  where
    empty :
        (blocking : Bool)
        → (if blocking
              then (check k.active_thread >> waits_for fuel caller msg k.active_thread mbox memory)
              else pure (result 0, mbox, memory))
            k
          ≡ some (r, k')
        → IsSettled k'
    empty false h = subst IsSettled (state_of h) s
    empty true h =
        let (u, k1, e, e') =
          bind-inv (check k.active_thread)
            (λ _. waits_for fuel caller msg k.active_thread mbox memory) k k' r h in
        let same = check-inv k.active_thread k k1 u e in
        let (n, k2, f, f') =
          bind-inv (wait fuel caller mbox.readers)
            (λ readers. pure (
              result 1,
              record mbox { readers = readers },
              record memory { wait_data = update memory.wait_data k.active_thread msg },
            ))
            k1 k' r e' in
        subst IsSettled (state_of f') (
          wait-Settled fuel caller mbox.readers k1 k2 n (subst (λ m. CanWait m mbox.readers) same c)
            (subst IsSettled same s) f)

    writer :
        (t : Bool)
        → mbox.writers == null ≡ t
        → (if t
              then pure
                  (result 1, (take_message msg mbox memory).0, (take_message msg mbox memory).1)
              else (do
                wake_waiter fuel caller mbox.writers
                pure (
                  result 1,
                  record (take_message msg mbox memory).0 { writers = k.links mbox.writers },
                  (take_message msg mbox memory).1,
                )))
            k
          ≡ some (r, k')
        → IsSettled k'
    writer true e h = subst IsSettled (state_of h) s
    writer false e h =
        wakes-Settled fuel caller mbox.writers k k'
          (
            result 1,
            record (take_message msg mbox memory).0 { writers = k.links mbox.writers },
            (take_message msg mbox memory).1,
          )
          r (ground (arith, e)) s h
