-- ===== src/System/Entries.antt =====
-- Every entry of the scheduler keeps a settled state settled.
use sancus_riot.Common.{
  ℕ, ◌≡◌, refl, ap, ◌∙◌, ◌||◌, ◌&&◌, not, ltb, Bool, true, false, some, ◌==◌, Bool-cases, inl, inr,
  if◌then◌else◌,
}
use mathlib.Core.Path.{subst}
use sancus_riot.Kernel.{Kernel, on_runqueue, Thread, update, pid_undef}
use sancus_riot.Kernel.Monad.{M, pure, ◌>>=◌, ◌>>◌, modify, check}
use sancus_riot.Kernel.Within.{Same, quiet, state_of, bind-inv, unchanged}
use sancus_riot.SecureMintimer.{scheduler_timer, lltimer_set}
use sancus_riot.SecureMintimer.Quiet.{lltimer_set-Same}
use sancus_riot.SecureMintimer.TimerList.{Timers}
use sancus_riot.SecureMintimer.Set.{tsleep_internal}
use sancus_riot.Sched.{
  sched_task_exit_internal, sched_switch_internal, switch_internal_allow_yield,
  yield_higher_internal,
}
use sancus_riot.Entry.{
  FunctionType, boot, yield, exit, sched_switch, sleep, other, scheduler_init, store_context,
  is_exit, default_entry, dispatch, exitless_entry, Caller, enter_sched_switch,
}
use sancus_riot.System.Sound.{IsSound, IsSettled, IsSettled-Same}
use sancus_riot.System.Leave.{with_thread-Settled, with_thread-Sound}
use sancus_riot.System.Calls.{sound, requested-Sound, yield_again-Settled, default_entry-Settled}
use sancus_riot.System.Ends.{check-inv, task_exit-Settled}
use sancus_riot.System.Sleeps.{tsleep-Sound}

-- A switch asked for, now or at the end of the interrupt handler.
asks : ℕ → Bool → M (Unit {0})
asks fuel at_once = do
  modify (λ k. record k { switch_request = true })
  if at_once then (do _ ← yield_higher_internal fuel true; pure tt) else pure tt

asked-Settled : (k : Kernel) → IsSettled k → IsSettled (record k { switch_request = true })
asked-Settled k (qs, s, first) = (qs, requested-Sound k qs s, first)

asks-Settled :
    (fuel : ℕ) (at_once : Bool) (k k' : Kernel) (u : Unit {0})
    → IsSettled k
    → asks fuel at_once k ≡ some (u, k')
    → IsSettled k'
unfolding asks
asks-Settled fuel true k k' u s h =
    let k1 = record k { switch_request = true } in
    yield_again-Settled fuel k1 k' u (sound k1 (asked-Settled k s)) h
asks-Settled fuel false k k' u s h = subst IsSettled (state_of h) (asked-Settled k s)

-- A switch in behalf of a thread of priority `other_prio`.
pub switch-Settled :
    (fuel other_prio : ℕ) (allowed : Bool) (k k' : Kernel) (u : Unit {0})
    → IsSettled k
    → switch_internal_allow_yield fuel other_prio allowed k ≡ some (u, k')
    → IsSettled k'
unfolding switch_internal_allow_yield asks
switch-Settled fuel other_prio allowed k k' u s h =
    let (u1, k1, e, e') = bind-inv (check k.active_thread) (λ _. rest) k k' u h in
    either (not (on_runqueue t.status) || ltb other_prio t.priority)
      (ap rest (check-inv k.active_thread k k1 u1 e) ∙ e')
  where
    t : Thread
    t = k.threads k.active_thread

    rest : M (Unit {0})
    rest =
        if not (on_runqueue t.status) || ltb other_prio t.priority
        then asks fuel (not k.irq_is_in && allowed)
        else pure tt

    either :
        (c : Bool)
        → (if c then asks fuel (not k.irq_is_in && allowed) else pure tt) k ≡ some (u, k')
        → IsSettled k'
    either true h = asks-Settled fuel (not k.irq_is_in && allowed) k k' u s h
    either false h = subst IsSettled (state_of h) s

scheduler_init-Same : (k : Kernel) → Same k (scheduler_init k)
unfolding scheduler_init
scheduler_init-Same k = either k.initialization_done
  where
    k1 : Kernel
    k1 = lltimer_set 0xffff_ffff k

    ts : Timers
    ts =
        update k1.timers scheduler_timer
          (record (k1.timers scheduler_timer) { thread = 0; next = 0 })

    either :
        (t : Bool) → Same k (if t then k else record k1 { timers = ts; initialization_done = true })
    either true = unchanged k
    either false = quiet.join k k1 _ (lltimer_set-Same 0xffff_ffff k) (record {
      threads = refl;
      links = refl;
      queues = refl;
      cache = refl;
      active = refl;
      request = refl;
    })

store_context-Sound :
    (function : FunctionType) (sp : ℕ) (protected : Bool) (k : Kernel)
    → IsSound k
    → IsSound (store_context function sp protected k)
unfolding store_context
store_context-Sound function sp protected k (qs, s) =
    elim (Bool-cases (k.active_thread == pid_undef || is_exit function)) [
      | inl e ↦ rw e (qs, s)
      | inr e ↦ rw e (qs, with_thread-Sound k qs k.active_thread _ refl refl refl s)
    ]

store_context-Settled :
    (function : FunctionType) (sp : ℕ) (protected : Bool) (k : Kernel)
    → IsSettled k
    → IsSettled (store_context function sp protected k)
unfolding store_context
store_context-Settled function sp protected k s =
    elim (Bool-cases (k.active_thread == pid_undef || is_exit function)) [
      | inl e ↦ rw e s
      | inr e ↦ rw e (with_thread-Settled k k.active_thread _ refl refl refl s)
    ]

dispatch-Settled :
    (fuel : ℕ) (due : Bool) (function : FunctionType) (k k' : Kernel) (u : Unit {0})
    → IsSettled k
    → dispatch fuel due function k ≡ some (u, k')
    → IsSettled k'
unfolding dispatch sched_switch_internal
dispatch-Settled fuel due boot k k' u s h =
    let k1 = scheduler_init k in
    default_entry-Settled fuel due k1 k' u
      (sound k1 (IsSettled-Same k k1 (scheduler_init-Same k) s)) h
dispatch-Settled fuel due yield k k' u s h = default_entry-Settled fuel due k k' u (sound k s) h
dispatch-Settled fuel due other k k' u s h = default_entry-Settled fuel due k k' u (sound k s) h
dispatch-Settled fuel due exit k k' u s h =
    let (u1, k1, e, e') =
      bind-inv sched_task_exit_internal (λ _. default_entry fuel due) k k' u h in
    default_entry-Settled fuel due k1 k' u (sound k1 (task_exit-Settled k k1 u1 s e)) e'
dispatch-Settled fuel due (sched_switch other_prio) k k' u s h =
    switch-Settled fuel other_prio true k k' u s h
dispatch-Settled fuel due (sleep offset) k k' u s h =
    let (u1, k1, e, e') =
      bind-inv (tsleep_internal offset) (λ _. default_entry fuel due) k k' u h in
    default_entry-Settled fuel due k1 k' u (tsleep-Sound offset k k1 u1 s e) e'

pub exitless_entry-Settled :
    (fuel : ℕ) (due : Bool) (function : FunctionType) (sp : ℕ) (protected : Bool) (k k' : Kernel)
    (u : Unit {0})
    → IsSettled k
    → exitless_entry fuel due function sp protected k ≡ some (u, k')
    → IsSettled k'
unfolding exitless_entry
exitless_entry-Settled fuel due function sp protected k k' u s h =
    dispatch-Settled fuel due function (store_context function sp protected k) k' u
      (store_context-Settled function sp protected k s) h

-- A switch keeps a settled state settled.
pub enter_sched_switch-Settled :
    (fuel : ℕ) (c : Caller) (other_prio : ℕ) (k k' : Kernel) (u : Unit {0})
    → IsSettled k
    → enter_sched_switch fuel c other_prio k ≡ some (u, k')
    → IsSettled k'
unfolding enter_sched_switch
enter_sched_switch-Settled fuel c other_prio k k' u s h =
    exitless_entry-Settled fuel c.due (sched_switch other_prio) c.sp c.protected k k' u s h

-- A yield puts a sound state in order.
pub yield_entry-Settled :
    (fuel : ℕ) (c : Caller) (k k' : Kernel) (u : Unit {0})
    → IsSound k
    → exitless_entry fuel c.due yield c.sp c.protected k ≡ some (u, k')
    → IsSettled k'
unfolding exitless_entry dispatch
yield_entry-Settled fuel c k k' u s h =
    default_entry-Settled fuel c.due (store_context yield c.sp c.protected k) k' u
      (store_context-Sound yield c.sp c.protected k s) h
