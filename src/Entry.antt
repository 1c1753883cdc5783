-- ===== src/Entry.antt =====
-- cpu/msp430-sancus/cpu.c: `exitless_entry`, the entry of the protected scheduler, and
-- cpu/msp430-sancus/periph/timer.c: its interrupt handler; core/sched.c: `scheduler_init`. The
-- registers and the stack that these save and restore are left out, and so are the control
-- registers of the timer: whether it has an interrupt pending, and what Sancus says of the caller,
-- are arguments. `fuel` is that of the loops in the handler and the scheduler.
pub mod Yield
pub mod Exit
mod Tests
use sancus_riot.Common.{
  ℕ, Bool, true, false, not, ◌||◌, Option, none, some, ◌==◌, if◌then◌else◌, List, [], ◌∷◌,
}
use sancus_riot.Kernel.{Kernel, Thread, Timer, update, pid_undef}
use sancus_riot.Kernel.Monad.{M, pure, ◌>>=◌, ◌>>◌, get, modify, check}
use sancus_riot.SecureMintimer.{scheduler_timer, lltimer_set}
use sancus_riot.SecureMintimer.Set.{tsleep_internal}
use sancus_riot.SecureMintimer.Callback.{timer_callback}
use sancus_riot.Sched.{
  with_thread, sched_run_internal, sched_switch_internal, sched_task_exit_internal,
  yield_higher_internal,
}

-- EXITLESS_FUNCTION_TYPE, with its arguments; `other` is any other number.
pub data FunctionType : Type 0 where
  boot : FunctionType
  yield : FunctionType
  exit : FunctionType
  sched_switch : ℕ → FunctionType
  sleep : ℕ → FunctionType
  other : FunctionType

abbrev pub is_exit : FunctionType → Bool
is_exit exit = true
is_exit _ = false

-- `scheduler_init`, less the set-up of the timer's registers.
unfoldable pub scheduler_init : Kernel → Kernel
unfolding lltimer_set
scheduler_init k =
    if k.initialization_done
    then k
    else (let k' = lltimer_set 0xffff_ffff k in
        record k' {
          timers =
              update k'.timers scheduler_timer
                (record (k'.timers scheduler_timer) { thread = 0; next = 0 });
          initialization_done = true;
        })

-- The first half of `exitless_entry`: the stack pointer of the active thread is kept, and how it is
-- to be resumed.
unfoldable pub store_context : FunctionType → ℕ → Bool → Kernel → Kernel
store_context function sp protected k =
    let t = k.threads k.active_thread in
    if k.active_thread == pid_undef || is_exit function
    then k
    else with_thread k k.active_thread
        (record t { sp = sp; is_sm = protected; sm_idx = if protected then 0xffff else t.sm_idx })

-- `__MACRO_EXIT_ISR`
unfoldable pub exit_isr : ℕ → M (Unit {0})
exit_isr fuel = do
  k ← get
  if k.switch_request then (do _ ← sched_run_internal fuel; pure tt) else pure tt
  modify (λ k. record k { irq_is_in = false })

-- What an interrupt stops: code outside or inside of a protected module, or the scheduler itself
-- just as it resumed a thread.
pub data Interrupted : Type 0 where
  unprotected_code : Interrupted
  protected_code : Interrupted
  resuming : Interrupted

-- How a call comes to an entry: the timer interrupts before it, with the stack pointers that they
-- find, whether a timer interrupt is pending at it, the stack pointer that is passed, and whether the
-- caller is in a protected module.
pub record Caller : Type 0 where
  pub interrupts : List (Interrupted × ℕ)
  pub due : Bool
  pub sp : ℕ
  pub protected : Bool

-- From the label `.default` on.
unfoldable pub default_entry : ℕ → Bool → M (Unit {0})
default_entry fuel due =
    if due
    then (do
      modify (λ k. record k { irq_is_in = true })
      timer_callback fuel
      modify (λ k. record k { switch_request = true })
      exit_isr fuel)
    else (do _ ← yield_higher_internal fuel true; pure tt)

-- The second half: the choice of the function.
unfoldable pub dispatch : ℕ → Bool → FunctionType → M (Unit {0})
dispatch fuel due boot = modify scheduler_init >> default_entry fuel due
dispatch fuel due yield = default_entry fuel due
dispatch fuel due exit = sched_task_exit_internal >> default_entry fuel due
dispatch fuel due (sched_switch other_prio) = sched_switch_internal fuel other_prio
dispatch fuel due (sleep offset) = tsleep_internal offset >> default_entry fuel due
dispatch fuel due other = default_entry fuel due

unfoldable pub exitless_entry : ℕ → Bool → FunctionType → ℕ → Bool → M (Unit {0})
exitless_entry fuel due function sp protected =
    modify (store_context function sp protected) >> dispatch fuel due function

-- `sched_switch` of core/sched.c: the entry with EXITLESS_FUNCTION_TYPE_SCHED_SWITCH. No interrupt
-- comes before it here.
unfoldable pub enter_sched_switch : ℕ → Caller → ℕ → M (Unit {0})
enter_sched_switch fuel c other_prio =
    exitless_entry fuel c.due (sched_switch other_prio) c.sp c.protected

-- The entry of the active thread after `___MACRO_SAVE_CONTEXT`; `sp` is the stack pointer that is
-- stored.
unfoldable pub saved : Interrupted → ℕ → Thread → Thread
saved unprotected_code sp t = record t { is_sm = false; sp = sp }
saved protected_code sp t = record t { is_sm = true; sp = sp }
saved resuming sp t = if t.is_sm then t else record t { sp = sp }

unfoldable pub save_context : Interrupted → ℕ → M (Unit {0})
save_context interrupted sp = do
  k ← get
  check k.active_thread
  modify (λ k. with_thread k k.active_thread (saved interrupted sp (k.threads k.active_thread)))

-- The end of `__MACRO_ENTER_ISR`, and the code from the label `after_context_save` on; the
-- result tells whether a thread was chosen anew.
unfoldable pub handle_timer : ℕ → M Bool
handle_timer fuel = do
  modify (λ k. record k { irq_is_in = true })
  timer_callback fuel
  k ← get
  exit_isr fuel
  pure k.switch_request

-- `__sm_sancus_sm_timer_isr_func`, at an interrupt or a violation.
unfoldable pub isr_func : ℕ → Bool → Bool → Interrupted → ℕ → M (Unit {0})
isr_func fuel violation overflow interrupted sp =
    if violation
    then (do
      sched_task_exit_internal
      _ ← if overflow then handle_timer fuel else yield_higher_internal fuel true
      pure tt)
    else (do save_context interrupted sp; _ ← handle_timer fuel; pure tt)

-- The entry of a yield, after timer interrupts. Where one of them leads to another choice of a thread,
-- the yield is a call of its own, when the thread runs again.
unfoldable pub yield_after : ℕ → Caller → List (Interrupted × ℕ) → M (Unit {0})
yield_after fuel c [] = exitless_entry fuel c.due yield c.sp c.protected
yield_after fuel c ((interrupted, sp) ∷ rest) = do
  save_context interrupted sp
  chosen ← handle_timer fuel
  if chosen then pure tt else yield_after fuel c rest

unfoldable pub thread_yield_higher : ℕ → Caller → M (Unit {0})
thread_yield_higher fuel c = yield_after fuel c c.interrupts
