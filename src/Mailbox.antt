-- ===== src/Mailbox.antt =====
-- core/mbox.c and core/include/mbox.h: mailboxes, queues of messages between threads. `mbox_put` and
-- `mbox_get` are `_mbox_put` and `_mbox_get`; interrupts are disabled up to the yield of a thread
-- that waits, before which they may come again. A mailbox
-- is passed in and returned beside the variables of the scheduler, and so is the memory that holds
-- messages. What a call of the scheduler runs is run in place; `sched_switch`
-- and `thread_yield` go through its entry.
pub mod Fifo
pub mod Handover
pub mod Overrun
pub mod Joins
pub mod Settled
pub mod Gets
mod Tests
use sancus_riot.Common.{ℕ, ◌+◌, Bool, true, false, Option, none, some, ◌==◌, if◌then◌else◌}
use sancus_riot.Clist.Chain.{null}
use sancus_riot.Cib.{Cib, cib_init, cib_avail, cib_full, cib_get_unsafe, cib_put_unsafe}
use sancus_riot.Kernel.{Kernel, mbox_blocked, pending, update}
use sancus_riot.Kernel.Monad.{M, pure, ◌>>=◌, ◌>>◌, get, check}
use sancus_riot.Runqueue.{sched_set_status}
use sancus_riot.Entry.{Caller, thread_yield_higher, enter_sched_switch}
use sancus_riot.Mutex.{thread_add_to_list, list_remove_head}

-- `msg_t`; the content is a pointer or a value.
pub record Msg : Type 0 where
  pub sender_pid : ℕ
  pub type : ℕ
  pub content : ℕ

-- `mbox_t`; `readers` and `writers` are the pointers `next` of the two lists.
pub record Mbox : Type 0 where
  pub readers : ℕ
  pub writers : ℕ
  pub cib : Cib
  pub msg_array : ℕ → Msg

-- The messages in memory by their addresses, and the field `wait_data` of each thread.
pub record Memory : Type 0 where
  pub messages : ℕ → Msg
  pub wait_data : ℕ → ℕ

-- `mbox_init`
abbrev pub mbox_init : (ℕ → Msg) → ℕ → Mbox
mbox_init queue queue_size = record {
  readers = null;
  writers = null;
  cib = cib_init queue_size;
  msg_array = queue;
}

-- What a call returns. A writer that waits goes on by `put_resumed` when it runs again.
pub data Outcome : Type 0 where
  result : ℕ → Outcome
  waits : Outcome

unfoldable pub wake_waiter : ℕ → Caller → ℕ → M (Unit {0})
wake_waiter fuel caller thread = do
  sched_set_status thread pending
  k ← get
  enter_sched_switch fuel caller (k.threads thread).priority

-- `_wait`, up to the point where the thread runs again: the new `wait_list->next`.
unfoldable pub wait : ℕ → Caller → ℕ → M ℕ
wait fuel caller wait_list = do
  k ← get
  sched_set_status k.active_thread mbox_blocked
  next ← thread_add_to_list wait_list k.active_thread
  thread_yield_higher fuel caller
  pure next

-- The end of `_mbox_put`: the message goes into the array.
unfoldable pub queue_message : ℕ → ℕ → Mbox → Memory → Mbox × Memory
queue_message sender msg mbox memory =
    let m = record (memory.messages msg) { sender_pid = sender } in
    let (index, cib) = cib_put_unsafe mbox.cib in
    (
      record mbox { cib = cib; msg_array = update mbox.msg_array index m },
      record memory { messages = update memory.messages msg m },
    )

-- The rest of a `_mbox_put` that had to wait.
unfoldable pub put_resumed : ℕ → Mbox → Memory → M (Outcome × Mbox × Memory)
unfolding queue_message
put_resumed msg mbox memory = do
  k ← get
  let (mbox, memory) = queue_message k.active_pid msg mbox memory
  pure (result 1, mbox, memory)

-- `*(msg_t *)thread->wait_data = *msg`
unfoldable pub deliver : ℕ → ℕ → Memory → Memory
deliver msg thread memory = record memory {
  messages = update memory.messages (memory.wait_data thread) (memory.messages msg);
}

unfoldable pub mbox_put : ℕ → Caller → ℕ → Bool → Mbox → Memory → M (Outcome × Mbox × Memory)
mbox_put fuel caller msg blocking mbox memory = do
  k ← get
  let (next, readers) = list_remove_head mbox.readers k
  if next == null
      then (if cib_full mbox.cib
          then (if blocking
              then (do
                writers ← wait fuel caller mbox.writers
                pure (waits, record mbox { writers = writers }, memory))
              else pure (result 0, mbox, memory))
          else put_resumed msg mbox memory)
      else (do
        check (memory.wait_data next)
        wake_waiter fuel caller next
        pure (result 1, record mbox { readers = readers }, deliver msg next memory))

-- The message that `_mbox_get` takes out of the array.
unfoldable pub take_message : ℕ → Mbox → Memory → Mbox × Memory
take_message msg mbox memory =
    let (index, cib) = cib_get_unsafe mbox.cib in
    (
      record mbox { cib = cib },
      record memory { messages = update memory.messages msg (mbox.msg_array index) },
    )

unfoldable pub mbox_get : ℕ → Caller → ℕ → Bool → Mbox → Memory → M (Outcome × Mbox × Memory)
mbox_get fuel caller msg blocking mbox memory =
    if cib_avail mbox.cib == 0
    then (if blocking
        then (do
          k ← get
          check k.active_thread
          readers ← wait fuel caller mbox.readers
          pure (
            result 1,
            record mbox { readers = readers },
            record memory { wait_data = update memory.wait_data k.active_thread msg },
          ))
        else pure (result 0, mbox, memory))
    else (do
      k ← get
      let (mbox, memory) = take_message msg mbox memory
      let (next, writers) = list_remove_head mbox.writers k
      if next == null then pure (result 1, mbox, memory) else (do
        wake_waiter fuel caller next
        pure (result 1, record mbox { writers = writers }, memory)))

-- The calls of the header that do not block; the others are `mbox_put` and `mbox_get` with `true`.
abbrev pub mbox_try_put : ℕ → Caller → ℕ → Mbox → Memory → M (Outcome × Mbox × Memory)
mbox_try_put fuel caller msg = mbox_put fuel caller msg false

abbrev pub mbox_try_get : ℕ → Caller → ℕ → Mbox → Memory → M (Outcome × Mbox × Memory)
mbox_try_get fuel caller msg = mbox_get fuel caller msg false
