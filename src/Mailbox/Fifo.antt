-- ===== src/Mailbox/Fifo.antt =====
-- Where nobody has to wait, a mailbox is a queue of messages.
use sancus_riot.Common.{
  ℕ, suc, ◌^◌, ◌<◌, ◌≡◌, ◌≢◌, refl, sym, ap, ◌∙◌, Bool, true, false, some, List, [], ◌∷◌, ◌++◌,
  arith, ◌==◌, ltb, not,
}
use sancus_riot.Entry.{Caller}
use sancus_riot.Clist.Chain.{null}
use sancus_riot.Kernel.{Kernel}
use sancus_riot.Cib.{cib_full, cib_avail}
use sancus_riot.Cib.Queue.{IsCib, contents, cib_put-Queued, avail-eq, below}
use sancus_riot.Cib.Take.{cib_get-Got}
use sancus_riot.Mutex.{list_remove_head}
use sancus_riot.Mailbox.{
  Msg, Mbox, Memory, result, put_resumed, queue_message, take_message, mbox_put, mbox_get,
}

-- The mailbox has room for 2^k messages, and holds `ms`, `n` of them, the oldest first.
pub record Holds (b : Mbox) (k n : ℕ) (ms : List Msg) : Type 0 where
  pub counts : IsCib b.cib k n
  pub listed : contents b.msg_array (2 ^ k) b.cib.read_count n ≡ ms

-- The message at an address, as a thread sends it.
abbrev pub sent : Kernel → ℕ → Memory → Msg
sent k msg memory = record (memory.messages msg) { sender_pid = k.active_pid }

-- What putting a message into the array leaves.
pub record Put (b : Mbox) (k n : ℕ) (ms : List Msg) (m : Msg) (after : Mbox) : Type 0 where
  pub holds : Holds after k (suc n) (ms ++ (m ∷ []))
  pub readers : after.readers ≡ b.readers
  pub writers : after.writers ≡ b.writers

module _ (b : Mbox) (k n : ℕ) (ms : List Msg) (h : Holds b k n ms) where
  full-eq : cib_full b.cib ≡ not (ltb n (2 ^ k))
  unfolding cib_full
  full-eq = ap not (below b.cib k n h.counts)

  empty-eq : cib_avail b.cib == 0 ≡ (n == 0)
  empty-eq = ap (λ a. a == 0) (avail-eq b.cib k n h.counts)

  queue_message-Put :
      (sender msg : ℕ) (memory : Memory)
      → n < 2 ^ k
      → Put b k n ms
          (record (memory.messages msg) { sender_pid = sender })
          (queue_message sender msg b memory).0
  unfolding queue_message
  queue_message-Put sender msg memory room =
      let m : Msg = record (memory.messages msg) { sender_pid = sender } in
      let q = cib_put-Queued b.cib k n h.counts room b.msg_array m in
      rw q.unsafe record {
        holds = record {
          counts = q.valid;
          listed = q.appended ∙ ap (λ xs. xs ++ (m ∷ [])) h.listed;
        };
        readers = refl;
        writers = refl;
      }

-- What a put leaves when no reader waits and there is room.
pub record PutDone (fuel : ℕ) (caller : Caller) (msg : ℕ) (blocking : Bool) (b : Mbox)
    (memory : Memory) (kern : Kernel) (k n : ℕ) (ms : List Msg) : Type 0 where
  pub after : Mbox
  pub memory_after : Memory
  pub returns :
      mbox_put fuel caller msg blocking b memory kern ≡ some ((result 1, after, memory_after), kern)
  pub put : Put b k n ms (sent kern msg memory) after
  pub stamped : memory_after.messages msg ≡ sent kern msg memory
  pub others : (a : ℕ) → a ≢ msg → memory_after.messages a ≡ memory.messages a
  pub wait_data : memory_after.wait_data ≡ memory.wait_data

-- What a get leaves when there is a message and no writer waits.
pub record GetDone (fuel : ℕ) (caller : Caller) (msg : ℕ) (blocking : Bool) (b : Mbox)
    (memory : Memory) (kern : Kernel) (k n : ℕ) (m : Msg) (ms : List Msg) : Type 0 where
  pub after : Mbox
  pub memory_after : Memory
  pub returns :
      mbox_get fuel caller msg blocking b memory kern ≡ some ((result 1, after, memory_after), kern)
  pub received : memory_after.messages msg ≡ m
  pub array : after.msg_array ≡ b.msg_array
  pub holds : Holds after k n ms
  pub readers : after.readers ≡ b.readers
  pub writers : after.writers ≡ b.writers
  pub others : (a : ℕ) → a ≢ msg → memory_after.messages a ≡ memory.messages a
  pub wait_data : memory_after.wait_data ≡ memory.wait_data

put-queues :
    (fuel : ℕ) (caller : Caller) (msg : ℕ) (blocking : Bool) (b : Mbox) (memory : Memory)
    (kern : Kernel)
    → b.readers == null ≡ true
    → cib_full b.cib ≡ false
    → mbox_put fuel caller msg blocking b memory kern
      ≡ (let r = queue_message kern.active_pid msg b memory in some ((result 1, r.0, r.1), kern))
unfolding mbox_put list_remove_head put_resumed
put-queues fuel caller msg blocking b memory kern e room = rw (e, room) refl

queue-others :
    (sender msg a : ℕ) (b : Mbox) (memory : Memory)
    → a ≢ msg
    → (queue_message sender msg b memory).1.messages a ≡ memory.messages a
unfolding queue_message
queue-others sender msg a b memory ne = rw other refl
  where
    other : a == msg ≡ false
    other = ground (arith, ne)

queue-stamps :
    (sender msg : ℕ) (b : Mbox) (memory : Memory)
    → (queue_message sender msg b memory).1.messages msg
      ≡ record (memory.messages msg) { sender_pid = sender }
unfolding queue_message
queue-stamps sender msg b memory = rw self refl
  where
    self : msg == msg ≡ true
    self = ground arith

queue-wait_data :
    (sender msg : ℕ) (b : Mbox) (memory : Memory)
    → (queue_message sender msg b memory).1.wait_data ≡ memory.wait_data
unfolding queue_message
queue-wait_data sender msg b memory = refl

get-takes :
    (fuel : ℕ) (caller : Caller) (msg : ℕ) (blocking : Bool) (b : Mbox) (memory : Memory)
    (kern : Kernel)
    → cib_avail b.cib == 0 ≡ false
    → b.writers == null ≡ true
    → mbox_get fuel caller msg blocking b memory kern
      ≡ (let r = take_message msg b memory in some ((result 1, r.0, r.1), kern))
unfolding mbox_get list_remove_head take_message
get-takes fuel caller msg blocking b memory kern e w = rw (e, w) refl

-- A put into a mailbox of 2^k messages, k at most 14, that has room and no reader waiting, returns
-- 1 and puts the message, with the pid of the active thread as its sender, behind the messages
-- that the mailbox holds. The message at the address that was passed is the one that was put; the
-- messages at other addresses, the addresses that threads wait with, the threads that wait at the
-- mailbox and the scheduler's variables stay.
pub mbox_put-PutDone :
    (fuel : ℕ) (caller : Caller) (msg : ℕ) (blocking : Bool) (b : Mbox) (memory : Memory)
    (kern : Kernel) (k n : ℕ) (ms : List Msg)
    → Holds b k n ms
    → b.readers ≡ null
    → n < 2 ^ k
    → PutDone fuel caller msg blocking b memory kern k n ms
mbox_put-PutDone fuel caller msg blocking b memory kern k n ms h none_waits room = record {
  after = (queue_message kern.active_pid msg b memory).0;
  memory_after = (queue_message kern.active_pid msg b memory).1;
  returns =
      put-queues fuel caller msg blocking b memory kern (ground (arith, none_waits))
        (full-eq b k n ms h ∙ ground (arith, room));
  put = queue_message-Put b k n ms h kern.active_pid msg memory room;
  stamped = queue-stamps kern.active_pid msg b memory;
  others = λ a ne. queue-others kern.active_pid msg a b memory ne;
  wait_data = queue-wait_data kern.active_pid msg b memory;
}

module _ (msg : ℕ) (b : Mbox) (memory : Memory) (k n : ℕ) (m : Msg) (ms : List Msg)
    (h : Holds b k (suc n) (m ∷ ms)) where
  -- The message that is taken out of the array.
  record Taken (r : Mbox × Memory) : Type 0 where
    received : r.1.messages msg ≡ m
    holds : Holds r.0 k n ms
    readers : r.0.readers ≡ b.readers
    writers : r.0.writers ≡ b.writers
    others : (a : ℕ) → a ≢ msg → r.1.messages a ≡ memory.messages a
    array : r.0.msg_array ≡ b.msg_array
    wait_data : r.1.wait_data ≡ memory.wait_data

  take_message-Taken : Taken (take_message msg b memory)
  unfolding take_message
  take_message-Taken =
      let g = cib_get-Got b.cib k n h.counts b.msg_array in
      rw g.unsafe record {
        received = rw self (head_of (sym g.head ∙ h.listed)).0;
        holds = record { counts = g.valid; listed = (head_of (sym g.head ∙ h.listed)).1 };
        readers = refl;
        writers = refl;
        others = λ a ne. rw (other a ne) refl;
        array = refl;
        wait_data = refl;
      }
    where
      self : msg == msg ≡ true
      self = ground arith

      other : (a : ℕ) → a ≢ msg → a == msg ≡ false
      other a ne = ground (arith, ne)

      head_of : {x y : Msg} {xs ys : List Msg} → x ∷ xs ≡ y ∷ ys → (x ≡ y) × (xs ≡ ys)
      head_of e = (cc, cc)

-- A get from a mailbox of 2^k messages, k at most 14, that holds a message and has no writer
-- waiting, returns 1 and copies the oldest message to the address that was passed. The mailbox
-- holds the others in order; its array, the threads that wait at it, the messages at other
-- addresses, the addresses that threads wait with and the scheduler's variables stay.
pub mbox_get-GetDone :
    (fuel : ℕ) (caller : Caller) (msg : ℕ) (blocking : Bool) (b : Mbox) (memory : Memory)
    (kern : Kernel) (k n : ℕ) (m : Msg) (ms : List Msg)
    → Holds b k (suc n) (m ∷ ms)
    → b.writers ≡ null
    → GetDone fuel caller msg blocking b memory kern k n m ms
mbox_get-GetDone fuel caller msg blocking b memory kern k n m ms h none_waits =
    let t = take_message-Taken msg b memory k n m ms h in
    record {
      after = (take_message msg b memory).0;
      memory_after = (take_message msg b memory).1;
      returns =
          get-takes fuel caller msg blocking b memory kern
            (empty-eq b k (suc n) (m ∷ ms) h ∙ ground arith) (ground (arith, none_waits));
      received = t.received;
      holds = t.holds;
      readers = t.readers;
      writers = t.writers;
      others = t.others;
      array = t.array;
      wait_data = t.wait_data;
    }
