-- ===== src/Mailbox/Handover.antt =====
-- A message that is handed over to a reader that waits.
use sancus_riot.Common.{
  ℕ, ◌≤◌, ◌≡◌, ◌≢◌, refl, sym, ap, ◌∙◌, Bool, true, false, some, arith, ◌==◌, ltb, if◌then◌else◌,
}
use sancus_riot.Entry.{
  Caller, sched_switch, store_context, dispatch, exitless_entry, enter_sched_switch,
}
use mathlib.Core.Path.{subst}
use sancus_riot.Clist.Chain.{null}
use sancus_riot.Kernel.{Kernel, Status, Thread, pending, on_runqueue}
use sancus_riot.Runqueue.{set_status, sched_set_status}
use sancus_riot.Runqueue.Scheduled.{threads-set_status, active-set_status, status-set_status}
use sancus_riot.Sched.{with_thread, sched_switch_internal, switch_internal_allow_yield}
use sancus_riot.Kernel.Monad.{◌>>◌}
use sancus_riot.Kernel.Within.{bind-eq}
use sancus_riot.Mutex.{list_remove_head}
use sancus_riot.Mailbox.{Mbox, Memory, result, deliver, wake_waiter, mbox_put}

-- The active thread goes on when a thread that is not above it is woken.
pub record GoesOn (kern : Kernel) (reader : ℕ) : Type 0 where
  pub active : kern.active_thread ≢ 0
  pub other : reader ≢ kern.active_thread
  pub runs : on_runqueue (kern.threads kern.active_thread).status ≡ true
  pub level : (kern.threads kern.active_thread).priority ≤ (kern.threads reader).priority

switch-stays :
    (fuel : ℕ) (other_prio : ℕ) (k : Kernel)
    → k.active_thread == 0 ≡ false
    → on_runqueue (k.threads k.active_thread).status ≡ true
    → ltb other_prio (k.threads k.active_thread).priority ≡ false
    → sched_switch_internal fuel other_prio k ≡ some (tt, k)
unfolding sched_switch_internal switch_internal_allow_yield
switch-stays fuel other_prio k nn on low = rw (nn, on, low) refl

status-eq :
    (n : ℕ) (s : Status) (k : Kernel)
    → n == 0 ≡ false
    → sched_set_status n s k ≡ some (tt, set_status k n s)
unfolding sched_set_status
status-eq n s k nn = rw nn refl

thread-eq : (k : Kernel) (n m : ℕ) (s : Status) → m ≢ n → (set_status k n s).threads m ≡ k.threads m
thread-eq k n m s ne = rw (threads-set_status k n s, other) refl
  where
    other : m == n ≡ false
    other = ground (arith, ne)

priority-eq :
    (k : Kernel) (n : ℕ) (s : Status)
    → ((set_status k n s).threads n).priority ≡ (k.threads n).priority
priority-eq k n s = rw (threads-set_status k n s, self) refl
  where
    self : n == n ≡ true
    self = ground arith

-- The variables after an entry that asks for a switch in behalf of priority `p`.
abbrev pub stored : Caller → ℕ → Kernel → Kernel
stored c p k = store_context (sched_switch p) c.sp c.protected k

stored-eq :
    (c : Caller) (p : ℕ) (k : Kernel)
    → k.active_thread == 0 ≡ false
    → (t : Thread) × (stored c p k ≡ with_thread k k.active_thread t)
      × (t.status ≡ (k.threads k.active_thread).status)
      × (t.priority ≡ (k.threads k.active_thread).priority)
unfolding store_context
stored-eq c p k nn =
    let t = k.threads k.active_thread in
    (
      record t {
        sp = c.sp;
        is_sm = c.protected;
        sm_idx = if c.protected then 0xffff else t.sm_idx;
      },
      rw (store_context, nn) refl,
      refl,
      refl,
    )

enter-stays :
    (fuel : ℕ) (c : Caller) (other_prio : ℕ) (k : Kernel)
    → k.active_thread == 0 ≡ false
    → on_runqueue (k.threads k.active_thread).status ≡ true
    → ltb other_prio (k.threads k.active_thread).priority ≡ false
    → enter_sched_switch fuel c other_prio k ≡ some (tt, stored c other_prio k)
unfolding enter_sched_switch exitless_entry dispatch
enter-stays fuel c other_prio k nn on low =
    let (t, e, same_status, same_priority) = stored-eq c other_prio k nn in
    let now : (with_thread k k.active_thread t).threads k.active_thread ≡ t = rw self refl in
    subst (λ m. sched_switch_internal fuel other_prio m ≡ some (tt, m)) (sym e)
      (switch-stays fuel other_prio (with_thread k k.active_thread t) nn
        (ap (λ (t : Thread). on_runqueue t.status) now ∙ ap on_runqueue same_status ∙ on)
        (ap (λ (t : Thread). ltb other_prio t.priority) now
          ∙ ap (λ p. ltb other_prio p) same_priority
          ∙ low))
  where
    self : k.active_thread == k.active_thread ≡ true
    self = ground arith

-- The variables after the reader is set pending, and the switch in its behalf is asked for.
abbrev pub woken : Caller → ℕ → Kernel → Kernel
woken c reader k = let k' = set_status k reader pending in stored c (k'.threads reader).priority k'

wake_waiter-stays :
    (fuel : ℕ) (c : Caller) (reader : ℕ) (kern : Kernel)
    → reader ≢ 0
    → GoesOn kern reader
    → wake_waiter fuel c reader kern ≡ some (tt, woken c reader kern)
unfolding wake_waiter
wake_waiter-stays fuel c reader kern nn g =
    bind-eq (sched_set_status reader pending)
      (λ _ k. enter_sched_switch fuel c (k.threads reader).priority k) kern k' tt
      (status-eq reader pending kern (ground (arith, nn)))
    ∙ enter-stays fuel c (k'.threads reader).priority k'
        (ap (λ n. n == 0) same_active ∙ ground (arith, g.active))
        (ap (λ n. on_runqueue (k'.threads n).status) same_active
          ∙ ap (λ (t : Thread). on_runqueue t.status) same_thread
          ∙ g.runs)
        (ground (
          arith,
          priority-eq kern reader pending,
          ap (λ n. (k'.threads n).priority) same_active,
          ap (λ (t : Thread). t.priority) same_thread,
          g.level,
        ))
  where
    k' : Kernel
    k' = set_status kern reader pending

    same_active : k'.active_thread ≡ kern.active_thread
    same_active = active-set_status kern reader pending

    same_thread : k'.threads kern.active_thread ≡ kern.threads kern.active_thread
    same_thread = thread-eq kern reader kern.active_thread pending (λ e. g.other (sym e))

-- The active thread goes on, and the reader is pending.
woken-keeps :
    (c : Caller) (reader : ℕ) (kern : Kernel)
    → reader ≢ 0
    → GoesOn kern reader
    → ((woken c reader kern).active_thread ≡ kern.active_thread)
      × (((woken c reader kern).threads reader).status ≡ pending)
woken-keeps c reader kern nn g =
    let (t, e, _, _) = stored-eq c (k'.threads reader).priority k' nobody in
    (
      ap (λ (k : Kernel). k.active_thread) e ∙ same_active,
      ap (λ (k : Kernel). (k.threads reader).status) e
          ∙ rw other refl
          ∙ status-set_status kern reader pending,
    )
  where
    k' : Kernel
    k' = set_status kern reader pending

    same_active : k'.active_thread ≡ kern.active_thread
    same_active = active-set_status kern reader pending

    nobody : k'.active_thread == 0 ≡ false
    nobody = ap (λ n. n == 0) same_active ∙ ground (arith, g.active)

    other : reader == k'.active_thread ≡ false
    other = ap (λ n. reader == n) same_active ∙ ground (arith, g.other)

-- What is left when the message went to the reader `b.readers`.
pub record Delivered (fuel : ℕ) (caller : Caller) (msg : ℕ) (blocking : Bool) (b : Mbox)
    (memory : Memory) (kern kern_after : Kernel) : Type 0 where
  pub after : Mbox
  pub memory_after : Memory
  pub returns :
      mbox_put fuel caller msg blocking b memory kern
      ≡ some ((result 1, after, memory_after), kern_after)
  pub received : memory_after.messages (memory.wait_data b.readers) ≡ memory.messages msg
  pub others :
      (a : ℕ) → a ≢ memory.wait_data b.readers → memory_after.messages a ≡ memory.messages a
  pub next : after.readers ≡ kern.links b.readers
  pub untouched :
      (after.cib ≡ b.cib) × (after.msg_array ≡ b.msg_array) × (after.writers ≡ b.writers)
  pub wait_data : memory_after.wait_data ≡ memory.wait_data
  pub goes_on : kern_after.active_thread ≡ kern.active_thread
  pub is_pending : (kern_after.threads b.readers).status ≡ pending

put-hands :
    (fuel : ℕ) (caller : Caller) (msg : ℕ) (blocking : Bool) (b : Mbox) (memory : Memory)
    (kern kern_after : Kernel)
    → b.readers == null ≡ false
    → memory.wait_data b.readers == 0 ≡ false
    → wake_waiter fuel caller b.readers kern ≡ some (tt, kern_after)
    → mbox_put fuel caller msg blocking b memory kern
      ≡ some (
        (result 1, record b { readers = kern.links b.readers }, deliver msg b.readers memory),
        kern_after,
      )
unfolding mbox_put list_remove_head
put-hands fuel caller msg blocking b memory kern kern_after e d w = rw (e, d, ◌>>◌, w, e) refl

-- A put into a mailbox where a reader waits, with an address that is not 0, copies the message to
-- that address as it is, takes the reader off the list and returns 1; the reader is set pending,
-- and the active thread, which is able to run and whose priority is no less than the reader's,
-- stays active, after a call of the scheduler through its entry. The array and the indices of the
-- mailbox, the writers that wait, the messages at other addresses and the addresses that threads
-- wait with stay.
pub mbox_put-Delivered :
    (fuel : ℕ) (caller : Caller) (msg : ℕ) (blocking : Bool) (b : Mbox) (memory : Memory)
    (kern : Kernel)
    → b.readers ≢ null
    → memory.wait_data b.readers ≢ 0
    → GoesOn kern b.readers
    → Delivered fuel caller msg blocking b memory kern (woken caller b.readers kern)
unfolding deliver
mbox_put-Delivered fuel caller msg blocking b memory kern e d g = record {
  after = record b { readers = kern.links b.readers };
  memory_after = deliver msg b.readers memory;
  returns =
      put-hands fuel caller msg blocking b memory kern (woken caller b.readers kern)
        (ground (arith, e)) (ground (arith, d)) (wake_waiter-stays fuel caller b.readers kern e g);
  received = rw self refl;
  others = λ a ne. rw (other a ne) refl;
  next = refl;
  untouched = (refl, refl, refl);
  wait_data = refl;
  goes_on = (woken-keeps caller b.readers kern e g).0;
  is_pending = (woken-keeps caller b.readers kern e g).1;
}
  where
    self : memory.wait_data b.readers == memory.wait_data b.readers ≡ true
    self = ground arith

    other : (a : ℕ) → a ≢ memory.wait_data b.readers → a == memory.wait_data b.readers ≡ false
    other a ne = ground (arith, ne)
