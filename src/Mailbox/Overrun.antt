-- ===== src/Mailbox/Overrun.antt =====
-- A writer that goes on when the mailbox is full again.
use sancus_riot.Common.{ℕ, ◌+◌, ◌%◌, ◌^◌, ◌≡◌, refl, sym, ap, ◌∙◌, true, some, List, arith, ◌==◌}
use sancus_riot.Kernel.{Kernel}
use sancus_riot.Common.Masks.{bit_and-mask}
use sancus_riot.Cib.{Cib, cib_avail, cib_put_unsafe, cib_get_unsafe}
use sancus_riot.Cib.Queue.{IsCib, limit_of, mod-pow}
use sancus_riot.Mailbox.{Msg, Mbox, Memory, result, put_resumed, queue_message, take_message}
use sancus_riot.Mailbox.Fifo.{Holds, sent}

-- The write count of a full mailbox leads to the cell that is read next.
same_cell :
    (c : Cib) (k : ℕ)
    → IsCib c k (2 ^ k)
    → (cib_put_unsafe c).0 ≡ (cib_get_unsafe (cib_put_unsafe c).1).0
unfolding cib_put_unsafe cib_get_unsafe
same_cell c k v = rw v.mask (
    bit_and-mask c.write_count k
    ∙ ap (λ w. w % 2 ^ k) v.filled
    ∙ mod-pow (c.read_count + 2 ^ k) k v.small
    ∙ around
    ∙ sym (bit_and-mask c.read_count k))
  where
    around : (c.read_count + 2 ^ k) % 2 ^ k ≡ c.read_count % 2 ^ k
    around = grind arith

put-avail : (c : Cib) (k : ℕ) → IsCib c k (2 ^ k) → cib_avail (cib_put_unsafe c).1 ≡ 2 ^ k + 1
unfolding cib_avail cib_put_unsafe
put-avail c k v = omega (arith, v.filled, v.read, limit_of k v.small)

-- What the writer leaves: the oldest message `m` is lost.
pub record Overrun (msg next : ℕ) (b : Mbox) (memory : Memory) (kern : Kernel) (k : ℕ)
    : Type 0 where
  pub after : Mbox
  pub memory_after : Memory
  pub returns : put_resumed msg b memory kern ≡ some ((result 1, after, memory_after), kern)
  pub too_many : cib_avail after.cib ≡ 2 ^ k + 1
  pub next_read : (take_message next after memory_after).1.messages next ≡ sent kern msg memory

resumed-eq :
    (msg : ℕ) (b : Mbox) (memory : Memory) (kern : Kernel)
    → put_resumed msg b memory kern
      ≡ (let r = queue_message kern.active_pid msg b memory in some ((result 1, r.0, r.1), kern))
unfolding put_resumed
resumed-eq msg b memory kern = refl

-- When a writer that had to wait runs again and the mailbox is full, the rest of `_mbox_put`
-- returns 1, counts one message more than there is room for, and the next message that is taken
-- out is the new one: it has overwritten the oldest.
pub put_resumed-Overrun :
    (msg next : ℕ) (b : Mbox) (memory : Memory) (kern : Kernel) (k : ℕ) (ms : List Msg)
    → Holds b k (2 ^ k) ms
    → Overrun msg next b memory kern k
unfolding queue_message take_message
put_resumed-Overrun msg next b memory kern k ms h = record {
  after = (queue_message kern.active_pid msg b memory).0;
  memory_after = (queue_message kern.active_pid msg b memory).1;
  returns = resumed-eq msg b memory kern;
  too_many = counted;
  next_read = rw (self, ← same_cell b.cib k h.counts, cell) refl;
}
  where
    self : next == next ≡ true
    self = ground arith

    cell : (cib_put_unsafe b.cib).0 == (cib_put_unsafe b.cib).0 ≡ true
    cell = ground arith

    counted : cib_avail (cib_put_unsafe b.cib).1 ≡ 2 ^ k + 1
    counted = put-avail b.cib k h.counts
