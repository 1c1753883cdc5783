-- ===== src/RingBuffer/Remove.antt =====
-- Removing several entries at once.
use sancus_riot.Common.{ℕ, ◌+◌, ◌<◌, ◌≡◌, refl, ◌%◌, ◌^◌, ◌-◌, false, none, arith, ltb}
use sancus_riot.RingBuffer.{RingBuffer, get_head, ringbuffer_get_one, ringbuffer_remove}
use sancus_riot.RingBuffer.Queue.{IsValid}

remove-end :
    (rb : RingBuffer) (n : ℕ)
    → IsValid rb
    → rb.start + n ≡ rb.size
    → n < rb.avail
    → (ringbuffer_remove rb n).1 ≡ record rb { start = rb.size; avail = rb.avail - n }
unfolding ringbuffer_remove
remove-end rb n v e h = rw (enough, stays, not_over) refl
  where
    enough : ltb rb.avail n ≡ false
    enough = ground arith

    stays : (rb.start + n) % 2 ^ 16 ≡ rb.size
    stays = omega (arith, e, v.addressable)

    not_over : ltb rb.size rb.size ≡ false
    not_over = ground arith

get_one-outside :
    (rb : RingBuffer) → rb.start ≡ rb.size → 0 < rb.avail → ringbuffer_get_one rb ≡ none
unfolding ringbuffer_get_one get_head
get_one-outside rb e h = ground (arith, e, h)

-- `ringbuffer_remove` of fewer bytes than a valid ring buffer of at most 2^15 bytes holds, up to
-- the end of the buffer exactly, leaves the read position behind the end: the next
-- `ringbuffer_get_one` reads outside of the buffer.
pub ringbuffer_remove-fault :
    (rb : RingBuffer) (n : ℕ)
    → IsValid rb
    → rb.start + n ≡ rb.size
    → n < rb.avail
    → ringbuffer_get_one (ringbuffer_remove rb n).1 ≡ none
ringbuffer_remove-fault rb n v e h =
    rw (remove-end rb n v e h) (
      get_one-outside (record rb { start = rb.size; avail = rb.avail - n }) refl (omega (arith, h)))
