-- ===== src/RingBuffer.antt =====
-- core/ringbuffer.c and core/include/ringbuffer.h: a ring buffer of bytes. A read or a write
-- outside of the buffer is a fault, `none`. An `unsigned` is 16 bits wide.
pub mod Queue
pub mod Remove
pub mod Get
pub mod Add
mod Tests
use sancus_riot.Common.{
  ℕ, zero, suc, ◌+◌, ◌-◌, ◌%◌, ◌^◌, Bool, true, false, Option, none, some, ◌==◌, ltb, leb,
  if◌then◌else◌, List, [], ◌∷◌, ◌++◌,
}
use sancus_riot.Kernel.{update}

-- `ringbuffer_t`
pub record RingBuffer : Type 0 where
  pub buf : ℕ → ℕ
  pub size : ℕ
  pub start : ℕ
  pub avail : ℕ

abbrev pub ringbuffer_init : (ℕ → ℕ) → ℕ → RingBuffer
ringbuffer_init buffer bufsize = record { buf = buffer; size = bufsize; start = 0; avail = 0 }

abbrev pub ringbuffer_empty : RingBuffer → Bool
ringbuffer_empty rb = rb.avail == 0

abbrev pub ringbuffer_full : RingBuffer → Bool
ringbuffer_full rb = rb.avail == rb.size

-- `rb->start + rb->avail`, which comes from the front again at the end of the buffer.
abbrev pub tail_position : RingBuffer → ℕ
tail_position rb =
    let pos = (rb.start + rb.avail) % 2 ^ 16 in if leb rb.size pos then pos - rb.size else pos

unfoldable pub add_tail : RingBuffer → ℕ → Option RingBuffer
add_tail rb c =
    if ltb (tail_position rb) rb.size
    then some
        (record rb { buf = update rb.buf (tail_position rb) c; avail = (rb.avail + 1) % 2 ^ 16 })
    else none

-- `rb->avail` counts down, and `rb->start` counts up unless nothing is left.
abbrev pub head_removed : RingBuffer → RingBuffer
head_removed rb =
    let left = (rb.avail + 2 ^ 16 - 1) % 2 ^ 16 in
    let next = (rb.start + 1) % 2 ^ 16 in
    record rb { avail = left; start = if left == 0 then 0 else if next == rb.size then 0 else next }

unfoldable pub get_head : RingBuffer → Option (ℕ × RingBuffer)
get_head rb = if ltb rb.start rb.size then some (rb.buf rb.start, head_removed rb) else none

-- `none` inside is the result -1.
unfoldable pub ringbuffer_get_one : RingBuffer → Option (Option ℕ × RingBuffer)
ringbuffer_get_one rb =
    if ringbuffer_empty rb
    then some (none, rb)
    else elim (get_head rb) [ none ↦ none | some (c, rb') ↦ some (some c, rb') ]

unfoldable pub ringbuffer_add_one : RingBuffer → ℕ → Option (Option ℕ × RingBuffer)
ringbuffer_add_one rb c =
    let add = λ (result : Option ℕ) (rb : RingBuffer).
      elim (add_tail rb c) as (λ _. Option (Option ℕ × RingBuffer)) [
        | none ↦ none
        | some rb' ↦ some (result, rb')
      ] in
    if ringbuffer_full rb
    then (elim (get_head rb) [ none ↦ none | some (old, rb') ↦ add (some old) rb' ])
    else add none rb

unfoldable pub ringbuffer_remove : RingBuffer → ℕ → ℕ × RingBuffer
ringbuffer_remove rb n =
    if ltb rb.avail n
    then (rb.avail, record rb { start = 0; avail = 0 })
    else (let start = (rb.start + n) % 2 ^ 16 in
        (
          n,
          record rb {
            start = if ltb rb.size start then start - rb.size else start;
            avail = rb.avail - n;
          },
        ))

unfoldable pub ringbuffer_peek_one : RingBuffer → Option (Option ℕ)
ringbuffer_peek_one rb = elim (ringbuffer_get_one rb) [ none ↦ none | some (c, _) ↦ some c ]

-- `n` bytes from the position `from` on.
unfoldable pub cells : (ℕ → ℕ) → ℕ → ℕ → List ℕ
cells buf from zero = []
cells buf from (suc n) = buf from ∷ cells buf (from + 1) n

-- `memcpy` out of the buffer.
unfoldable pub copy_out : RingBuffer → ℕ → ℕ → Option (List ℕ)
unfolding cells
copy_out rb from n = if leb (from + n) rb.size then some (cells rb.buf from n) else none

-- The part of `ringbuffer_get` for `n > 0`, which is at most `rb->avail` there.
unfoldable pub get_bytes : RingBuffer → ℕ → ℕ → Option (List ℕ × RingBuffer)
unfolding copy_out
get_bytes rb n bytes_till_end =
    let rest = n - bytes_till_end in
    if leb n bytes_till_end
    then (elim (copy_out rb rb.start n) [
      | none ↦ none
      | some bytes ↦ some (
        bytes,
        record rb {
          start = if bytes_till_end == n then 0 else (rb.start + n) % 2 ^ 16;
          avail = rb.avail - n;
        },
      )
    ])
    else (elim (copy_out rb rb.start bytes_till_end) [
      | none ↦ none
      | some bytes ↦ elim (copy_out rb 0 rest) [
        | none ↦ none
        | some more ↦ some (bytes ++ more, record rb { start = rest; avail = rb.avail - n })
      ]
    ])

-- The bytes that are copied, as many as the result says.
unfoldable pub ringbuffer_get : RingBuffer → ℕ → Option (List ℕ × RingBuffer)
unfolding get_bytes
ringbuffer_get rb n =
    let n = if ltb rb.avail n then rb.avail else n in
    if n == 0 then some ([], rb) else get_bytes rb n ((rb.size + 2 ^ 16 - rb.start) % 2 ^ 16)

unfoldable pub ringbuffer_peek : RingBuffer → ℕ → Option (List ℕ)
unfolding ringbuffer_get
ringbuffer_peek rb n = elim (ringbuffer_get rb n) [ none ↦ none | some (bytes, _) ↦ some bytes ]

-- The number of the bytes that are added.
unfoldable pub ringbuffer_add : RingBuffer → List ℕ → Option (ℕ × RingBuffer)
ringbuffer_add rb [] = some (0, rb)
ringbuffer_add rb (c ∷ cs) = if ringbuffer_full rb then some (0, rb) else elim (add_tail rb c) [
  | none ↦ none
  | some rb' ↦ elim (ringbuffer_add rb' cs) [ none ↦ none | some (i, rb'') ↦ some (i + 1, rb'') ]
]
