-- ===== src/RingBuffer/Queue.antt =====
-- The ring buffer as a queue: entry `i` of it, for `i` less than the number of entries.
use sancus_riot.Common.{
  ℕ, ◌+◌, ◌-◌, ◌%◌, ◌^◌, ◌<◌, ◌≤◌, ◌≡◌, refl, sym, ap, ◌∙◌, true, false, none, some, arith, ◌==◌,
  ltb, leb, if◌then◌else◌,
}
use sancus_riot.Kernel.{update}
use sancus_riot.RingBuffer.{
  RingBuffer, tail_position, head_removed, add_tail, get_head, ringbuffer_get_one,
  ringbuffer_add_one,
}

-- The read position is inside the buffer, which is not larger than half of the address space.
pub record IsValid (rb : RingBuffer) : Type 0 where
  pub inside : rb.start < rb.size
  pub fits : rb.avail ≤ rb.size
  pub addressable : rb.size ≤ 2 ^ 15

abbrev pub entry_position : RingBuffer → ℕ → ℕ
entry_position rb i = if leb rb.size (rb.start + i) then rb.start + i - rb.size else rb.start + i

abbrev pub entry : RingBuffer → ℕ → ℕ
entry rb i = rb.buf (entry_position rb i)

-- What the removal of the first entry leaves.
pub record Got (rb : RingBuffer) : Type 0 where
  pub after : RingBuffer
  pub returns : ringbuffer_get_one rb ≡ some (some (entry rb 0), after)
  pub valid : IsValid after
  pub count : after.avail + 1 ≡ rb.avail
  pub shifts : (i : ℕ) → i < after.avail → entry after i ≡ entry rb (i + 1)

get_one-eq :
    (rb : RingBuffer)
    → IsValid rb
    → 0 < rb.avail
    → ringbuffer_get_one rb ≡ some (some (rb.buf rb.start), head_removed rb)
unfolding ringbuffer_get_one get_head
get_one-eq rb v h = ground (arith, v.inside, h)

count-head_removed :
    (rb : RingBuffer) → IsValid rb → 0 < rb.avail → (head_removed rb).avail ≡ rb.avail - 1
count-head_removed rb v h = omega (arith, v.fits, v.addressable, h)

start-head_removed :
    (rb : RingBuffer)
    → IsValid rb
    → 0 < rb.avail
    → (head_removed rb).start
      ≡ (if rb.avail == 1 then 0 else if rb.start + 1 == rb.size then 0 else rb.start + 1)
start-head_removed rb v h = ground (arith, v.inside, v.fits, v.addressable, h)

shift_position :
    (rb : RingBuffer) (i : ℕ)
    → IsValid rb
    → 0 < rb.avail
    → i + 1 < rb.avail
    → entry_position (head_removed rb) i ≡ entry_position rb (i + 1)
shift_position rb i v h l = ground (arith, start-head_removed rb v h, v.inside, v.fits)

first_position : (rb : RingBuffer) → IsValid rb → rb.start ≡ entry_position rb 0
first_position rb v = ground (arith, v.inside)

head_removed-IsValid : (rb : RingBuffer) → IsValid rb → 0 < rb.avail → IsValid (head_removed rb)
head_removed-IsValid rb v h = record {
  inside = ground (arith, start-head_removed rb v h, v.inside);
  fits = omega (arith, count-head_removed rb v h, v.fits);
  addressable = v.addressable;
}

-- From a valid ring buffer of at most 2^15 bytes that is not empty, `ringbuffer_get_one` returns
-- the oldest byte; the others move up by one, and the buffer stays valid.
pub ringbuffer_get_one-Got : (rb : RingBuffer) → IsValid rb → 0 < rb.avail → Got rb
ringbuffer_get_one-Got rb v h = record {
  after = head_removed rb;
  returns =
      get_one-eq rb v h ∙ ap (λ j. some (some (rb.buf j), head_removed rb)) (first_position rb v);
  valid = head_removed-IsValid rb v h;
  count = omega (arith, count-head_removed rb v h, h);
  shifts = λ i l. ap rb.buf (shift_position rb i v h (omega (arith, count-head_removed rb v h, l)));
}

-- What the addition of an entry to a buffer with room leaves.
pub record Put (rb : RingBuffer) (c : ℕ) : Type 0 where
  pub after : RingBuffer
  pub returns : add_tail rb c ≡ some after
  pub valid : IsValid after
  pub count : after.avail ≡ rb.avail + 1
  pub size_kept : after.size ≡ rb.size
  pub kept : (i : ℕ) → i < rb.avail → entry after i ≡ entry rb i
  pub last : entry after rb.avail ≡ c

tail-entry : (rb : RingBuffer) → IsValid rb → tail_position rb ≡ entry_position rb rb.avail
tail-entry rb v =
    let small : (rb.start + rb.avail) % 2 ^ 16 ≡ rb.start + rb.avail =
      omega (arith, v.inside, v.fits, v.addressable) in
    rw small refl

add_tail-eq :
    (rb : RingBuffer) (c : ℕ)
    → IsValid rb
    → rb.avail < rb.size
    → add_tail rb c
      ≡ some
          (record rb { buf = update rb.buf (entry_position rb rb.avail) c; avail = rb.avail + 1 })
unfolding add_tail
add_tail-eq rb c v h = rw (tail-entry rb v, inside, counted) refl
  where
    inside : ltb (entry_position rb rb.avail) rb.size ≡ true
    inside = ground (arith, v.inside, v.fits)

    counted : (rb.avail + 1) % 2 ^ 16 ≡ rb.avail + 1
    counted = omega (arith, v.fits, v.addressable)

pub put : (rb : RingBuffer) (c : ℕ) → IsValid rb → rb.avail < rb.size → Put rb c
put rb c v h = record {
  after = record rb { buf = update rb.buf (entry_position rb rb.avail) c; avail = rb.avail + 1 };
  returns = add_tail-eq rb c v h;
  valid = record { inside = v.inside; fits = omega (arith, h); addressable = v.addressable };
  count = refl;
  size_kept = refl;
  kept = λ i l. rw (other i l) refl;
  last = rw self refl;
}
  where
    other : (i : ℕ) → i < rb.avail → entry_position rb i == entry_position rb rb.avail ≡ false
    other i l = ground (arith, v.inside, h)

    self : entry_position rb rb.avail == entry_position rb rb.avail ≡ true
    self = ground arith

add_one-room :
    (rb after : RingBuffer) (c : ℕ)
    → rb.avail < rb.size
    → add_tail rb c ≡ some after
    → ringbuffer_add_one rb c ≡ some (none, after)
unfolding ringbuffer_add_one
add_one-room rb after c h e = rw (room, e) refl
  where
    room : rb.avail == rb.size ≡ false
    room = ground arith

add_one-full :
    (rb after : RingBuffer) (c : ℕ)
    → IsValid rb
    → rb.avail ≡ rb.size
    → add_tail (head_removed rb) c ≡ some after
    → ringbuffer_add_one rb c ≡ some (some (rb.buf rb.start), after)
unfolding ringbuffer_add_one get_head
add_one-full rb after c v h e = rw (full, inside, e) refl
  where
    full : rb.avail == rb.size ≡ true
    full = ground arith

    inside : ltb rb.start rb.size ≡ true
    inside = ground (arith, v.inside)

-- What the addition of one entry leaves where there is room.
pub record Appended (rb : RingBuffer) (c : ℕ) : Type 0 where
  pub after : RingBuffer
  pub returns : ringbuffer_add_one rb c ≡ some (none, after)
  pub valid : IsValid after
  pub count : after.avail ≡ rb.avail + 1
  pub last : entry after rb.avail ≡ c
  pub kept : (i : ℕ) → i < rb.avail → entry after i ≡ entry rb i

-- With room in a valid ring buffer of at most 2^15 bytes, `ringbuffer_add_one` returns -1, puts
-- the byte behind the others, which it keeps in order, and leaves the buffer valid.
pub ringbuffer_add_one-Appended :
    (rb : RingBuffer) (c : ℕ) → IsValid rb → rb.avail < rb.size → Appended rb c
ringbuffer_add_one-Appended rb c v h =
    let p = put rb c v h in
    record {
      after = p.after;
      returns = add_one-room rb p.after c h p.returns;
      valid = p.valid;
      count = p.count;
      last = p.last;
      kept = p.kept;
    }

-- What it leaves where there is none: the oldest entry is returned.
pub record Replaced (rb : RingBuffer) (c : ℕ) : Type 0 where
  pub after : RingBuffer
  pub returns : ringbuffer_add_one rb c ≡ some (some (entry rb 0), after)
  pub valid : IsValid after
  pub count : after.avail ≡ rb.avail
  pub last : entry after (rb.avail - 1) ≡ c
  pub shifts : (i : ℕ) → i + 1 < rb.avail → entry after i ≡ entry rb (i + 1)

-- Without room in a valid ring buffer of at most 2^15 bytes, `ringbuffer_add_one` returns the
-- oldest byte, shifts the others by one, puts the new one last, and leaves the buffer valid with
-- as many bytes.
pub ringbuffer_add_one-Replaced :
    (rb : RingBuffer) (c : ℕ) → IsValid rb → rb.avail ≡ rb.size → Replaced rb c
ringbuffer_add_one-Replaced rb c v full =
    let h : 0 < rb.avail = omega (arith, full, v.inside) in
    let c1 = count-head_removed rb v h in
    let p = put (head_removed rb) c (head_removed-IsValid rb v h) (omega (arith, c1, full, h)) in
    record {
      after = p.after;
      returns =
          add_one-full rb p.after c v full p.returns
          ∙ ap (λ j. some (some (rb.buf j), p.after)) (first_position rb v);
      valid = p.valid;
      count = omega (arith, p.count, c1, h);
      last = ap (entry p.after) (sym c1) ∙ p.last;
      shifts = λ i l. p.kept i (omega (arith, c1, l)) ∙ ap rb.buf (shift_position rb i v h l);
    }
