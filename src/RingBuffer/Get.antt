-- ===== src/RingBuffer/Get.antt =====
-- Getting several bytes: in one copy or, around the end of the buffer, in two.
use sancus_riot.Common.{
  ℕ, zero, suc, ◌+◌, ◌-◌, ◌%◌, ◌^◌, ◌<◌, ◌≤◌, ◌≡◌, refl, sym, ap, ◌∙◌, Bool, true, false, Option,
  some, arith, ◌==◌, ltb, leb, min, if◌then◌else◌, List, [], ◌∷◌, ◌++◌, Bool-cases, inl, inr,
}
use sancus_riot.RingBuffer.{RingBuffer, cells, copy_out, get_bytes, ringbuffer_get, ringbuffer_peek}
use sancus_riot.RingBuffer.Queue.{IsValid, entry_position, entry}

-- The entries from number `i` on, `n` of them.
unfoldable pub entries : RingBuffer → ℕ → ℕ → List ℕ
entries rb i zero = []
entries rb i (suc n) = entry rb i ∷ entries rb (i + 1) n

entries-append :
    (rb : RingBuffer) (i n m : ℕ) → entries rb i n ++ entries rb (i + n) m ≡ entries rb i (n + m)
unfolding entries
entries-append rb i zero m =
    ap (λ j. entries rb j m) (omega arith) ∙ ap (entries rb i) (omega arith)
entries-append rb i (suc n) m =
    ap (λ xs. entry rb i ∷ xs)
      (ap (λ j. entries rb (i + 1) n ++ entries rb j m) (omega arith)
        ∙ entries-append rb (i + 1) n m)
    ∙ ap (entries rb i) {x = suc (n + m)} {y = suc n + m} (omega arith)

-- Bytes before the end of the buffer, and bytes at its start.
cells-entries :
    (rb : RingBuffer) (i n : ℕ)
    → rb.start + i + n ≤ rb.size
    → cells rb.buf (rb.start + i) n ≡ entries rb i n
unfolding cells entries
cells-entries rb i zero h = refl
cells-entries rb i (suc n) h =
    ap (λ j. rb.buf j ∷ cells rb.buf (rb.start + i + 1) n) at_position
    ∙ ap (λ xs. entry rb i ∷ xs)
        (ap (λ j. cells rb.buf j n) next ∙ cells-entries rb (i + 1) n (omega (arith, h)))
  where
    at_position : rb.start + i ≡ entry_position rb i
    at_position = ground (arith, h)

    next : rb.start + i + 1 ≡ rb.start + (i + 1)
    next = omega arith

cells-wrapped :
    (rb : RingBuffer) (i j n : ℕ) → rb.start + i ≡ rb.size + j → cells rb.buf j n ≡ entries rb i n
unfolding cells entries
cells-wrapped rb i j zero h = refl
cells-wrapped rb i j (suc n) h =
    ap (λ p. rb.buf p ∷ cells rb.buf (j + 1) n) at_position
    ∙ ap (λ xs. entry rb i ∷ xs) (cells-wrapped rb (i + 1) (j + 1) n (omega (arith, h)))
  where
    at_position : j ≡ entry_position rb i
    at_position = ground (arith, h)

-- What a get of `n` bytes leaves.
pub record Copied (rb : RingBuffer) (n : ℕ) : Type 0 where
  pub after : RingBuffer
  pub returns : ringbuffer_get rb n ≡ some (entries rb 0 (min n rb.avail), after)
  pub peeked : ringbuffer_peek rb n ≡ some (entries rb 0 (min n rb.avail))
  pub valid : IsValid after
  pub count : after.avail ≡ rb.avail - n
  pub shifts : (i : ℕ) → i < after.avail → entry after i ≡ entry rb (i + min n rb.avail)

-- The same for the part where bytes are copied.
record Taken (rb : RingBuffer) (n : ℕ) : Type 0 where
  after : RingBuffer
  returns : get_bytes rb n (rb.size - rb.start) ≡ some (entries rb 0 n, after)
  valid : IsValid after
  count : after.avail ≡ rb.avail - n
  shifts : (i : ℕ) → i < after.avail → entry after i ≡ entry rb (i + n)

till_end :
    (rb : RingBuffer) → IsValid rb → (rb.size + 2 ^ 16 - rb.start) % 2 ^ 16 ≡ rb.size - rb.start
till_end rb v = omega (arith, v.inside, v.addressable)

module _ (rb : RingBuffer) (n : ℕ) (v : IsValid rb) (h : n ≤ rb.avail) where
  once : RingBuffer
  once = record rb {
    start = if rb.size - rb.start == n then 0 else (rb.start + n) % 2 ^ 16;
    avail = rb.avail - n;
  }

  get_once :
      n ≤ rb.size - rb.start
      → get_bytes rb n (rb.size - rb.start) ≡ some (cells rb.buf rb.start n, once)
  unfolding get_bytes copy_out once
  get_once le = rw (fits, inside) refl
    where
      fits : leb n (rb.size - rb.start) ≡ true
      fits = ground (arith, le)

      inside : leb (rb.start + n) rb.size ≡ true
      inside = ground (arith, le, v.inside)

  twice : RingBuffer
  twice = record rb { start = n - (rb.size - rb.start); avail = rb.avail - n }

  get_twice :
      rb.size - rb.start < n
      → get_bytes rb n (rb.size - rb.start)
        ≡ some (
          cells rb.buf rb.start (rb.size - rb.start) ++ cells rb.buf 0 (n - (rb.size - rb.start)),
          twice,
        )
  unfolding get_bytes copy_out twice
  get_twice lt = rw (beyond, first, second) refl
    where
      beyond : leb n (rb.size - rb.start) ≡ false
      beyond = ground (arith, lt)

      first : leb (rb.start + (rb.size - rb.start)) rb.size ≡ true
      first = ground (arith, v.inside)

      second : leb (0 + (n - (rb.size - rb.start))) rb.size ≡ true
      second = ground (arith, v.inside, v.fits, h)

  start_once :
      n ≤ rb.size - rb.start → once.start ≡ (if rb.start + n == rb.size then 0 else rb.start + n)
  unfolding once
  start_once le = ground (arith, v.inside, v.addressable, le)

  taken_once : n ≤ rb.size - rb.start → Taken rb n
  unfolding once
  taken_once le = record {
    after = once;
    returns = get_once le ∙ ap (λ xs. some (xs, once)) copied;
    valid = record {
      inside = ground (arith, start_once le, v.inside, le);
      fits = omega (arith, v.fits);
      addressable = v.addressable;
    };
    count = refl;
    shifts = λ i l. ap rb.buf (ground (arith, start_once le, v.inside, v.fits, le, l));
  }
    where
      copied : cells rb.buf rb.start n ≡ entries rb 0 n
      copied =
          ap (λ j. cells rb.buf j n) {x = rb.start} {y = rb.start + 0} (omega arith)
          ∙ cells-entries rb 0 n (omega (arith, le, v.inside))

  taken_twice : rb.size - rb.start < n → Taken rb n
  unfolding twice
  taken_twice lt = record {
    after = twice;
    returns = get_twice lt ∙ ap (λ xs. some (xs, twice)) copied;
    valid = record {
      inside = omega (arith, v.inside, v.fits, h, lt);
      fits = omega (arith, v.fits);
      addressable = v.addressable;
    };
    count = refl;
    shifts = λ i l. ap rb.buf (ground (arith, v.inside, v.fits, lt, l, h));
  }
    where
      till : ℕ
      till = rb.size - rb.start

      first : cells rb.buf rb.start till ≡ entries rb 0 till
      first =
          ap (λ j. cells rb.buf j till) {x = rb.start} {y = rb.start + 0} (omega arith)
          ∙ cells-entries rb 0 till (omega (arith, v.inside))

      second : cells rb.buf 0 (n - till) ≡ entries rb (0 + till) (n - till)
      second = cells-wrapped rb (0 + till) 0 (n - till) (omega (arith, v.inside))

      copied : cells rb.buf rb.start till ++ cells rb.buf 0 (n - till) ≡ entries rb 0 n
      copied =
          rw (first, second)
            (entries-append rb 0 till (n - till) ∙ ap (entries rb 0) (omega (arith, lt)))

  taken : Taken rb n
  taken = elim (Bool-cases (leb n (rb.size - rb.start))) [
    | inl e ↦ taken_once (ground (arith, e))
    | inr e ↦ taken_twice (ground (arith, e))
  ]

get-nothing : (rb : RingBuffer) (n : ℕ) → min n rb.avail ≡ 0 → ringbuffer_get rb n ≡ some ([], rb)
unfolding ringbuffer_get
get-nothing rb n e = rw none_left refl
  where
    none_left : (if ltb rb.avail n then rb.avail else n) == 0 ≡ true
    none_left = ground (arith, e)

get-bytes :
    (rb : RingBuffer) (n : ℕ)
    → IsValid rb
    → 0 < min n rb.avail
    → ringbuffer_get rb n ≡ get_bytes rb (min n rb.avail) (rb.size - rb.start)
unfolding ringbuffer_get
get-bytes rb n v h =
    ap (λ m. step m ((rb.size + 2 ^ 16 - rb.start) % 2 ^ 16)) bounded
    ∙ ap (step (min n rb.avail)) (till_end rb v)
    ∙ otherwise (some ([], rb)) (get_bytes rb (min n rb.avail) (rb.size - rb.start)) some_left
  where
    step : ℕ → ℕ → Option (List ℕ × RingBuffer)
    step m till = if m == 0 then some ([], rb) else get_bytes rb m till

    otherwise :
        {t : Bool} (a b : Option (List ℕ × RingBuffer)) → t ≡ false → (if t then a else b) ≡ b
    otherwise a b e = rw e refl

    bounded : (if ltb rb.avail n then rb.avail else n) ≡ min n rb.avail
    bounded = ground arith

    some_left : min n rb.avail == 0 ≡ false
    some_left = ground (arith, h)

peek-get :
    (rb after : RingBuffer) (n : ℕ) (bytes : List ℕ)
    → ringbuffer_get rb n ≡ some (bytes, after)
    → ringbuffer_peek rb n ≡ some bytes
unfolding ringbuffer_peek
peek-get rb after n bytes e = rw (ringbuffer_peek, e) refl

-- From a valid ring buffer of at most 2^15 bytes, `ringbuffer_get` copies the oldest bytes, as
-- many as asked for or as there are, in order, in one copy or around the end of the buffer in two,
-- and `ringbuffer_peek` returns the same bytes; the others move up by so many, and the buffer
-- stays valid.
pub ringbuffer_get-Copied : (rb : RingBuffer) (n : ℕ) → IsValid rb → Copied rb n
unfolding entries
ringbuffer_get-Copied rb n v = elim (Bool-cases (min n rb.avail == 0)) [
  | inl e ↦
      let z : min n rb.avail ≡ 0 = ground (arith, e) in
      let r = get-nothing rb n z ∙ ap (λ m. some (entries rb 0 m, rb)) (sym z) in
      record {
        after = rb;
        returns = r;
        peeked = peek-get rb rb n (entries rb 0 (min n rb.avail)) r;
        valid = v;
        count = omega (arith, z);
        shifts = λ i l. ap (entry rb) (omega (arith, z));
      }
  | inr e ↦
      let t = taken rb (min n rb.avail) v (omega arith) in
      let r = get-bytes rb n v (ground (arith, e)) ∙ t.returns in
      record {
        after = t.after;
        returns = r;
        peeked = peek-get rb t.after n (entries rb 0 (min n rb.avail)) r;
        valid = t.valid;
        count = omega (arith, t.count);
        shifts = t.shifts;
      }
]
