-- ===== src/RingBuffer/Add.antt =====
-- Adding several bytes, as many as there is room for.
use sancus_riot.Common.{
  ℕ, zero, suc, ◌+◌, ◌-◌, ◌<◌, ◌≡◌, refl, ap, ◌∙◌, true, false, some, arith, ◌==◌, ltb, min, List,
  [], ◌∷◌, Bool-cases, inl, inr, length, get_elem?,
}
use sancus_riot.RingBuffer.{RingBuffer, add_tail, ringbuffer_add}
use sancus_riot.RingBuffer.Queue.{IsValid, entry, Put, put}

-- The number of the bytes that fit.
abbrev pub room : RingBuffer → List ℕ → ℕ
room rb cs = min (length cs) (rb.size - rb.avail)

-- What the addition of the bytes `cs` leaves.
pub record Added (rb : RingBuffer) (cs : List ℕ) : Type 0 where
  pub after : RingBuffer
  pub returns : ringbuffer_add rb cs ≡ some (room rb cs, after)
  pub valid : IsValid after
  pub count : after.avail ≡ rb.avail + room rb cs
  pub kept : (i : ℕ) → i < rb.avail → entry after i ≡ entry rb i
  pub added : (i : ℕ) → i < room rb cs → some (entry after (rb.avail + i)) ≡ get_elem? cs i

add-full :
    (rb : RingBuffer) (c : ℕ) (cs : List ℕ)
    → rb.avail ≡ rb.size
    → ringbuffer_add rb (c ∷ cs) ≡ some (0, rb)
unfolding ringbuffer_add
add-full rb c cs full = rw e refl
  where
    e : rb.avail == rb.size ≡ true
    e = ground (arith, full)

add-next :
    (rb rb' after : RingBuffer) (c n : ℕ) (cs : List ℕ)
    → rb.avail < rb.size
    → add_tail rb c ≡ some rb'
    → ringbuffer_add rb' cs ≡ some (n, after)
    → ringbuffer_add rb (c ∷ cs) ≡ some (n + 1, after)
unfolding ringbuffer_add
add-next rb rb' after c n cs h first others = rw (e, first, others) refl
  where
    e : rb.avail == rb.size ≡ false
    e = ground (arith, h)

none-Added : (rb : RingBuffer) → IsValid rb → Added rb []
unfolding ringbuffer_add
none-Added rb v = record {
  after = rb;
  returns = ap (λ n. some (n, rb)) (omega arith);
  valid = v;
  count = omega arith;
  kept = λ i l. refl;
  added = λ i l. absurd (omega (arith, l));
}

full-Added :
    (rb : RingBuffer) (c : ℕ) (cs : List ℕ) → IsValid rb → rb.avail ≡ rb.size → Added rb (c ∷ cs)
full-Added rb c cs v full = record {
  after = rb;
  returns = add-full rb c cs full ∙ ap (λ n. some (n, rb)) (omega (arith, full));
  valid = v;
  count = omega (arith, full);
  kept = λ i l. refl;
  added = λ i l. absurd (omega (arith, l, full));
}

next-Added :
    (rb : RingBuffer) (c : ℕ) (cs : List ℕ)
    → rb.avail < rb.size
    → (p : Put rb c) → Added p.after cs
    → Added rb (c ∷ cs)
next-Added rb c cs h p rest = record {
  after = rest.after;
  returns =
      add-next rb p.after rest.after c (room p.after cs) cs h p.returns rest.returns
      ∙ ap (λ n. some (n, rest.after)) (omega (arith, p.count, p.size_kept, h));
  valid = rest.valid;
  count = omega (arith, rest.count, p.count, p.size_kept, h);
  kept = λ i l. rest.kept i (omega (arith, p.count, l)) ∙ p.kept i l;
  added = added_at;
}
  where
    added_at :
        (i : ℕ)
        → i < room rb (c ∷ cs)
        → some (entry rest.after (rb.avail + i)) ≡ get_elem? (c ∷ cs) i
    added_at zero l =
        ap (λ j. some (entry rest.after j)) {x = rb.avail + zero} {y = rb.avail} (omega arith)
        ∙ ap some (rest.kept rb.avail (omega (arith, p.count)) ∙ p.last)
    added_at (suc i) l =
        ap (λ j. some (entry rest.after j)) {x = rb.avail + suc i} {y = p.after.avail + i}
          (omega (arith, p.count))
        ∙ rest.added i (omega (arith, p.count, p.size_kept, l))

-- To a valid ring buffer of at most 2^15 bytes, `ringbuffer_add` adds as many of the given bytes
-- as there is room for and returns their number: they stand in order behind the bytes that were
-- there, which are kept, and the buffer stays valid.
pub ringbuffer_add-Added : (rb : RingBuffer) (cs : List ℕ) → IsValid rb → Added rb cs
ringbuffer_add-Added rb [] v = none-Added rb v
ringbuffer_add-Added rb (c ∷ cs) v = elim (Bool-cases (ltb rb.avail rb.size)) [
  | inl e ↦
      let h : rb.avail < rb.size = ground (arith, e) in
      let p = put rb c v h in next-Added rb c cs h p (ringbuffer_add-Added p.after cs p.valid)
  | inr e ↦ full-Added rb c cs v (ground (arith, e, v.fits))
]
