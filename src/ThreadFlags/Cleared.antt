-- ===== src/ThreadFlags/Cleared.antt =====
-- What waiting returns and clears when flags are set already.
use sancus_riot.Common.{
  ℕ, ◌+◌, ◌-◌, ◌%◌, ◌^◌, ◌<◌, ◌≡◌, ◌≢◌, refl, sym, ap, ◌∙◌, min, bit_and, true, false, some, ◌==◌,
  ltb, if◌then◌else◌, arith, Bool-cases, inl, inr,
}
use mathlib.Core.Path.{subst}
use sancus_riot.Common.Bits.{bit, bit-le, bit-bit_and, bit-pow, bit_complement}
use sancus_riot.Common.Masks.{bit-ext, bit-high}
use sancus_riot.Bitarithm.Lowest.{IsLowest, lowest}
use sancus_riot.Bitarithm.Count.{bit_and-lt}
use sancus_riot.Bitarithm.Alone.{alone, lowest-lt}
use sancus_riot.Entry.{Caller}
use sancus_riot.Kernel.{Kernel}
use sancus_riot.Kernel.Monad.{pure}
use sancus_riot.Kernel.Within.{bind-eq}
use sancus_riot.ThreadFlags.{
  Flags, complement16, clear_atomic, begin_wait_any, clear_one, wait_or, thread_flags_wait_one,
}
use sancus_riot.ThreadFlags.Waits.{any-passes}

-- The bits of the complement, below 16 and above.
bit-complement16 : (m q : ℕ) → m < 2 ^ 16 → q < 16 → bit (complement16 m) q + bit m q ≡ 1
bit-complement16 m q lt h =
    ap (λ x. bit (2 ^ 16 - 1 - x) q + bit m q) (omega (arith, lt)) ∙ bit_complement 16 q m h lt

-- Clearing the bits of `m`, which are bits of `n`.
bit-cleared :
    (n m q : ℕ) → n < 2 ^ 16 → m < 2 ^ 16 → bit (bit_and n (complement16 m)) q ≡ bit n q - bit m q
bit-cleared n m q hn hm = elim (Bool-cases (ltb q 16)) [
  | inl e ↦ omega (
    arith,
    bit-bit_and q n (complement16 m),
    bit-complement16 m q hm (ground (arith, e)),
    bit-le n q,
    bit-le m q,
  )
  | inr e ↦ omega (arith, bit-bit_and q n (complement16 m), bit-high 16 n q hn (ground (arith, e)))
]

-- The bits that `clear_atomic` returns and those that it leaves.
clear_atomic-bits :
    (thread mask q : ℕ) (f : Flags)
    → f.flags thread < 2 ^ 16
    → mask < 2 ^ 16
    → (bit (clear_atomic thread mask f).0 q ≡ min (bit mask q) (bit (f.flags thread) q))
      × (bit ((clear_atomic thread mask f).1.flags thread) q ≡ bit (f.flags thread) q - bit mask q)
unfolding clear_atomic
clear_atomic-bits thread mask q f hf hm = (
  bit-bit_and q mask (f.flags thread),
  rw self (
      omega (
        arith,
        bit-cleared (f.flags thread) (bit_and mask (f.flags thread)) q hf
            (bit_and-lt 16 mask (f.flags thread) hm),
        bit-bit_and q mask (f.flags thread),
        bit-le mask q,
        bit-le (f.flags thread) q,
      )),
)
  where
    self : thread == thread ≡ true
    self = ground arith

clear_atomic-others :
    (thread mask : ℕ) (f : Flags) (n : ℕ)
    → n ≢ thread
    → (clear_atomic thread mask f).1.flags n ≡ f.flags n
unfolding clear_atomic
clear_atomic-others thread mask f n ne = ground (arith, ne)

clear_atomic-waiting :
    (thread mask : ℕ) (f : Flags) → (clear_atomic thread mask f).1.wait_data ≡ f.wait_data
unfolding clear_atomic
clear_atomic-waiting thread mask f = refl

-- What waiting for one flag of `mask` does when one is set.
pub record OneCleared (fuel : ℕ) (caller : Caller) (k : Kernel) (f : Flags) (mask : ℕ)
    : Type 0 where
  pub place : ℕ
  pub first : IsLowest (bit_and (f.flags k.active_thread) mask) place
  pub after : Flags
  pub returns : thread_flags_wait_one fuel caller mask f k ≡ some ((some (2 ^ place), after), k)
  pub left :
      (q : ℕ)
      → bit (after.flags k.active_thread) q
        ≡ (if place == q then 0 else bit (f.flags k.active_thread) q)
  pub others : (n : ℕ) → n ≢ k.active_thread → after.flags n ≡ f.flags n
  pub waiting : after.wait_data ≡ f.wait_data

pub clear_one-eq :
    (mask : ℕ) (f : Flags) (k : Kernel)
    → k.active_thread == 0 ≡ false
    → clear_one mask f k ≡ (
        let tmp = bit_and (f.flags k.active_thread) mask in
        some (clear_atomic k.active_thread (bit_and tmp ((complement16 tmp + 1) % 2 ^ 16)) f, k))
unfolding clear_one
clear_one-eq mask f k nn = rw nn refl

one-eq :
    (fuel : ℕ) (caller : Caller) (mask : ℕ) (f : Flags) (k : Kernel)
    → k.active_thread == 0 ≡ false
    → begin_wait_any mask f k ≡ some ((false, f), k)
    → thread_flags_wait_one fuel caller mask f k ≡ (
        let tmp = bit_and (f.flags k.active_thread) mask in
        let r = clear_atomic k.active_thread (bit_and tmp ((complement16 tmp + 1) % 2 ^ 16)) f in
        some ((some r.0, r.1), k))
unfolding thread_flags_wait_one wait_or
one-eq fuel caller mask f k nn e =
    bind-eq (begin_wait_any mask f) (wait_or fuel caller (clear_one mask)) k k (false, f) e
    ∙ bind-eq (clear_one mask f) (λ (mask, f). pure (some mask, f)) k k _ (clear_one-eq mask f k nn)

-- When a flag of the mask is set for the active thread, `thread_flags_wait_one` returns the least
-- such flag alone, clears just this flag and leaves the thread running; the flags of other threads
-- stay.
pub thread_flags_wait_one-OneCleared :
    (fuel : ℕ) (caller : Caller) (mask : ℕ) (f : Flags) (k : Kernel)
    → k.active_thread ≢ 0
    → f.flags k.active_thread < 2 ^ 16
    → bit_and (f.flags k.active_thread) mask ≢ 0
    → OneCleared fuel caller k f mask
thread_flags_wait_one-OneCleared fuel caller mask f k nn hf some_set = record {
  place = p;
  first = l;
  after = (clear_atomic me (2 ^ p) f).1;
  returns =
      one-eq fuel caller mask f k (ground (arith, nn))
        (any-passes k f mask (ground (arith, nn)) (ground (arith, some_set)))
      ∙ ap (λ m. some ((some (clear_atomic me m f).0, (clear_atomic me m f).1), k)) one
      ∙ ap (λ m. some ((some m, (clear_atomic me (2 ^ p) f).1), k)) returned;
  left = λ q. left_at q;
  others = λ n ne. clear_others n ne;
  waiting = clear_waiting;
}
  where
    me : ℕ
    me = k.active_thread

    tmp : ℕ
    tmp = bit_and (f.flags me) mask

    tmp-lt : tmp < 2 ^ 16
    tmp-lt = bit_and-lt 16 (f.flags me) mask hf

    p : ℕ
    p = (lowest tmp tmp (omega arith) (omega (arith, some_set))).0

    l : IsLowest tmp p
    l = (lowest tmp tmp (omega arith) (omega (arith, some_set))).1

    one : bit_and tmp ((complement16 tmp + 1) % 2 ^ 16) ≡ 2 ^ p
    one =
        ap (bit_and tmp) {x = (complement16 tmp + 1) % 2 ^ 16} {y = 2 ^ 16 - tmp}
          (omega (arith, tmp-lt, some_set))
        ∙ alone 16 tmp p l (omega (arith, some_set)) tmp-lt (lowest-lt 16 tmp p l tmp-lt)

    -- The flag is set.
    flag_set : bit (f.flags me) p ≡ 1
    flag_set = omega (arith, l.set, bit-bit_and p (f.flags me) mask, bit-le (f.flags me) p)

    power-lt : 2 ^ p < 2 ^ 16
    power-lt =
        subst (λ n. n < 2 ^ 16) one (bit_and-lt 16 tmp ((complement16 tmp + 1) % 2 ^ 16) tmp-lt)

    bits :
        (q : ℕ)
        → (bit (clear_atomic me (2 ^ p) f).0 q ≡ min (bit (2 ^ p) q) (bit (f.flags me) q))
          × (bit ((clear_atomic me (2 ^ p) f).1.flags me) q ≡ bit (f.flags me) q - bit (2 ^ p) q)
    bits q = clear_atomic-bits me (2 ^ p) q f hf power-lt

    returned : (clear_atomic me (2 ^ p) f).0 ≡ 2 ^ p
    returned = bit-ext (clear_atomic me (2 ^ p) f).0 (2 ^ p) λ q. elim (Bool-cases (p == q)) [
      | inl e ↦
          let e' : p ≡ q = ground (arith, e) in
          omega (arith, (bits q).0, ap (bit (f.flags me)) (sym e') ∙ flag_set, bit-le (2 ^ p) q)
      | inr e ↦ let z : bit (2 ^ p) q ≡ 0 = bit-pow p q ∙ rw e refl in omega (arith, (bits q).0, z)
    ]

    left_at :
        (q : ℕ)
        → bit ((clear_atomic me (2 ^ p) f).1.flags me) q
          ≡ (if p == q then 0 else bit (f.flags me) q)
    left_at q = ground (arith, (bits q).1, bit-pow p q, bit-le (f.flags me) q)

    clear_others : (n : ℕ) → n ≢ me → (clear_atomic me (2 ^ p) f).1.flags n ≡ f.flags n
    clear_others n ne = clear_atomic-others me (2 ^ p) f n ne

    clear_waiting : (clear_atomic me (2 ^ p) f).1.wait_data ≡ f.wait_data
    clear_waiting = clear_atomic-waiting me (2 ^ p) f
