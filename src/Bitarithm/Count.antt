-- ===== src/Bitarithm/Count.antt =====
-- Counting the bits by clearing the least one until none is left; and the greatest bit.
use sancus_riot.Common.{
  ℕ, zero, suc, ◌+◌, ◌-◌, ◌/◌, ◌%◌, ◌^◌, ◌<◌, ◌≤◌, ◌≡◌, refl, ap, ◌∙◌, some, bit_and, arith, true,
  ◌==◌, Bool-cases, inl, inr,
}
use native.Mathlib.Nat.{pow-suc}
use sancus_riot.Common.Bits.{zero-bit, bit-bit_and}
use sancus_riot.Common.Masks.{bit-ext}
use sancus_riot.Bitarithm.{
  count_loop, bitarithm_bits_set, bitarithm_bits_set_u32, msb_loop, bitarithm_msb,
}
use sancus_riot.Bitarithm.Lowest.{half-bit_and, parity-bit_and, bit_and_self}

-- The number of ones among the `w` lowest bits.
unfoldable pub ones : ℕ → ℕ → ℕ
ones zero v = 0
ones (suc w) v = v % 2 + ones w (v / 2)

-- `v & (v - 1)` of an odd number and of an even one.
half_odd : (v : ℕ) → v % 2 ≡ 1 → bit_and v (v - 1) / 2 ≡ v / 2
half_odd v odd =
    half-bit_and v (v - 1) ∙ ap (bit_and (v / 2)) (omega (arith, odd)) ∙ bit_and_self (v / 2)

half_even : (v : ℕ) → v % 2 ≡ 0 → bit_and v (v - 1) / 2 ≡ bit_and (v / 2) (v / 2 - 1)
half_even v even = half-bit_and v (v - 1) ∙ ap (bit_and (v / 2)) (omega (arith, even))

-- Clearing the least bit takes one away.
ones-cleared : (w v : ℕ) → 0 < v → v < 2 ^ w → suc (ones w (bit_and v (v - 1))) ≡ ones w v
unfolding ones
ones-cleared zero v nz lt = absurd (omega (arith, nz, lt))
ones-cleared (suc w) v nz lt = elim (Bool-cases (v % 2 == 0)) [
  | inl e ↦
      let even : v % 2 ≡ 0 = ground (arith, e) in
      omega (
        arith,
        even,
        parity-bit_and v (v - 1),
        ap (ones w) (half_even v even),
        ones-cleared w (v / 2) (omega (arith, nz, even)) (omega (arith, lt, pow-suc 2 w)),
      )
  | inr e ↦
      let odd : v % 2 ≡ 1 = ground (arith, e) in
      omega (arith, odd, parity-bit_and v (v - 1), ap (ones w) (half_odd v odd))
]

ones-zero : (w : ℕ) → ones w 0 ≡ 0
unfolding ones
ones-zero zero = refl
ones-zero (suc w) = omega (arith, ones-zero w)

ones-le : (w v : ℕ) → ones w v ≤ w
unfolding ones
ones-le zero v = omega arith
ones-le (suc w) v = omega (arith, ones-le w (v / 2))

zero_bit_and : (b : ℕ) → bit_and 0 b ≡ 0
zero_bit_and b = bit-ext (bit_and 0 b) 0 λ q. bit-bit_and q 0 b ∙ omega (arith, zero-bit q)

pub bit_and-lt : (w a b : ℕ) → a < 2 ^ w → bit_and a b < 2 ^ w
bit_and-lt zero a b lt =
    omega (arith, ap (λ x. bit_and x b) {x = a} {y = 0} (omega (arith, lt)), zero_bit_and b)
bit_and-lt (suc w) a b lt = omega (
  arith,
  pow-suc 2 w,
  half-bit_and a b,
  bit_and-lt w (a / 2) (b / 2) (omega (arith, lt, pow-suc 2 w)),
)

ones_of_zero : (w v : ℕ) → v == 0 ≡ true → ones w v ≡ 0
ones_of_zero w v e = ap (ones w) {x = v} {y = 0} (ground (arith, e)) ∙ ones-zero w

count_loop-ones :
    (w fuel v c : ℕ) → v < 2 ^ w → ones w v ≤ fuel → count_loop fuel v c ≡ some (c + ones w v)
unfolding count_loop
count_loop-ones w zero v c lt h = elim (Bool-cases (v == 0)) [
  | inl e ↦ rw e (ap some (omega (arith, ones_of_zero w v e)))
  | inr e ↦ absurd (omega (arith, h, ones-cleared w v (ground (arith, e)) lt))
]
count_loop-ones w (suc fuel) v c lt h = elim (Bool-cases (v == 0)) [
  | inl e ↦ rw e (ap some (omega (arith, ones_of_zero w v e)))
  | inr e ↦
      let step = ones-cleared w v (ground (arith, e)) lt in
      rw e (
        count_loop-ones w fuel (bit_and v (v - 1)) (c + 1) (bit_and-lt w v (v - 1) lt)
          (omega (arith, h, step))
        ∙ ap some (omega (arith, step)))
]

-- `bitarithm_bits_set` and `bitarithm_bits_set_u32`, which clear the least bit until none is left,
-- end within as many rounds as there are bits, and return the number of ones among the 16 and the
-- 32 bits.
pub bits_set-ones :
    (v u : ℕ)
    → v < 2 ^ 16
    → u < 2 ^ 32
    → (bitarithm_bits_set v ≡ some (ones 16 v)) × (bitarithm_bits_set_u32 u ≡ some (ones 32 u))
unfolding bitarithm_bits_set bitarithm_bits_set_u32
bits_set-ones v u hv hu = (
  count_loop-ones 16 16 v 0 hv (ones-le 16 v) ∙ ap some (omega arith),
  count_loop-ones 32 32 u 0 hu (ones-le 32 u) ∙ ap some (omega arith),
)

msb_loop-bounds :
    (w v r : ℕ)
    → 0 < v
    → v < 2 ^ w
    → (p : ℕ) × (msb_loop w v r ≡ some (r + p)) × (2 ^ p ≤ v) × (v < 2 ^ suc p)
unfolding msb_loop
msb_loop-bounds zero v r nz lt = absurd (omega (arith, nz, lt))
msb_loop-bounds (suc w) v r nz lt = elim (Bool-cases (v / 2 == 0)) [
  | inl e ↦ (0, rw e (ap some (omega arith)), omega (arith, nz), ground (arith, e, nz))
  | inr e ↦
      let (p, run, low, high) =
        msb_loop-bounds w (v / 2) (r + 1) (ground (arith, e)) (omega (arith, lt, pow-suc 2 w)) in
      (
        suc p,
        rw e (run ∙ ap some (omega arith)),
        omega (arith, low, pow-suc 2 p),
        omega (arith, high, pow-suc 2 (suc p)),
      )
]

-- For every number of 16 bits but 0, `bitarithm_msb` ends and returns the position p of the
-- greatest bit: the number is at least 2^p and less than 2^(p + 1).
pub bitarithm_msb-bounds :
    (v : ℕ)
    → 0 < v
    → v < 2 ^ 16
    → (p : ℕ) × (bitarithm_msb v ≡ some p) × (2 ^ p ≤ v) × (v < 2 ^ suc p)
unfolding bitarithm_msb
bitarithm_msb-bounds v nz lt =
    let (p, run, low, high) = msb_loop-bounds 16 v 0 nz lt in
    (p, run ∙ ap some (omega arith), low, high)
