-- ===== src/Common/Bits.antt =====
-- The bits of machine words: single bits of `&`, `|`, `~` and `1 << p`, for every width.
use Prim.Native.Nat.{
  ℕ, zero, suc, ◌+◌, ◌-◌, ◌*◌, ◌/◌, ◌%◌, ◌^◌, ◌≤◌, ◌<◌, min, max, bit_and, bit_or, digits,
  bit_and-bitwise, bit_or-bitwise,
}
use mathlib.Core.Path.{◌≡◌, refl, sym, ◌∙◌}
use mathlib.Core.Bool.{Bool, true, ◌&&◌}
use mathlib.Core.Logic.{inl, inr}
use native.Mathlib.Omega.{arith}
use native.Mathlib.Nat.{
  pow-suc, one-le-pow, div-add-mod, mod-lt, mod-eq_of_lt, add-mul-mod_self_left,
}
use sancus_riot.Common.Tests.{◌==◌, if◌then◌else◌, Bool-cases}

-- Bit `q` of `n`, as 0 or 1.
abbrev pub bit : ℕ → ℕ → ℕ
bit n zero = n % 2
bit n (suc q) = bit (n / 2) q

pub zero-bit : (q : ℕ) → bit 0 q ≡ 0
zero-bit zero = refl
zero-bit (suc q) = zero-bit q

-- A native operation takes its operands digit by digit: `op` at two digits, `rest` of the second
-- operand once the first has no more.
module _ (rest : ℕ → ℕ) (op : ℕ → ℕ → ℕ) (digit : (i j : ℕ) → i ≤ 1 → j ≤ 1 → op i j ≤ 1)
    (at_rest : (y q : ℕ) → bit (rest y) q ≡ op 0 (bit y q)) where
  bit-digits :
      (q fuel x y : ℕ) → x ≤ fuel → bit (digits rest op fuel x y) q ≡ op (bit x q) (bit y q)
  bit-digits q zero zero y h = rw (at_rest y q, zero-bit q) refl
  bit-digits q (suc fuel) zero y h = rw (at_rest y q, zero-bit q) refl
  bit-digits q zero (suc x) y h = absurd (omega (arith, h))
  bit-digits zero (suc fuel) (suc x) y h =
      omega (arith, digit (suc x % 2) (y % 2) (omega arith) (omega arith))
  bit-digits (suc q) (suc fuel) (suc x) y h =
      let higher = digits rest op fuel (suc x / 2) (y / 2) in
      let lowest = op (suc x % 2) (y % 2) in
      let half : (higher * 2 + lowest) / 2 ≡ higher =
        omega (arith, digit (suc x % 2) (y % 2) (omega arith) (omega arith)) in
      rw half (bit-digits q fuel (suc x / 2) (y / 2) (omega (arith, h)))

pub bit-le : (n q : ℕ) → bit n q ≤ 1
bit-le n zero = omega arith
bit-le n (suc q) = bit-le (n / 2) q

pub bit-bit_and : (q a b : ℕ) → bit (bit_and a b) q ≡ min (bit a q) (bit b q)
bit-bit_and q a b = rw (bit_and-bitwise a b) (
    bit-digits (λ y. 0) min (λ i j h k. omega arith) (λ y r. omega (arith, zero-bit r)) q a a b
      (omega arith))

pub bit-bit_or : (q a b : ℕ) → bit (bit_or a b) q ≡ max (bit a q) (bit b q)
bit-bit_or q a b =
    rw (bit_or-bitwise a b)
      (bit-digits (λ y. y) max (λ i j h k. omega arith) (λ y r. omega arith) q a a b (omega arith))

-- Bit `q` of `1 << p`.
pub bit-pow : (p q : ℕ) → bit (2 ^ p) q ≡ (if p == q then 1 else 0)
bit-pow zero zero = refl
bit-pow zero (suc q) = ground (arith, zero-bit q)
bit-pow (suc p) zero = ground (arith, pow-suc 2 p)
bit-pow (suc p) (suc q) =
    let half : 2 ^ suc p / 2 ≡ 2 ^ p = omega (arith, pow-suc 2 p) in
    rw half (ground (arith, bit-pow p q))

-- Bit `q` of the complement of `x` in a word of `w` bits.
pub bit_complement : (w q x : ℕ) → q < w → x < 2 ^ w → bit (2 ^ w - 1 - x) q + bit x q ≡ 1
bit_complement zero q x h f = absurd (omega arith)
bit_complement (suc w) zero x h f = omega (arith, pow-suc 2 w)
bit_complement (suc w) (suc q) x h f =
    let half : (2 ^ suc w - 1 - x) / 2 ≡ 2 ^ w - 1 - x / 2 = omega (arith, pow-suc 2 w) in
    rw half (bit_complement w q (x / 2) (omega arith) (omega (arith, pow-suc 2 w)))

mod-mul-two : (x m : ℕ) → 0 < m → (x % (m * 2) / 2 ≡ x / 2 % m) × (x % (m * 2) % 2 ≡ x % 2)
mod-mul-two x m h =
    let r = x % (m * 2) in
    let q = x / (m * 2) in
    let e : m * q * 2 + r ≡ x = omega (arith, div-add-mod x (m * 2)) in
    let lt : r < m * 2 = mod-lt x (omega arith) in
    let e' : x / 2 ≡ r / 2 + m * q = omega arith in
    let small : r / 2 % m ≡ r / 2 = mod-eq_of_lt (omega arith) in
    (rw e' (sym (add-mul-mod_self_left (r / 2) m q ∙ small)), omega arith)

-- A word keeps its low bits when it is cut to `w` bits.
pub bit-mod : (w q x : ℕ) → q < w → bit (x % 2 ^ w) q ≡ bit x q
bit-mod zero q x h = absurd (omega arith)
bit-mod (suc w) zero x h = rw (pow-suc 2 w) (mod-mul-two x (2 ^ w) (one-le-pow w 2 (omega arith))).1
bit-mod (suc w) (suc q) x h =
    let half : x % 2 ^ suc w / 2 ≡ x / 2 % 2 ^ w =
      rw (pow-suc 2 w) (mod-mul-two x (2 ^ w) (one-le-pow w 2 (omega arith))).0 in
    rw half (bit-mod w q (x / 2) (omega arith))

-- Whether `test` answers true at each number less than `bound`.
abbrev pub all_below : ℕ → (ℕ → Bool) → Bool
all_below zero test = true
all_below (suc bound) test = all_below bound test && test bound

pub all_below_at :
    (bound : ℕ) (test : ℕ → Bool) (i : ℕ) → all_below bound test ≡ true → i < bound → test i ≡ true
all_below_at zero test i all h = absurd (omega (arith, h))
all_below_at (suc bound) test i all h = elim (Bool-cases (i == bound)) [
  | inl e ↦ let e' : i ≡ bound = ground (arith, e) in rw e' (ground (arith, all))
  | inr e ↦ all_below_at bound test i (ground (arith, all)) (ground (arith, e))
]
