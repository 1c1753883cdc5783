-- ===== src/Common/Masks.antt =====
-- Masks and words put together: `&` with `2 ^ k - 1`, and `|` of a shifted number and a low one.
use Prim.Native.Nat.{ℕ, zero, suc, ◌+◌, ◌-◌, ◌*◌, ◌/◌, ◌%◌, ◌^◌, ◌≤◌, ◌<◌, bit_and, bit_or}
use mathlib.Core.Path.{subst, ◌≡◌, sym, ◌∙◌, ap}
use mathlib.Core.Logic.{inl, inr}
use native.Mathlib.Omega.{arith}
use native.Mathlib.Nat.{pow-suc, mod-lt}
use sancus_riot.Common.Tests.{ltb, Bool-cases}
use sancus_riot.Common.Bits.{
  bit, zero-bit, bit-le, bit-bit_and, bit-bit_or, bit-mod, bit_complement,
}

same_up_to : (fuel a b : ℕ) → a ≤ fuel → b ≤ fuel → ((q : ℕ) → bit a q ≡ bit b q) → a ≡ b
same_up_to zero a b ha hb h = omega (arith, ha, hb)
same_up_to (suc fuel) a b ha hb h = omega (
  arith,
  h 0,
  same_up_to fuel (a / 2) (b / 2) (omega (arith, ha)) (omega (arith, hb)) (λ q. h (suc q)),
)

-- Numbers with the same bits are the same.
pub bit-ext : (a b : ℕ) → ((q : ℕ) → bit a q ≡ bit b q) → a ≡ b
bit-ext a b h = same_up_to (a + b) a b (omega arith) (omega arith) h

pub bit-high : (k x q : ℕ) → x < 2 ^ k → k ≤ q → bit x q ≡ 0
bit-high zero x q h l = let z : x ≡ 0 = omega (arith, h) in ap (λ y. bit y q) z ∙ zero-bit q
bit-high (suc k) x zero h l = absurd (omega (arith, l))
bit-high (suc k) x (suc q) h l =
    bit-high k (x / 2) q (omega (arith, h, pow-suc 2 k)) (omega (arith, l))

pub pow-positive : (k : ℕ) → 0 < 2 ^ k
pow-positive zero = omega arith
pow-positive (suc k) = omega (arith, pow-suc 2 k, pow-positive k)

bit-ones : (k q : ℕ) → q < k → bit (2 ^ k - 1) q ≡ 1
bit-ones k q lt =
    let same : 2 ^ k - 1 - 0 ≡ 2 ^ k - 1 = omega arith in
    ap (λ x. bit x q) (sym same)
    ∙ omega (arith, bit_complement k q 0 lt (pow-positive k), zero-bit q)

-- `n & (2 ^ k - 1)` is `n % 2 ^ k`.
pub bit_and-mask : (n k : ℕ) → bit_and n (2 ^ k - 1) ≡ n % 2 ^ k
bit_and-mask n k = bit-ext (bit_and n (2 ^ k - 1)) (n % 2 ^ k) λ q. elim (Bool-cases (ltb q k)) [
  | inl e ↦
      let lt : q < k = ground (arith, e) in
      bit-bit_and q n (2 ^ k - 1) ∙ omega (arith, bit-mod k q n lt, bit-le n q, bit-ones k q lt)
  | inr e ↦
      let le : k ≤ q = ground (arith, e) in
      bit-bit_and q n (2 ^ k - 1)
      ∙ omega (
        arith,
        bit-high k (2 ^ k - 1) q (omega (arith, pow-positive k)) le,
        bit-high k (n % 2 ^ k) q (mod-lt n (pow-positive k)) le,
      )
]

-- `h << 8 | l` for a byte `l`.
pub bit_or-byte : (h l : ℕ) → l < 256 → bit_or (h * 2 ^ 8) l ≡ h * 2 ^ 8 + l
bit_or-byte h l lt = bit-ext (bit_or (h * 2 ^ 8) l) (h * 2 ^ 8 + l) (at_bit h l lt)
  where
    high :
        (h l q : ℕ)
        → l < 256
        → bit (h * 2 ^ 8 + l) (suc (suc (suc (suc (suc (suc (suc (suc q)))))))) ≡ bit h q
    high h l q lt = ap (λ x. bit x q) (omega (arith, lt))

    at_high :
        (h l r : ℕ)
        → l < 256
        → let q = suc (suc (suc (suc (suc (suc (suc (suc r))))))) in
          bit (bit_or (h * 2 ^ 8) l) q ≡ bit (h * 2 ^ 8 + l) q
    at_high h l r lt =
        let q = suc (suc (suc (suc (suc (suc (suc (suc r))))))) in
        bit-bit_or q (h * 2 ^ 8) l
        ∙ omega (
          arith,
          high h l r lt,
          ap (λ x. bit x q) {x = h * 2 ^ 8} {y = h * 2 ^ 8 + 0} (omega arith),
          high h 0 r (omega arith),
          bit-high 8 l q lt (omega arith),
        )

    at_bit : (h l : ℕ) → l < 256 → (q : ℕ) → bit (bit_or (h * 2 ^ 8) l) q ≡ bit (h * 2 ^ 8 + l) q
    at_bit h l lt q = elim (Bool-cases (ltb q 8)) [
      | inl e ↦
          let small : q < 8 = ground (arith, e) in
          bit-bit_or q (h * 2 ^ 8) l
          ∙ omega (
            arith,
            bit-mod 8 q (h * 2 ^ 8) small,
            bit-mod 8 q (h * 2 ^ 8 + l) small,
            ap (λ x. bit x q) {x = h * 2 ^ 8 % 2 ^ 8} {y = 0} (omega arith),
            ap (λ x. bit x q) {x = (h * 2 ^ 8 + l) % 2 ^ 8} {y = l} (omega (arith, lt)),
            zero-bit q,
          )
      | inr e ↦
          let r = q - 8 in
          let same : suc (suc (suc (suc (suc (suc (suc (suc r))))))) ≡ q = ground (arith, e) in
          subst (λ q. bit (bit_or (h * 2 ^ 8) l) q ≡ bit (h * 2 ^ 8 + l) q) same (at_high h l r lt)
    ]
