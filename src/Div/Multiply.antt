-- ===== src/Div/Multiply.antt =====
-- The upper half of the product of two 64-bit numbers, from the products of their halves.
use sancus_riot.Common.{ℕ, ◌+◌, ◌*◌, ◌/◌, ◌%◌, ◌^◌, ◌<◌, ◌≡◌, refl, sym, ap, ◌∙◌, arith}
use sancus_riot.Div.{div_mulhi64}

-- The product by halves.
expanded :
    (a_lo a_hi b_lo b_hi : ℕ)
    → (a_hi * 2 ^ 32 + a_lo) * (b_hi * 2 ^ 32 + b_lo)
      ≡ a_hi * b_hi * 2 ^ 64 + (a_hi * b_lo + b_hi * a_lo) * 2 ^ 32 + a_lo * b_lo
expanded a_lo a_hi b_lo b_hi = grind arith

product-lt : (a b : ℕ) → a < 2 ^ 32 → b < 2 ^ 32 → a * b < 2 ^ 64
product-lt a b h g = grind arith

product64-lt : (a b : ℕ) → a < 2 ^ 64 → b < 2 ^ 64 → a * b < 2 ^ 128
product64-lt a b h g = grind arith

-- The products of the halves, put together with their carry bits.
joined :
    (lo mid mid' hi : ℕ)
    → lo < 2 ^ 64
    → mid < 2 ^ 64
    → mid' < 2 ^ 64
    → hi < 2 ^ 64
    → hi * 2 ^ 64 + (mid + mid') * 2 ^ 32 + lo < 2 ^ 128
    → (hi % 2 ^ 64
          + mid % 2 ^ 64 / 2 ^ 32
          + mid' % 2 ^ 64 / 2 ^ 32
          + (mid % 2 ^ 64 % 2 ^ 32 + mid' % 2 ^ 64 % 2 ^ 32 + lo % 2 ^ 64 / 2 ^ 32)
            % 2 ^ 64
            / 2 ^ 32
            % 2 ^ 32)
        % 2 ^ 64
      ≡ (hi * 2 ^ 64 + (mid + mid') * 2 ^ 32 + lo) / 2 ^ 64
joined lo mid mid' hi h0 h1 h2 h3 h = omega arith

-- For two 64-bit numbers, `_div_mulhi64` is the upper half of their product.
pub div_mulhi64-eq : (a b : ℕ) → a < 2 ^ 64 → b < 2 ^ 64 → div_mulhi64 a b ≡ (a * b) / 2 ^ 64
unfolding div_mulhi64
div_mulhi64-eq a b ha hb =
    joined (a_lo * b_lo) (a_hi * b_lo) (b_hi * a_lo) (a_hi * b_hi)
      (product-lt a_lo b_lo (omega arith) (omega arith))
      (product-lt a_hi b_lo (omega arith) (omega arith))
      (product-lt b_hi a_lo (omega arith) (omega arith))
      (product-lt a_hi b_hi (omega arith) (omega arith)) (rw whole (product64-lt a b ha hb))
    ∙ ap (λ n. n / 2 ^ 64) whole
  where
    a_lo : ℕ
    a_lo = a % 2 ^ 32

    a_hi : ℕ
    a_hi = a / 2 ^ 32 % 2 ^ 32

    b_lo : ℕ
    b_lo = b % 2 ^ 32

    b_hi : ℕ
    b_hi = b / 2 ^ 32 % 2 ^ 32

    halves : (n : ℕ) → n < 2 ^ 64 → n / 2 ^ 32 % 2 ^ 32 * 2 ^ 32 + n % 2 ^ 32 ≡ n
    halves n h = omega arith

    whole : a_hi * b_hi * 2 ^ 64 + (a_hi * b_lo + b_hi * a_lo) * 2 ^ 32 + a_lo * b_lo ≡ a * b
    whole = sym (expanded a_lo a_hi b_lo b_hi) ∙ rw (halves a ha, halves b hb) refl
