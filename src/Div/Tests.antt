-- ===== src/Div/Tests.antt =====
-- Examples for the divisions: the first number whose quotient is one too large, its predecessor, and
-- numbers of more than 32 bits.
use sancus_riot.Common.{◌*◌, ◌/◌, ◌+◌, ◌^◌, ◌≡◌, refl, arith}
use sancus_riot.Div.{div_mulhi64, div_u64_by_15625, div_u32_by_15625div512}
use sancus_riot.Div.Multiply.{div_mulhi64-eq}
use sancus_riot.Div.Constants.{below, div_u64_by_15625-exact, div_u64_by_15625-gap}

div_mulhi64-eq_example :
    div_mulhi64 0x123456789abcdef0 0xfedcba9876543210
    ≡ (0x123456789abcdef0 * 0xfedcba9876543210) / 2 ^ 64
div_mulhi64-eq_example =
    div_mulhi64-eq 0x123456789abcdef0 0xfedcba9876543210 (omega arith) (omega arith)

div_u64_by_15625-exact_example : div_u64_by_15625 7154218748 ≡ 7154218748 / 15625
div_u64_by_15625-exact_example = div_u64_by_15625-exact 7154218748 (below (omega arith))

div_u64_by_15625-gap_example : div_u64_by_15625 7154218749 ≡ 7154218749 / 15625 + 1
div_u64_by_15625-gap_example = div_u64_by_15625-gap 7154218749 (omega arith) (omega arith) refl

-- The first number at which `div_u32_by_15625div512` differs from the quotient.
off_by_one : div_u32_by_15625div512 13978302 ≡ 13978302 * 512 / 15625 + 1
unfolding div_u32_by_15625div512
off_by_one = refl
