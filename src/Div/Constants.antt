-- ===== src/Div/Constants.antt =====
-- Division by constants, against the division that it stands for.
use sancus_riot.Common.{ℕ, ◌+◌, ◌*◌, ◌/◌, ◌%◌, ◌^◌, ◌≤◌, ◌<◌, ◌≡◌, some, arith}
use sancus_riot.Div.{
  inv_15625_64, div_u64_by_15625, div_u64_by_125, div_u64_by_1000000, div_u32_by_15625div512,
  div_u64_by_15625div512, div_u32_by_44488, div_u32_mod_44488,
}
use sancus_riot.Div.Multiply.{div_mulhi64-eq}

-- Where the 32-bit inverse is near enough, and where the 64-bit one is used.
pub data IsExact (val : ℕ) : Type 0 where
  below : val < 7154218749 → IsExact val
  above : 16383999997 < val → val < 2 ^ 64 → IsExact val

-- `div_u64_by_15625` divides by 15625 any number below 7154218749, and any 64-bit number above
-- 16383999997.
pub div_u64_by_15625-exact : (val : ℕ) → IsExact val → div_u64_by_15625 val ≡ val / 15625
unfolding div_u64_by_15625
div_u64_by_15625-exact val (below l) = ground arith
div_u64_by_15625-exact val (above l h) = ground (arith, div_mulhi64-eq inv_15625_64 val)

-- From 7154218749 to 16383999997, for a number that leaves the remainder 15624, `div_u64_by_15625`
-- is one more than the quotient.
pub div_u64_by_15625-gap :
    (val : ℕ)
    → 7154218749 ≤ val
    → val ≤ 16383999997
    → val % 15625 ≡ 15624
    → div_u64_by_15625 val ≡ val / 15625 + 1
unfolding div_u64_by_15625
div_u64_by_15625-gap val l h r = ground arith

-- The division of microseconds into seconds, which is one step more.
div_u64_by_1000000-exact : (val : ℕ) → IsExact val → div_u64_by_1000000 val ≡ val / 1000000
unfolding div_u64_by_1000000
div_u64_by_1000000-exact val h = omega (arith, div_u64_by_15625-exact val h)

div_u64_by_125-exact : (val : ℕ) → val ≤ 536870911999 → div_u64_by_125 val ≡ some (val / 125)
unfolding div_u64_by_125
div_u64_by_125-exact val h = ground arith

div_u32_by_44488-exact : (val : ℕ) → val < 2 ^ 32 → div_u32_by_44488 val ≡ val / 44488
unfolding div_u32_by_44488
div_u32_by_44488-exact val h = omega arith

div_u32_mod_44488-exact : (val : ℕ) → val < 2 ^ 32 → div_u32_mod_44488 val ≡ val % 44488
unfolding div_u32_mod_44488
div_u32_mod_44488-exact val h = omega (arith, div_u32_by_44488-exact val h)

-- The divisions by 15625 / 512 give one too many at times.
abbrev pub Within : ℕ → ℕ → Type 0
Within n m = (m ≤ n) × (n ≤ m + 1)

div_u32_by_15625div512_bounds :
    (val : ℕ) → val < 2 ^ 32 → Within (div_u32_by_15625div512 val) (val * 512 / 15625)
unfolding div_u32_by_15625div512
div_u32_by_15625div512_bounds val h = omega arith

div_u32_by_15625div512-exact :
    (val : ℕ) → val < 13978302 → div_u32_by_15625div512 val ≡ val * 512 / 15625
unfolding div_u32_by_15625div512
div_u32_by_15625div512-exact val h = omega arith

-- For a 64-bit number, `div_u64_by_15625div512` is the quotient of 512 times the number by 15625,
-- or one more.
pub div_u64_by_15625div512_bounds :
    (val : ℕ) → val < 2 ^ 64 → Within (div_u64_by_15625div512 val) (val * 512 / 15625)
unfolding div_u64_by_15625div512
div_u64_by_15625div512_bounds val h = ground (arith, div_mulhi64-eq inv_15625_64 val)
