-- ===== src/Div.antt =====
-- sys/div/div.c and sys/include/div.h: division by constants on 64-bit numbers, by multiplication
-- with an approximation of the inverse. A cast to a smaller type is a remainder.
pub mod Multiply
pub mod Constants
mod Tests
use sancus_riot.Common.{
  ℕ, ◌+◌, ◌-◌, ◌*◌, ◌/◌, ◌%◌, ◌^◌, Option, none, some, ltb, leb, if◌then◌else◌,
}

-- DIV_H_INV_15625_32, DIV_H_INV_15625_64 and DIV_H_INV_15625_SHIFT
abbrev pub inv_15625_32 : ℕ
inv_15625_32 = 0x431bde83

abbrev pub inv_15625_64 : ℕ
inv_15625_64 = 0x431bde82d7b634db

abbrev pub inv_15625_shift : ℕ
inv_15625_shift = 12

-- `_div_mulhi64`
unfoldable pub div_mulhi64 : ℕ → ℕ → ℕ
div_mulhi64 a b =
    let a_lo = a % 2 ^ 32 in
    let a_hi = a / 2 ^ 32 % 2 ^ 32 in
    let b_lo = b % 2 ^ 32 in
    let b_hi = b / 2 ^ 32 % 2 ^ 32 in
    let a_x_b_mid = (a_hi * b_lo) % 2 ^ 64 in
    let b_x_a_mid = (b_hi * a_lo) % 2 ^ 64 in
    let a_x_b_lo = (a_lo * b_lo) % 2 ^ 64 in
    let a_x_b_hi = (a_hi * b_hi) % 2 ^ 64 in
    let carry_bits =
      (a_x_b_mid % 2 ^ 32 + b_x_a_mid % 2 ^ 32 + a_x_b_lo / 2 ^ 32) % 2 ^ 64 / 2 ^ 32 % 2 ^ 32 in
    (a_x_b_hi + a_x_b_mid / 2 ^ 32 + b_x_a_mid / 2 ^ 32 + carry_bits) % 2 ^ 64

unfoldable pub div_u64_by_15625 : ℕ → ℕ
div_u64_by_15625 val =
    if ltb 16383999997 val
    then div_mulhi64 inv_15625_64 val / 2 ^ inv_15625_shift
    else (val * inv_15625_32) % 2 ^ 64 / 2 ^ (inv_15625_shift + 32)

-- `none` is the assertion.
unfoldable pub div_u64_by_125 : ℕ → Option ℕ
div_u64_by_125 val =
    let hi = val / 2 ^ 32 % 2 ^ 32 in
    let lo = val % 2 ^ 32 in
    let r = (lo / 2 ^ 16 + hi * 2 ^ 16 % 2 ^ 32) % 2 ^ 32 in
    let res = r / 125 in
    let r' = (r % 125 * 2 ^ 16 % 2 ^ 32 + lo % 2 ^ 16) % 2 ^ 32 in
    if leb val 536870911999 then some ((res * 2 ^ 16 % 2 ^ 32 + r' / 125) % 2 ^ 32) else none

unfoldable pub div_u64_by_1000000 : ℕ → ℕ
div_u64_by_1000000 val = div_u64_by_15625 val / 2 ^ 6

unfoldable pub div_u32_by_15625div512 : ℕ → ℕ
div_u32_by_15625div512 val = (val * inv_15625_32) % 2 ^ 64 / 2 ^ (inv_15625_shift + 32 - 9) % 2 ^ 32

unfoldable pub div_u64_by_15625div512 : ℕ → ℕ
div_u64_by_15625div512 val =
    if ltb 16383999997 val
    then div_mulhi64 inv_15625_64 val / 2 ^ (inv_15625_shift - 9)
    else (val * inv_15625_32) % 2 ^ 64 / 2 ^ (inv_15625_shift + 32 - 9)

unfoldable pub div_u32_by_44488 : ℕ → ℕ
div_u32_by_44488 val = (val * 0xBC8F1391) % 2 ^ 64 / 2 ^ (15 + 32) % 2 ^ 32

unfoldable pub div_u32_mod_44488 : ℕ → ℕ
unfolding div_u32_by_44488
div_u32_mod_44488 val = (val + 2 ^ 32 - div_u32_by_44488 val * 44488 % 2 ^ 32) % 2 ^ 32
