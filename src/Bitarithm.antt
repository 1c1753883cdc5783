-- ===== src/Bitarithm.antt =====
-- core/bitarithm.c and core/include/bitarithm.h, on a processor whose `unsigned` is 16 bits wide:
-- ARCH_32_BIT is false. `none` is a loop that has not ended.
pub mod Lowest
pub mod Alone
pub mod Count
pub mod Lookup
mod Tests
use sancus_riot.Common.{
  ℕ, zero, suc, ◌+◌, ◌-◌, ◌*◌, ◌/◌, ◌%◌, ◌^◌, bit_and, Option, none, some, List, [], ◌∷◌, ◌==◌,
  if◌then◌else◌, get_or,
}

-- The loop of `bitarithm_msb`.
unfoldable pub msb_loop : ℕ → ℕ → ℕ → Option ℕ
msb_loop zero v r = none
msb_loop (suc fuel) v r =
    let rest = msb_loop fuel (v / 2) (r + 1) in if v / 2 == 0 then some r else rest

unfoldable pub bitarithm_msb : ℕ → Option ℕ
unfolding msb_loop
bitarithm_msb v = msb_loop 16 v 0

-- The loop that clears the least bit until none is left.
unfoldable pub count_loop : ℕ → ℕ → ℕ → Option ℕ
count_loop zero v c = if v == 0 then some c else none
count_loop (suc fuel) v c =
    let rest = count_loop fuel (bit_and v (v - 1)) (c + 1) in if v == 0 then some c else rest

unfoldable pub bitarithm_bits_set : ℕ → Option ℕ
unfolding count_loop
bitarithm_bits_set v = count_loop 16 v 0

unfoldable pub bitarithm_bits_set_u32 : ℕ → Option ℕ
unfolding count_loop
bitarithm_bits_set_u32 v = count_loop 32 v 0

-- The loop of `bitarithm_lsb`, which never ends for 0.
unfoldable pub shift_loop : ℕ → ℕ → ℕ → Option ℕ
shift_loop zero v r = none
shift_loop (suc fuel) v r =
    let rest = shift_loop fuel (v / 2) (r + 1) in if v % 2 == 0 then rest else some r

unfoldable pub bitarithm_lsb : ℕ → Option ℕ
unfolding shift_loop
bitarithm_lsb v = shift_loop 16 v 0

abbrev pub multiply_de_bruijn_bit_position : List ℕ
multiply_de_bruijn_bit_position =
    0 ∷ 1 ∷ 28 ∷ 2 ∷ 29 ∷ 14 ∷ 24 ∷ 3 ∷ 30 ∷ 22 ∷ 20 ∷ 15 ∷ 25 ∷ 17 ∷ 4 ∷ 8 ∷ 31 ∷ 27 ∷ 13 ∷ 23 ∷ 21
    ∷ 19 ∷ 16 ∷ 7 ∷ 26 ∷ 12 ∷ 18 ∷ 6 ∷ 11 ∷ 5 ∷ 10 ∷ 9 ∷ []

-- `bitarithm_lsb` with BITARITHM_LSB_LOOKUP, for an `unsigned` of 32 bits. The index is below 32.
unfoldable pub lsb_lookup : ℕ → ℕ
lsb_lookup v =
    let negated = (2 ^ 32 - v) % 2 ^ 32 in
    get_or multiply_de_bruijn_bit_position (bit_and v negated * 0x077cb531 % 2 ^ 32 / 2 ^ 27) 0
