-- ===== src/Bitarithm/Lookup.antt =====
-- The table lookup agrees with the loop: both find the least bit that is set.
use sancus_riot.Common.{
  ℕ, zero, suc, ◌+◌, ◌-◌, ◌*◌, ◌/◌, ◌%◌, ◌^◌, ◌<◌, ◌≡◌, refl, ap, ◌∙◌, some, arith, ◌==◌, get_or,
}
use sancus_riot.Common.Bits.{all_below_at}
use sancus_riot.Bitarithm.{multiply_de_bruijn_bit_position, lsb_lookup, bitarithm_lsb, shift_loop}
use sancus_riot.Bitarithm.Lowest.{IsLowest, lowest}
use sancus_riot.Bitarithm.Alone.{alone, lowest-lt}

table_at :
    (p : ℕ)
    → p < 32
    → get_or multiply_de_bruijn_bit_position (2 ^ p * 0x077cb531 % 2 ^ 32 / 2 ^ 27) 0 ≡ p
table_at p h = ground (
  arith,
  all_below_at 32
      (λ p. get_or multiply_de_bruijn_bit_position (2 ^ p * 0x077cb531 % 2 ^ 32 / 2 ^ 27) 0 == p) p
      refl h,
)

lookup-lowest : (v p : ℕ) → IsLowest v p → 0 < v → v < 2 ^ 32 → p < 32 → lsb_lookup v ≡ p
unfolding lsb_lookup
lookup-lowest v p l nz lt hp =
    let same : (2 ^ 32 - v) % 2 ^ 32 ≡ 2 ^ 32 - v = omega (arith, nz, lt) in
    rw (same, alone 32 v p l nz lt hp) (table_at p hp)

shift_loop-lowest : (fuel v p r : ℕ) → IsLowest v p → p < fuel → shift_loop fuel v r ≡ some (r + p)
unfolding shift_loop
shift_loop-lowest zero v p r l h = absurd (omega (arith, h))
shift_loop-lowest (suc fuel) v zero r l h = ground (arith, l.set)
shift_loop-lowest (suc fuel) v (suc p) r l h = ground (
  arith,
  l.clear 0 (omega arith),
  shift_loop-lowest fuel (v / 2) p (r + 1)
      (record { set = l.set; clear = λ j lt. l.clear (suc j) (omega (arith, lt)) })
      (omega (arith, h)),
)

-- For every number of 16 bits but 0, the lookup of the least bit in the De Bruijn table gives the
-- result of the loop of `bitarithm_lsb`, which ends.
pub lsb_lookup-lsb : (v : ℕ) → 0 < v → v < 2 ^ 16 → bitarithm_lsb v ≡ some (lsb_lookup v)
unfolding bitarithm_lsb
lsb_lookup-lsb v nz lt =
    let (p, l) = lowest v v (omega arith) nz in
    let small = lowest-lt 16 v p l lt in
    shift_loop-lowest 16 v p 0 l small
    ∙ ap some (omega (arith, lookup-lowest v p l nz (omega (arith, lt)) (omega (arith, small))))
