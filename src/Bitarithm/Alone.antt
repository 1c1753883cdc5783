-- ===== src/Bitarithm/Alone.antt =====
-- A word and its negative have one bit in common.
use sancus_riot.Common.{
  ℕ, ◌+◌, ◌-◌, ◌^◌, ◌<◌, ◌≡◌, sym, ap, ◌∙◌, min, bit_and, arith, ◌==◌, ltb, if◌then◌else◌,
  Bool-cases, inl, inr,
}
use sancus_riot.Common.Bits.{bit, bit-le, bit-bit_and, bit-pow, bit_complement}
use sancus_riot.Common.Masks.{bit-ext, bit-high}
use sancus_riot.Bitarithm.Lowest.{IsLowest, bit-pred_at, bit-pred_above}

-- `v & -v` is the least bit alone, in a word of `w` bits.
module _ (w v p : ℕ) (l : IsLowest v p) (nz : 0 < v) (lt : v < 2 ^ w) (hp : p < w) where
  -- The bits of `-v` are those of `v - 1` turned over.
  negated : (q : ℕ) → q < w → bit (2 ^ w - v) q + bit (v - 1) q ≡ 1
  negated q hq =
      let same : 2 ^ w - 1 - (v - 1) ≡ 2 ^ w - v = omega (arith, nz, lt) in
      ap (λ x. bit x q + bit (v - 1) q) (sym same)
      ∙ bit_complement w q (v - 1) hq (omega (arith, lt, nz))

  bit-alone : (q : ℕ) → min (bit v q) (bit (2 ^ w - v) q) ≡ (if p == q then 1 else 0)
  bit-alone q = elim (Bool-cases (ltb q p)) [
    | inl e ↦ ground (arith, e, l.clear q (ground (arith, e)))
    | inr e ↦ elim (Bool-cases (p == q)) [
      | inl s ↦
          let s' : p ≡ q = ground (arith, s) in
          rw s (
            omega (
              arith,
              ap (bit v) (sym s') ∙ l.set,
              ap (bit (v - 1)) (sym s') ∙ bit-pred_at v p l,
              negated q (omega (arith, hp, s')),
            ))
      | inr s ↦ elim (Bool-cases (ltb q w)) [
        | inl small ↦ rw s (
            omega (
              arith,
              bit-le v q,
              bit-pred_above v p q l (ground (arith, e, s)),
              negated q (ground (arith, small)),
            ))
        | inr big ↦ rw s (omega (arith, bit-high w v q lt (ground (arith, big))))
      ]
    ]
  ]

  pub alone : bit_and v (2 ^ w - v) ≡ 2 ^ p
  alone =
      bit-ext (bit_and v (2 ^ w - v)) (2 ^ p)
        λ q. bit-bit_and q v (2 ^ w - v) ∙ bit-alone q ∙ sym (bit-pow p q)

-- A bit that is set stands below the width.
pub lowest-lt : (w v p : ℕ) → IsLowest v p → v < 2 ^ w → p < w
lowest-lt w v p l lt = elim (Bool-cases (ltb p w)) [
  | inl e ↦ ground (arith, e)
  | inr e ↦ absurd (ground (arith, l.set, bit-high w v p lt (ground (arith, e))))
]
