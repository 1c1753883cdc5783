-- ===== src/Bitarithm/Lowest.antt =====
-- The least bit of a number that is set.
use sancus_riot.Common.{
  ℕ, zero, suc, ◌-◌, ◌/◌, ◌%◌, ◌<◌, ◌≤◌, ◌≡◌, sym, ap, ◌∙◌, min, bit_and, arith, ◌==◌, Bool-cases,
  inl, inr,
}
use sancus_riot.Common.Bits.{bit, zero-bit, bit-bit_and}
use sancus_riot.Common.Masks.{bit-ext}

-- Bit `p` is the least that is set.
pub record IsLowest (v p : ℕ) : Type 0 where
  pub set : bit v p ≡ 1
  pub clear : (j : ℕ) → j < p → bit v j ≡ 0

pub IsLowest-half : (v p : ℕ) → IsLowest v (suc p) → IsLowest (v / 2) p
IsLowest-half v p l = record { set = l.set; clear = λ j lt. l.clear (suc j) (omega (arith, lt)) }

-- `v & (v - 1)`, bit by bit.
pub half-bit_and : (a b : ℕ) → bit_and a b / 2 ≡ bit_and (a / 2) (b / 2)
half-bit_and a b =
    bit-ext (bit_and a b / 2) (bit_and (a / 2) (b / 2))
      λ q. bit-bit_and (suc q) a b ∙ sym (bit-bit_and q (a / 2) (b / 2))

pub parity-bit_and : (a b : ℕ) → bit_and a b % 2 ≡ min (a % 2) (b % 2)
parity-bit_and a b = bit-bit_and 0 a b

pub bit_and_self : (a : ℕ) → bit_and a a ≡ a
bit_and_self a = bit-ext (bit_and a a) a λ q. bit-bit_and q a a ∙ omega arith

IsLowest-positive : (v p : ℕ) → IsLowest v p → 0 < v
IsLowest-positive zero p l = absurd (ground (arith, l.set, zero-bit p))
IsLowest-positive (suc v) p l = omega arith

-- The half of the number below an even one that has a bit.
half_pred : (v p : ℕ) → IsLowest v (suc p) → (v - 1) / 2 ≡ v / 2 - 1
half_pred v p l =
    omega (arith, l.clear 0 (omega arith), IsLowest-positive (v / 2) p (IsLowest-half v p l))

-- Below the least bit that is set, `v - 1` has ones, at it a zero, and above it the bits of `v`.
pub bit-pred_below : (v p q : ℕ) → IsLowest v p → q < p → bit (v - 1) q ≡ 1
bit-pred_below v zero q l lt = absurd (omega (arith, lt))
bit-pred_below v (suc p) zero l lt =
    omega (arith, l.clear 0 (omega arith), IsLowest-positive v (suc p) l)
bit-pred_below v (suc p) (suc q) l lt =
    ap (λ x. bit x q) (half_pred v p l)
    ∙ bit-pred_below (v / 2) p q (IsLowest-half v p l) (omega (arith, lt))

pub bit-pred_at : (v p : ℕ) → IsLowest v p → bit (v - 1) p ≡ 0
bit-pred_at v zero l = omega (arith, l.set)
bit-pred_at v (suc p) l =
    ap (λ x. bit x p) (half_pred v p l) ∙ bit-pred_at (v / 2) p (IsLowest-half v p l)

pub bit-pred_above : (v p q : ℕ) → IsLowest v p → p < q → bit (v - 1) q ≡ bit v q
bit-pred_above v p zero l lt = absurd (omega (arith, lt))
bit-pred_above v zero (suc q) l lt = ap (λ x. bit x q) (omega (arith, l.set))
bit-pred_above v (suc p) (suc q) l lt =
    ap (λ x. bit x q) (half_pred v p l)
    ∙ bit-pred_above (v / 2) p q (IsLowest-half v p l) (omega (arith, lt))

-- A number that is not 0 has a least bit.
pub lowest : (fuel v : ℕ) → v ≤ fuel → 0 < v → (p : ℕ) × IsLowest v p
lowest zero v h nz = absurd (omega (arith, h, nz))
lowest (suc fuel) v h nz = elim (Bool-cases (v % 2 == 0)) [
  | inl e ↦
      let (p, l) = lowest fuel (v / 2) (omega (arith, h, nz)) (ground (arith, e, nz)) in
      (suc p, record { set = l.set; clear = λ j lt. from j lt (ground (arith, e)) l.clear })
  | inr e ↦ (0, record { set = ground (arith, e); clear = λ j lt. absurd (omega (arith, lt)) })
]
  where
    from :
        {p : ℕ} (j : ℕ)
        → j < suc p
        → v % 2 ≡ 0
        → ((j : ℕ) → j < p → bit (v / 2) j ≡ 0)
        → bit v j ≡ 0
    from zero lt even above = even
    from (suc j) lt even above = above j (omega (arith, lt))
