-- ===== src/Runqueue/Cache.antt =====
-- The bit cache: single bits of `1 << prio` and its complement, and the least bit that is set.
use sancus_riot.Common.{
  ℕ, zero, suc, ◌+◌, ◌-◌, ◌/◌, ◌%◌, ◌^◌, ◌<◌, ◌≡◌, refl, true, none, some, arith, ◌==◌,
  if◌then◌else◌, ltb, ltb→lt, ap, Bool-cases, inl, inr, ◌∙◌, bit_and, bit_or,
}
use sancus_riot.Common.Bits.{
  bit, bit-le, bit-bit_and, bit-bit_or, bit-pow, bit_complement, bit-mod, all_below, all_below_at,
}
use sancus_riot.Runqueue.{lsb_loop, bitarithm_lsb_sm_timer, shifted_one, complement32}

sign_extended : all_below 16 (λ q. bit (2 ^ 32 - 2 ^ 15) q == (if 15 == q then 1 else 0)) ≡ true
sign_extended = refl

-- The bits of `1 << prio` below 16 are those of `2 ^ prio`, also where the sign is extended.
pub bit-shifted_one : (p q : ℕ) → q < 16 → bit (shifted_one p) q ≡ (if p == q then 1 else 0)
bit-shifted_one p q hq = elim (Bool-cases (p == 15)) [
  | inl e ↦ rw e ground (
    arith,
    all_below_at 16 (λ q. bit (2 ^ 32 - 2 ^ 15) q == (if 15 == q then 1 else 0)) q sign_extended hq,
  )
  | inr e ↦ rw e (bit-pow p q)
]

shifted_one-lt : (p : ℕ) → p < 16 → shifted_one p < 2 ^ 32
shifted_one-lt p h = ltb→lt _ _ (all_below_at 16 (λ p. ltb (shifted_one p) (2 ^ 32)) p refl h)

pub bit-complement32 :
    (p q : ℕ) → p < 16 → q < 16 → bit (complement32 (shifted_one p)) q ≡ (if p == q then 0 else 1)
bit-complement32 p q hp hq = ground (
  arith,
  bit-shifted_one p q hq,
  bit_complement 32 q (shifted_one p) (omega arith) (shifted_one-lt p hp),
)

-- The cache after `|= 1 << p` and after `&= ~(1 << p)`.
pub bit-set :
    (n p q : ℕ) → q < 16 → bit (bit_or n (shifted_one p)) q ≡ (if p == q then 1 else bit n q)
bit-set n p q hq =
    rw (bit-bit_or q n (shifted_one p), bit-shifted_one p q hq) (ground (arith, bit-le n q))

pub bit-cleared :
    (n p q : ℕ)
    → p < 16
    → q < 16
    → bit (bit_and n (complement32 (shifted_one p))) q ≡ (if p == q then 0 else bit n q)
bit-cleared n p q hp hq =
    rw (bit-bit_and q n (complement32 (shifted_one p)), bit-complement32 p q hp hq)
      (ground (arith, bit-le n q))

lsb_loop-least :
    (q fuel v r : ℕ)
    → bit v q ≡ 1
    → ((j : ℕ) → j < q → bit v j ≡ 0)
    → q < fuel
    → lsb_loop fuel v r ≡ some (r + q)
unfolding lsb_loop
lsb_loop-least q zero v r h low f = absurd (omega arith)
lsb_loop-least zero (suc fuel) v r h low f = ground arith
lsb_loop-least (suc q) (suc fuel) v r h low f = ground (
  arith,
  low 0 (omega arith),
  lsb_loop-least q fuel (v / 2) (r + 1) h (λ j lt. low (suc j) (omega arith)) (omega arith),
)

-- `bitarithm_lsb_sm_timer` returns the least bit that is set, if one of the 16 is.
pub bitarithm_lsb_sm_timer-least :
    (v q : ℕ)
    → q < 16
    → bit v q ≡ 1
    → ((j : ℕ) → j < q → bit v j ≡ 0)
    → bitarithm_lsb_sm_timer v ≡ some q
unfolding bitarithm_lsb_sm_timer
bitarithm_lsb_sm_timer-least v q h set low =
    lsb_loop-least q 16 (v % 2 ^ 16) 0 (bit-mod 16 q v h ∙ set)
      (λ j lt. bit-mod 16 j v (omega arith) ∙ low j lt) h
    ∙ ap some (omega arith)

lsb_loop-none : (fuel v r : ℕ) → ((j : ℕ) → j < fuel → bit v j ≡ 0) → lsb_loop fuel v r ≡ none
unfolding lsb_loop
lsb_loop-none zero v r low = refl
lsb_loop-none (suc fuel) v r low = ground (
  arith,
  low 0 (omega arith),
  lsb_loop-none fuel (v / 2) (r + 1) (λ j lt. low (suc j) (omega (arith, lt))),
)

-- Without a bit the loop of `bitarithm_lsb_sm_timer` does not end.
pub bitarithm_lsb_sm_timer-none :
    (v : ℕ) → ((j : ℕ) → j < 16 → bit v j ≡ 0) → bitarithm_lsb_sm_timer v ≡ none
unfolding bitarithm_lsb_sm_timer
bitarithm_lsb_sm_timer-none v low =
    lsb_loop-none 16 (v % 2 ^ 16) 0 λ j lt. bit-mod 16 j v lt ∙ low j lt
