-- ===== src/Rtc/Order.antt =====
-- Comparing: the order of normalized times is that of the seconds.
use sancus_riot.Common.{
  ℕ, zero, suc, ◌+◌, ◌*◌, ◌-◌, ◌<◌, ◌≤◌, ◌≡◌, ap, Bool-cases, inl, inr, not, ◌==◌, leb,
  if◌then◌else◌, arith,
}
use mathlib.Core.Path.{subst, sym}
use sancus_riot.Common.Int.{ℤ, pos, negsuc, sub_ℕ}
use sancus_riot.Rtc.{Tm, rtc_tm_compare}
use sancus_riot.Rtc.Calendar.{month_start, month_start-next, month_number, day_number, seconds}
use sancus_riot.Rtc.Normalize.{IsNormal}

-- What the result of a comparison says.
pub data Compared (a b : Tm) : ℤ → Type 0 where
  earlier : (n : ℕ) → seconds a < seconds b → Compared a b (negsuc n)
  same : seconds a ≡ seconds b → Compared a b (pos 0)
  later : (n : ℕ) → seconds b < seconds a → Compared a b (pos (suc n))

month_start-le : (n d : ℕ) → month_start n ≤ month_start (n + d)
unfolding month_start
month_start-le n zero = omega (arith, ap month_start {x = n + 0} {y = n} (omega arith))
month_start-le n (suc d) =
    omega
      (arith, month_start-le n d, ap month_start {x = n + suc d} {y = suc (n + d)} (omega arith))

month_start_mono : (n m : ℕ) → n ≤ m → month_start n ≤ month_start m
month_start_mono n m h =
    omega
      (arith, month_start-le n (m - n), ap month_start {x = n + (m - n)} {y = m} (omega (arith, h)))

module _ (a b : Tm) (na : IsNormal a) (nb : IsNormal b) where
  -- A later day.
  by_day : day_number a < day_number b → seconds a < seconds b
  unfolding seconds
  by_day h = omega (arith, na.sec_in, na.min_in, na.hour_in, h)

  -- A later month.
  by_month : 0 < b.mday → month_number a < month_number b → seconds a < seconds b
  unfolding day_number
  by_month p h = by_day (
      omega (
        arith,
        na.mday_in,
        month_start-next a.mon a.year na.mon_in,
        month_start_mono (suc (12 * a.year + a.mon)) (12 * b.year + b.mon) (omega (arith, h)),
        p,
      ))

  by_time :
      day_number a ≡ day_number b
      → (a.hour * 60 + a.min) * 60 + a.sec < (b.hour * 60 + b.min) * 60 + b.sec
      → seconds a < seconds b
  unfolding seconds
  by_time e h = omega (arith, e, h)

same_days :
    (a b : Tm) → a.year ≡ b.year → a.mon ≡ b.mon → a.mday ≡ b.mday → day_number a ≡ day_number b
unfolding day_number
same_days a b y m d = omega (
  arith,
  ap month_start {x = 12 * a.year + a.mon} {y = 12 * b.year + b.mon} (omega (arith, y, m)),
  d,
)

day_lt :
    (a b : Tm) → a.year ≡ b.year → a.mon ≡ b.mon → a.mday < b.mday → day_number a < day_number b
unfolding day_number
day_lt a b y m d = omega (
  arith,
  ap month_start {x = 12 * a.year + a.mon} {y = 12 * b.year + b.mon} (omega (arith, y, m)),
  d,
)

-- One field, and then the others.
field :
    (a b : Tm) (x y : ℕ) (rest : ℤ)
    → (x < y → seconds a < seconds b)
    → (y < x → seconds b < seconds a)
    → (x ≡ y → Compared a b rest)
    → Compared a b (if not (x == y) then sub_ℕ x y else rest)
field a b x y rest lt gt eq = elim (Bool-cases (x == y)) [
  | inl e ↦ rw e (eq (ground (arith, e)))
  | inr e ↦ rw e (elim (Bool-cases (leb y x)) [
    | inl g ↦ rw g (
        subst (λ n. Compared a b (pos n)) (above (ground (arith, e, g)))
          (later (x - y - 1) (gt (ground (arith, e, g)))))
    | inr l ↦ rw l (earlier (y - x - 1) (lt (ground (arith, l))))
  ])
]
  where
    above : y < x → suc (x - y - 1) ≡ x - y
    above h = omega (arith, h)

-- For two normalized times with positive days, `rtc_tm_compare` returns a negative number, 0 or a
-- positive number just as the first is fewer, as many or more seconds after the start of 1900 than
-- the second.
pub rtc_tm_compare-Compared :
    (a b : Tm)
    → IsNormal a
    → IsNormal b
    → 0 < a.mday
    → 0 < b.mday
    → Compared a b (rtc_tm_compare a b)
unfolding rtc_tm_compare seconds
rtc_tm_compare-Compared a b na nb pa pb =
    field a b a.year b.year _ (λ h. by_month a b na nb pb (omega (arith, h, na.mon_in)))
      (λ h. by_month b a nb na pa (omega (arith, h, nb.mon_in)))
      λ y.
        field a b a.mon b.mon _ (λ h. by_month a b na nb pb (omega (arith, h, y)))
          (λ h. by_month b a nb na pa (omega (arith, h, y)))
          λ m.
            field a b a.mday b.mday _ (λ h. by_day a b na nb (day_lt a b y m h))
              (λ h. by_day b a nb na (day_lt b a (sym y) (sym m) h))
              λ d.
                let e = same_days a b y m d in
                field a b a.hour b.hour _
                  (λ h. by_time a b na nb e (omega (arith, h, na.min_in, na.sec_in)))
                  (λ h. by_time b a nb na (sym e) (omega (arith, h, nb.min_in, nb.sec_in)))
                  λ hr.
                    field a b a.min b.min _
                      (λ h. by_time a b na nb e (omega (arith, hr, h, na.sec_in)))
                      (λ h. by_time b a nb na (sym e) (omega (arith, hr, h, nb.sec_in)))
                      λ mi.
                        field a b a.sec b.sec _
                          (λ h. by_time a b na nb e (omega (arith, hr, mi, h)))
                          (λ h. by_time b a nb na (sym e) (omega (arith, hr, mi, h)))
                          λ s. same (omega (arith, e, hr, mi, s))
