-- ===== src/Rtc/Weekday.antt =====
-- The day of the week and of the year, which RTC_NORMALIZE_COMPAT asks for.
use sancus_riot.Common.{
  ℕ, zero, suc, ◌+◌, ◌-◌, ◌*◌, ◌/◌, ◌%◌, ◌^◌, ◌<◌, ◌≤◌, ◌≡◌, refl, ap, ◌∙◌, bit_or, some, arith,
}
use sancus_riot.Common.Int.{sub_ℕ}
use sancus_riot.Common.Bits.{bit-bit_or}
use sancus_riot.Common.Masks.{bit-ext, bit_or-byte}
use sancus_riot.Rtc.{is_leap_year, wday, yday}
use sancus_riot.Rtc.Calendar.{
  leap_day, days_in_month, month_start, month_start-next, is_leap_year-leap_day, leap_day-le,
}

-- The days of the year before a month.
pub before : ℕ → ℕ → ℕ
before y zero = 0
before y (suc m) = before y m + days_in_month m y

month_start-before :
    (y m : ℕ) → m ≤ 12 → month_start (12 * y + m) ≡ month_start (12 * y) + before (1900 + y) m
unfolding before
month_start-before y zero h =
    ap month_start {x = 12 * y + 0} {y = 12 * y} (omega arith) ∙ omega arith
month_start-before y (suc m) h =
    ap month_start {x = 12 * y + suc m} {y = suc (12 * y + m)} (omega arith)
    ∙ omega
        (arith, month_start-next m y (omega (arith, h)), month_start-before y m (omega (arith, h)))

before_year : (y : ℕ) → before y 12 ≡ 365 + leap_day y
unfolding before days_in_month
before_year y = omega arith

-- The leap days up to the end of a year.
leap_days : ℕ → ℕ
leap_days n = n / 4 - n / 100 + n / 400

leap_days-next : (n : ℕ) → leap_days (n + 1) ≡ leap_days n + leap_day (n + 1)
unfolding leap_days leap_day
leap_days-next n = ground arith

leaps : (y : ℕ) → leap_days (1900 + y) ≡ leap_days (1899 + y) + leap_day (1900 + y)
leaps y =
    let days : leap_days (1899 + y + 1) ≡ leap_days (1900 + y) = ap leap_days (omega arith) in
    let day : leap_day (1899 + y + 1) ≡ leap_day (1900 + y) = ap leap_day (omega arith) in
    omega (arith, days, day, leap_days-next (1899 + y))

year_start :
    (y : ℕ)
    → month_start (12 * y) + 365 * 1900 + leap_days 1899 ≡ 365 * (1900 + y) + leap_days (1899 + y)
unfolding month_start
year_start zero = refl
year_start (suc y) =
    let e : month_start (12 * suc y) ≡ month_start (12 * y + 12) = ap month_start (omega arith) in
    let l : leap_days (1899 + suc y) ≡ leap_days (1900 + y) = ap leap_days (omega arith) in
    omega (
      arith,
      year_start y,
      e,
      l,
      leaps y,
      month_start-before y 12 (omega arith),
      before_year (1900 + y),
    )

-- To look at each month by itself.
each_month :
    (P : ℕ → Type 0)
    → P 0
    → P 1
    → P 2
    → P 3
    → P 4
    → P 5
    → P 6
    → P 7
    → P 8
    → P 9
    → P 10
    → P 11
    → (m : ℕ) → m < 12
    → P m
each_month P p0 p1 p2 p3 p4 p5 p6 p7 p8 p9 p10 p11 zero h = p0
each_month P p0 p1 p2 p3 p4 p5 p6 p7 p8 p9 p10 p11 (suc zero) h = p1
each_month P p0 p1 p2 p3 p4 p5 p6 p7 p8 p9 p10 p11 (suc (suc zero)) h = p2
each_month P p0 p1 p2 p3 p4 p5 p6 p7 p8 p9 p10 p11 (suc (suc (suc zero))) h = p3
each_month P p0 p1 p2 p3 p4 p5 p6 p7 p8 p9 p10 p11 (suc (suc (suc (suc zero)))) h = p4
each_month P p0 p1 p2 p3 p4 p5 p6 p7 p8 p9 p10 p11 (suc (suc (suc (suc (suc zero))))) h = p5
each_month P p0 p1 p2 p3 p4 p5 p6 p7 p8 p9 p10 p11 (suc (suc (suc (suc (suc (suc zero)))))) h = p6
each_month P p0 p1 p2 p3 p4 p5 p6 p7 p8 p9 p10 p11 (suc (suc (suc (suc (suc (suc (suc zero)))))))
      h =
    p7
each_month P p0 p1 p2 p3 p4 p5 p6 p7 p8 p9 p10 p11
      (suc (suc (suc (suc (suc (suc (suc (suc zero)))))))) h =
    p8
each_month P p0 p1 p2 p3 p4 p5 p6 p7 p8 p9 p10 p11
      (suc (suc (suc (suc (suc (suc (suc (suc (suc zero))))))))) h =
    p9
each_month P p0 p1 p2 p3 p4 p5 p6 p7 p8 p9 p10 p11
      (suc (suc (suc (suc (suc (suc (suc (suc (suc (suc zero)))))))))) h =
    p10
each_month P p0 p1 p2 p3 p4 p5 p6 p7 p8 p9 p10 p11
      (suc (suc (suc (suc (suc (suc (suc (suc (suc (suc (suc zero))))))))))) h =
    p11
each_month P p0 p1 p2 p3 p4 p5 p6 p7 p8 p9 p10 p11
      (suc (suc (suc (suc (suc (suc (suc (suc (suc (suc (suc (suc n)))))))))))) h =
    absurd (omega (arith, h))

or_day : (day : ℕ) → day < 256 → bit_or day 256 ≡ day + 256
or_day day h = swap ∙ bit_or-byte 1 day h ∙ omega arith
  where
    swap : bit_or day 256 ≡ bit_or (1 * 2 ^ 8) day
    swap =
        bit-ext (bit_or day 256) (bit_or 256 day)
          λ q. bit-bit_or q day 256 ∙ omega (arith, bit-bit_or q 256 day)

-- The table and the extra day are the days before the month.
pub yday-before :
    (day m y : ℕ) → day < 255 → m < 12 → yday day m y ≡ some (sub_ℕ (before y m + day) 1)
unfolding yday before days_in_month
yday-before day m y h lt =
    each_month (λ m. yday day m y ≡ some (sub_ℕ (before y m + day) 1))
      (ground (arith, is_leap_year-leap_day y, or_day (day + is_leap_year y), leap_day-le y))
      (ground (arith, is_leap_year-leap_day y, or_day (day + is_leap_year y), leap_day-le y))
      (ground (arith, is_leap_year-leap_day y, or_day (day + is_leap_year y), leap_day-le y))
      (ground (arith, is_leap_year-leap_day y, or_day (day + is_leap_year y), leap_day-le y))
      (ground (arith, is_leap_year-leap_day y, or_day (day + is_leap_year y), leap_day-le y))
      (ground (arith, is_leap_year-leap_day y, or_day (day + is_leap_year y), leap_day-le y))
      (ground (arith, is_leap_year-leap_day y, or_day (day + is_leap_year y), leap_day-le y))
      (ground (arith, is_leap_year-leap_day y, or_day (day + is_leap_year y), leap_day-le y))
      (ground (arith, is_leap_year-leap_day y, or_day (day + is_leap_year y), leap_day-le y))
      (ground (arith, is_leap_year-leap_day y, or_day (day + is_leap_year y), leap_day-le y))
      (ground (arith, is_leap_year-leap_day y, or_day (day + is_leap_year y), leap_day-le y))
      (ground (arith, is_leap_year-leap_day y, or_day (day + is_leap_year y), leap_day-le y)) m lt

-- The sum of `_wday` counts on from Monday, the first day of 1900.
pub wday-start :
    (day m y : ℕ)
    → m < 12
    → day ≤ 31
    → y ≤ 24000
    → wday day m (1900 + y) ≡ some ((month_start (12 * y + m) + day) % 7)
unfolding wday before days_in_month leap_days
wday-start day m y lt small early =
    each_month (λ m. wday day m (1900 + y) ≡ some ((month_start (12 * y + m) + day) % 7))
      (ground (arith, year_start y, month_start-before y 0, leaps y, small, early))
      (ground (arith, year_start y, month_start-before y 1, leaps y, small, early))
      (ground (arith, year_start y, month_start-before y 2, leaps y, small, early))
      (ground (arith, year_start y, month_start-before y 3, leaps y, small, early))
      (ground (arith, year_start y, month_start-before y 4, leaps y, small, early))
      (ground (arith, year_start y, month_start-before y 5, leaps y, small, early))
      (ground (arith, year_start y, month_start-before y 6, leaps y, small, early))
      (ground (arith, year_start y, month_start-before y 7, leaps y, small, early))
      (ground (arith, year_start y, month_start-before y 8, leaps y, small, early))
      (ground (arith, year_start y, month_start-before y 9, leaps y, small, early))
      (ground (arith, year_start y, month_start-before y 10, leaps y, small, early))
      (ground (arith, year_start y, month_start-before y 11, leaps y, small, early)) m lt
