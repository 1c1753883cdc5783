-- ===== src/Rtc/Calendar.antt =====
-- The Gregorian calendar, written out independently, and that the code follows it.
use sancus_riot.Common.{
  ℕ, zero, suc, ◌+◌, ◌*◌, ◌/◌, ◌%◌, ◌<◌, ◌≤◌, ◌≡◌, ap, ◌∙◌, bit_and, ◌||◌, ◌==◌, if◌then◌else◌,
  arith,
}
use sancus_riot.Common.Masks.{bit_and-mask}
use sancus_riot.Rtc.{Tm, is_leap_year, month_length}

-- A leap year is divisible by 4, and by 400 if it is by 100.
unfoldable pub leap_day : ℕ → ℕ
leap_day y = if y % 400 == 0 then 1 else if y % 100 == 0 then 0 else if y % 4 == 0 then 1 else 0

pub leap_day-le : (y : ℕ) → leap_day y ≤ 1
unfolding leap_day
leap_day-le y = ground arith

-- The length of a month, January being 0.
unfoldable pub days_in_month : ℕ → ℕ → ℕ
unfolding leap_day
days_in_month m y =
    if m == 1
    then 28 + leap_day y
    else if (m == 3) || (m == 5) || (m == 8) || (m == 10)
    then 30
    else 31

-- The days from the start of 1900 to the start of the month with number `n` from there on.
unfoldable pub month_start : ℕ → ℕ
month_start zero = 0
month_start (suc n) = month_start n + days_in_month (n % 12) (1900 + n / 12)

pub month_start-next :
    (m y : ℕ)
    → m < 12
    → month_start (suc (12 * y + m)) ≡ month_start (12 * y + m) + days_in_month m (1900 + y)
unfolding month_start
month_start-next m y h =
    ap (λ d. month_start (12 * y + m) + d)
      (ap (λ i. days_in_month i (1900 + (12 * y + m) / 12)) {x = (12 * y + m) % 12} {y = m}
          (omega (arith, h))
        ∙ ap (λ i. days_in_month m (1900 + i)) {x = (12 * y + m) / 12} {y = y} (omega (arith, h)))

-- The number of the month, the days and the seconds from the start of 1900 on.
abbrev pub month_number : Tm → ℕ
month_number t = 12 * t.year + t.mon

unfoldable pub day_number : Tm → ℕ
day_number t = month_start (month_number t) + t.mday

unfoldable pub seconds : Tm → ℕ
seconds t = ((day_number t * 24 + t.hour) * 60 + t.min) * 60 + t.sec

mask : (n : ℕ) → (bit_and n 3 ≡ n % 4) × (bit_and n 15 ≡ n % 16) × (bit_and n 1 ≡ n % 2)
mask n = (bit_and-mask n 2, bit_and-mask n 4, bit_and-mask n 1)

pub is_leap_year-leap_day : (y : ℕ) → is_leap_year y ≡ leap_day y
unfolding is_leap_year leap_day
is_leap_year-leap_day y = ground (arith, mask y)

pub month_length-days : (m y : ℕ) → m < 12 → month_length m y ≡ days_in_month m y
unfolding month_length days_in_month
month_length-days m y h = ground (arith, is_leap_year-leap_day y, mask (m % 7))
