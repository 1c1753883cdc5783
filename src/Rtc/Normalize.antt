-- ===== src/Rtc/Normalize.antt =====
-- Normalizing: the fields come into their ranges, and the instant stays the same.
use sancus_riot.Common.{ℕ, Bool, ◌+◌, ◌/◌, ◌%◌, ◌^◌, ◌<◌, ◌≤◌, ◌≡◌, true, some}
use sancus_riot.Rtc.{Tm, wday, yday, rtc_tm_normalize}
use sancus_riot.Common.Int.{sub_ℕ}
use sancus_riot.Rtc.Weekday.{before}
use sancus_riot.Rtc.Calendar.{days_in_month, day_number, seconds}

-- Every field is in its range, but that the day may be 0.
pub record IsNormal (t : Tm) : Type 0 where
  pub sec_in : t.sec < 60
  pub min_in : t.min < 60
  pub hour_in : t.hour < 24
  pub mon_in : t.mon < 12
  pub mday_in : t.mday ≤ days_in_month t.mon (1900 + t.year)

-- The days that the loop starts from.
unfoldable pub days_carried : Tm → ℕ
days_carried t = t.mday + (t.hour + (t.min + t.sec / 60) / 60) / 24

-- What normalizing leaves.
pub record Normalized (compat : Bool) (fuel : ℕ) (t : Tm) : Type 0 where
  pub after : Tm
  pub returns : rtc_tm_normalize compat fuel t ≡ some after
  pub normal : IsNormal after
  pub same_time : seconds after ≡ seconds t
  pub positive : 0 < t.mday → 0 < after.mday
  pub weekday : compat ≡ true → after.wday ≡ day_number after % 7
  pub day_of_year :
      compat ≡ true → after.yday ≡ sub_ℕ (before (1900 + after.year) after.mon + after.mday) 1

-- No sum reaches the end of an `int`, and the year is not after 25900.
pub record IsBounded (t : Tm) : Type 0 where
  pub min_fits : t.min + t.sec / 60 < 2 ^ 15
  pub hour_fits : t.hour + (t.min + t.sec / 60) / 60 < 2 ^ 15
  pub days_fit : days_carried t < 2 ^ 15
  pub early : t.year + t.mon / 12 + days_carried t / 28 ≤ 24000
