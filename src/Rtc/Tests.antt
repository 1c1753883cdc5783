-- ===== src/Rtc/Tests.antt =====
-- Examples: 40 October 2019, a minute before midnight and 75 seconds, and the start of 1 March 2020.
use sancus_riot.Common.{◌≡◌, refl, true, some, arith}
use sancus_riot.Common.Int.{pos}
use sancus_riot.Rtc.{
  Tm, is_leap_year, month_length, carried, overflow_loop, rtc_tm_normalize, rtc_tm_compare,
}
use sancus_riot.Rtc.Calendar.{days_in_month, leap_day}
use sancus_riot.Rtc.Normalize.{IsNormal}
use sancus_riot.Rtc.Order.{Compared, rtc_tm_compare-Compared}

abbrev october_40 : Tm
october_40 = record {
  sec = 75;
  min = 59;
  hour = 23;
  mday = 40;
  mon = 9;
  year = 119;
  wday = 0;
  yday = pos 0;
}

abbrev november_10 : Tm
november_10 = record {
  sec = 15;
  min = 0;
  hour = 0;
  mday = 10;
  mon = 10;
  year = 119;
  wday = 0;
  yday = pos 313;
}

abbrev march_1 : Tm
march_1 = record {
  sec = 0;
  min = 0;
  hour = 0;
  mday = 1;
  mon = 2;
  year = 120;
  wday = 0;
  yday = pos 60;
}

october_ends : rtc_tm_normalize true 42 october_40 ≡ some november_10
unfolding rtc_tm_normalize carried sancus_riot.Rtc.with_carries overflow_loop month_length
    is_leap_year sancus_riot.Rtc.next_month sancus_riot.Rtc.with_days sancus_riot.Rtc.yday
    sancus_riot.Rtc.wday
october_ends = refl

november_10-IsNormal : IsNormal november_10
unfolding days_in_month
november_10-IsNormal = record {
  sec_in = omega arith;
  min_in = omega arith;
  hour_in = omega arith;
  mon_in = omega arith;
  mday_in = omega arith;
}

march_1-IsNormal : IsNormal march_1
unfolding days_in_month leap_day
march_1-IsNormal = record {
  sec_in = omega arith;
  min_in = omega arith;
  hour_in = omega arith;
  mon_in = omega arith;
  mday_in = omega arith;
}

rtc_tm_compare-Compared_example : Compared march_1 november_10 (rtc_tm_compare march_1 november_10)
rtc_tm_compare-Compared_example =
    rtc_tm_compare-Compared march_1 november_10 march_1-IsNormal november_10-IsNormal (omega arith)
      (omega arith)
