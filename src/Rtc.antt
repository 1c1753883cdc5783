-- ===== src/Rtc.antt =====
-- drivers/periph_common/rtc.c: the fields of a date and a time of day. They are numbers that are
-- not negative here; a difference is an integer. An `int` is 16 bits wide, and a sum that does not
-- fit is a fault, `none`, as are a read outside of a table and a loop that has not ended when its
-- fuel is used up.
pub mod Calendar
pub mod Overflow
pub mod Normalize
pub mod Weekday
pub mod Order
mod Tests
use sancus_riot.Common.{
  ℕ, zero, suc, ◌+◌, ◌-◌, ◌*◌, ◌/◌, ◌%◌, bit_and, bit_or, Bool, true, false, not, ◌||◌, ◌&&◌, ◌^◌,
  Option, none, some, List, [], ◌∷◌, get_elem?, ◌==◌, ltb, leb, if◌then◌else◌,
}
use sancus_riot.Common.Int.{ℤ, pos, sub_ℕ}

-- The fields of `struct tm` that the code reads or writes.
pub record Tm : Type 0 where
  pub sec : ℕ
  pub min : ℕ
  pub hour : ℕ
  pub mday : ℕ
  pub mon : ℕ
  pub year : ℕ
  pub wday : ℕ
  pub yday : ℤ

unfoldable pub is_leap_year : ℕ → ℕ
is_leap_year year =
    if not (bit_and year 3 == 0)
    then 0
    else if not (year % 25 == 0) || (bit_and year 15 == 0)
    then 1
    else 0

unfoldable pub month_length : ℕ → ℕ → ℕ
month_length month year = if month == 1 then 28 + is_leap_year year else 31 - bit_and (month % 7) 1

-- A sum that an `int` holds.
abbrev pub fits : ℕ → Bool
fits n = ltb n (2 ^ 15)

-- The table `t` of `_wday`, and `d` of `_yday`.
abbrev pub weekday_shifts : List ℕ
weekday_shifts = 0 ∷ 3 ∷ 2 ∷ 5 ∷ 0 ∷ 3 ∷ 5 ∷ 1 ∷ 4 ∷ 6 ∷ 2 ∷ 4 ∷ []

abbrev pub days_before : List ℕ
days_before = 0 ∷ 31 ∷ 59 ∷ 90 ∷ 120 ∷ 151 ∷ 181 ∷ 212 ∷ 243 ∷ 17 ∷ 48 ∷ 78 ∷ []

unfoldable pub wday : ℕ → ℕ → ℕ → Option ℕ
wday day month year =
    let year = if ltb month 2 then year - 1 else year in
    elim (get_elem? weekday_shifts month) [
      | none ↦ none
      | some t ↦
          let sum = year + year / 4 - year / 100 + year / 400 + t + day in
          if fits (year + year / 4) && fits sum then some (sum % 7) else none
    ]

unfoldable pub yday : ℕ → ℕ → ℕ → Option ℤ
yday day month year =
    let day = if ltb 1 month then day + is_leap_year year else day in
    let day = if ltb 8 month then bit_or day 256 else day in
    elim (get_elem? days_before month) [
      | none ↦ none
      | some d ↦ if fits (d + day) then some (sub_ℕ (d + day) 1) else none
    ]

-- The fields after the carries before the loop.
unfoldable pub with_carries : Tm → Tm
with_carries t =
    let min = t.min + t.sec / 60 in
    let hour = t.hour + min / 60 in
    record t {
      sec = t.sec % 60;
      min = min % 60;
      hour = hour % 24;
      mday = t.mday + hour / 24;
      mon = t.mon % 12;
      year = t.year + t.mon / 12;
    }

unfoldable pub carried : Tm → Option Tm
carried t =
    let min = t.min + t.sec / 60 in
    let hour = t.hour + min / 60 in
    if fits min && fits hour && fits (t.mday + hour / 24) && fits (t.year + t.mon / 12)
    then some (with_carries t)
    else none

-- The step of the loop: the month that the days overflow.
unfoldable pub next_month : Tm → Tm
next_month t =
    let days = month_length t.mon (t.year + 1900) in
    if ltb 11 (t.mon + 1)
    then record t { mon = 0; year = t.year + 1; mday = t.mday - days }
    else record t { mon = t.mon + 1; mday = t.mday - days }

unfoldable pub overflow_loop : ℕ → Tm → Option Tm
overflow_loop zero t = none
overflow_loop (suc fuel) t =
    let rest = overflow_loop fuel (next_month t) in
    if not (fits (t.year + 1900))
    then none
    else if leb t.mday (month_length t.mon (t.year + 1900))
    then some t
    else rest

-- What RTC_NORMALIZE_COMPAT adds.
unfoldable pub with_days : Tm → Option Tm
with_days t = elim (yday t.mday t.mon (t.year + 1900)) [
  | none ↦ none
  | some y ↦ elim (wday t.mday t.mon (t.year + 1900)) [
    | none ↦ none
    | some w ↦ some (record t { yday = y; wday = w })
  ]
]

unfoldable pub rtc_tm_normalize : Bool → ℕ → Tm → Option Tm
rtc_tm_normalize compat fuel t = elim (carried t) [
  | none ↦ none
  | some t ↦ elim (overflow_loop fuel t) [
    | none ↦ none
    | some t ↦ if compat then with_days t else some t
  ]
]

unfoldable pub rtc_tm_compare : Tm → Tm → ℤ
rtc_tm_compare a b =
    if not (a.year == b.year)
    then sub_ℕ a.year b.year
    else if not (a.mon == b.mon)
    then sub_ℕ a.mon b.mon
    else if not (a.mday == b.mday)
    then sub_ℕ a.mday b.mday
    else if not (a.hour == b.hour)
    then sub_ℕ a.hour b.hour
    else if not (a.min == b.min)
    then sub_ℕ a.min b.min
    else if not (a.sec == b.sec)
    then sub_ℕ a.sec b.sec
    else pos 0
