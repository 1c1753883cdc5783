-- ===== src/Rtc/Overflow.antt =====
-- The loop of `rtc_tm_normalize`: it ends, and the day stays the same.
use sancus_riot.Common.{
  ℕ, zero, suc, ◌+◌, ◌-◌, ◌<◌, ◌≤◌, ◌≡◌, refl, ap, ◌∙◌, some, true, ◌/◌, leb, Bool-cases, inl, inr,
  arith,
}
use sancus_riot.Rtc.{Tm, fits, month_length, next_month, overflow_loop}
use sancus_riot.Rtc.Calendar.{
  leap_day-le, days_in_month, month_start, month_start-next, month_number, day_number,
  month_length-days,
}

-- What the loop leaves.
pub record Settled (fuel : ℕ) (t : Tm) : Type 0 where
  pub after : Tm
  pub returns : overflow_loop fuel t ≡ some after
  pub mon_in : after.mon < 12
  pub mday_in : after.mday ≤ days_in_month after.mon (1900 + after.year)
  pub day_kept : day_number after ≡ day_number t
  pub positive : 0 < t.mday → 0 < after.mday
  pub sec_kept : after.sec ≡ t.sec
  pub min_kept : after.min ≡ t.min
  pub hour_kept : after.hour ≡ t.hour
  pub early : after.year ≤ 24000

length_lem :
    (t : Tm) → t.mon < 12 → month_length t.mon (t.year + 1900) ≡ days_in_month t.mon (1900 + t.year)
length_lem t h = month_length-days t.mon (t.year + 1900) h ∙ ap (days_in_month t.mon) (omega arith)

days_in_month_positive : (m y : ℕ) → 28 ≤ days_in_month m y
unfolding days_in_month
days_in_month_positive m y = ground arith

pub days_in_month_bound : (m y : ℕ) → days_in_month m y ≤ 31
unfolding days_in_month
days_in_month_bound m y = ground (arith, leap_day-le y)

month_number-next : (t : Tm) → t.mon < 12 → month_number (next_month t) ≡ suc (month_number t)
unfolding next_month
month_number-next t h = ground arith

year-next : (t : Tm) → (next_month t).year ≤ t.year + 1
unfolding next_month
year-next t = ground arith

mday-next : (t : Tm) → (next_month t).mday ≡ t.mday - month_length t.mon (t.year + 1900)
unfolding next_month
mday-next t = ground arith

mon-next : (t : Tm) → t.mon < 12 → (next_month t).mon < 12
unfolding next_month
mon-next t h = ground arith

time-next :
    (t : Tm)
    → ((next_month t).sec ≡ t.sec) × ((next_month t).min ≡ t.min) × ((next_month t).hour ≡ t.hour)
unfolding next_month
time-next t = ground arith

day_number-next :
    (t : Tm)
    → t.mon < 12
    → month_length t.mon (t.year + 1900) < t.mday
    → day_number (next_month t) ≡ day_number t
unfolding day_number
day_number-next t h l = omega (
  arith,
  ap month_start (month_number-next t h),
  month_start-next t.mon t.year h,
  length_lem t h,
  mday-next t,
  l,
)

-- The year that the days lead to, at most.
abbrev pub last_year : Tm → ℕ
last_year t = t.year + t.mday / 28

last_year-next :
    (t : Tm)
    → t.mon < 12
    → month_length t.mon (t.year + 1900) < t.mday
    → last_year (next_month t) ≤ last_year t
last_year-next t h l = omega (
  arith,
  mday-next t,
  year-next t,
  l,
  length_lem t h,
  days_in_month_positive t.mon (1900 + t.year),
)

pub loop-Settled :
    (fuel : ℕ) (t : Tm) → t.mday < fuel → t.mon < 12 → last_year t ≤ 24000 → Settled fuel t
unfolding overflow_loop
loop-Settled zero t f h b = absurd (omega (arith, f))
loop-Settled (suc fuel) t f h b =
    let fit : fits (t.year + 1900) ≡ true = ground (arith, b) in
    elim (Bool-cases (leb t.mday (month_length t.mon (t.year + 1900)))) [
      | inl e ↦ record {
        after = t;
        returns = rw (fit, e) refl;
        mon_in = h;
        mday_in = ground (arith, e, length_lem t h);
        day_kept = refl;
        positive = λ p. p;
        sec_kept = refl;
        min_kept = refl;
        hour_kept = refl;
        early = omega (arith, b);
      }
      | inr e ↦
          let l : month_length t.mon (t.year + 1900) < t.mday = ground (arith, e) in
          let r =
            loop-Settled fuel (next_month t)
              (omega (
                arith,
                mday-next t,
                l,
                f,
                length_lem t h,
                days_in_month_positive t.mon (1900 + t.year),
              ))
              (mon-next t h) (omega (arith, last_year-next t h l, b)) in
          record {
            after = r.after;
            returns = rw (fit, e) r.returns;
            mon_in = r.mon_in;
            mday_in = r.mday_in;
            day_kept = r.day_kept ∙ day_number-next t h l;
            positive = λ p. r.positive (omega (arith, mday-next t, l));
            sec_kept = r.sec_kept ∙ (time-next t).0;
            min_kept = r.min_kept ∙ (time-next t).1;
            hour_kept = r.hour_kept ∙ (time-next t).2;
            early = r.early;
          }
    ]
