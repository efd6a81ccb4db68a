-- ===== src/Calendar/Tests.antt =====
-- Dates of src/libc/time.c and src/rtc.c on concrete inputs, and the theorems at such inputs.
use boss.Prelude.{ℕ, ◌-◌, ◌^◌, ◌≡◌, refl, some, ◌==◌, if◌then◌else◌, arith}
use boss.Calendar.{
  Tm, gmtime, before_epoch, mktime, add_spans, year_days, month_days, epoch_days, day_of_year,
}
use boss.Calendar.RoundTrip.{IsDate, gmtime-mktime}

-- 29 February 2020, 23:59:58.
abbrev leap_day : Tm
leap_day = record {
  tm_sec = 58;
  tm_min = 59;
  tm_hour = 23;
  tm_mday = 29;
  tm_mon = 1;
  tm_year = 120;
  tm_wday = 0;
  tm_yday = 0;
}

mktime-leap_day : (mktime leap_day).0 ≡ 1583020798
unfolding mktime epoch_days day_of_year add_spans year_days month_days
mktime-leap_day = refl

leap_day-IsDate : IsDate leap_day
unfolding month_days
leap_day-IsDate = omega arith

gmtime-mktime_example : gmtime (mktime leap_day).0 ≡ some (mktime leap_day).1
unfolding epoch_days day_of_year add_spans year_days month_days
gmtime-mktime_example = gmtime-mktime leap_day leap_day-IsDate (omega arith)

-- A day before the epoch: year 70, month 0, day 0 and weekday 3.
day_before :
    gmtime (2 ^ 32 - 86400)
    ≡ some (record {
      tm_sec = 0;
      tm_min = 0;
      tm_hour = 0;
      tm_mday = 0;
      tm_mon = 0;
      tm_year = 70;
      tm_wday = 3;
      tm_yday = 2 ^ 32 - 1;
    })
unfolding gmtime before_epoch
day_before = refl

-- The same moment on a decimal clock with 12 hours.
abbrev registers : ℕ → ℕ
registers r =
    if r == 0
    then 0x58
    else if r == 2
    then 0x59
    else if r == 4
    then 0x91
    else if r == 7
    then 0x29
    else if r == 8
    then 0x02
    else if r == 9
    then 0x20
    else 0
