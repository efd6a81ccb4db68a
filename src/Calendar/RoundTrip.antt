-- ===== src/Calendar/RoundTrip.antt =====
-- src/libc/time.c: `gmtime_r` undoes `mktime`.
use boss.Prelude.{
  ℕ, zero, suc, ◌+◌, ◌-◌, ◌*◌, ◌/◌, ◌%◌, ◌^◌, ◌≤◌, ◌<◌, ◌≡◌, refl, true, ◌∙◌, ap, Bool, some, ltb,
  leb, leb→le, false, all_below, all_below_sound, if◌then◌else◌, arith,
}
use native.Mathlib.Nat.{zero-add}
use boss.Calendar.{
  Tm, is_leap_year, year_days, month_days, add_spans, sub_spans, day_of_year, epoch_days, mktime,
  month_of_day, since_epoch, gmtime,
}

-- A date from 1970 on and a time of day, with each field in its range.
pub record IsDate (tm : Tm) : Type 0 where
  pub epoch : 70 ≤ tm.tm_year
  pub mon : tm.tm_mon < 12
  pub first : 0 < tm.tm_mday
  pub last : tm.tm_mday ≤ month_days (is_leap_year (tm.tm_year + 1900)) tm.tm_mon
  pub hour : tm.tm_hour < 24
  pub min : tm.tm_min < 60
  pub sec : tm.tm_sec < 60

module _ (len : ℕ → ℕ) where
  add_spans-add : (n at a b : ℕ) → add_spans len n at (a + b) ≡ add_spans len n at a + b
  unfolding add_spans
  add_spans-add zero at a b = refl
  add_spans-add (suc n) at a b =
      let p : a + b + len at ≡ a + len at + b = omega arith in
      rw p (add_spans-add n (at + 1) (a + len at) b)

  -- What the first loop adds up the second takes off again.
  sub_spans-add_spans :
      (n fuel at days : ℕ)
      → days < len (at + n)
      → n < fuel
      → sub_spans len fuel at (add_spans len n at days) ≡ some (days, at + n)
  unfolding add_spans sub_spans
  sub_spans-add_spans n zero at days h f = absurd (omega arith)
  sub_spans-add_spans zero (suc fuel) at days h f =
      let p : at + 0 ≡ at = omega arith in let h' : days < len at = rw p at h in ground arith
  sub_spans-add_spans (suc n) (suc fuel) at days h f =
      let p : at + suc n ≡ at + 1 + n = omega arith in
      let h' : days < len (at + 1 + n) = rw p at h in
      let x = add_spans len n (at + 1) days in
      let back : x + len at - len at ≡ x = omega arith in
      let more : leb (len at) (x + len at) ≡ true = ground arith in
      rw (add_spans-add n (at + 1) days (len at), p, back, more)
        (sub_spans-add_spans n fuel (at + 1) days h' (omega arith))

  le-add_spans : (n at days : ℕ) → ((i : ℕ) → 0 < len i) → n + days ≤ add_spans len n at days
  unfolding add_spans
  le-add_spans zero at days pos = omega arith
  le-add_spans (suc n) at days pos =
      omega (arith, le-add_spans n (at + 1) (days + len at) pos, pos at)

year_days_pos : (y : ℕ) → 0 < year_days y
unfolding year_days
year_days_pos y = ground arith

-- The days before a month and those of the month fit into the year.
year_room : Bool → ℕ → Bool
year_room leap mon =
    leb (add_spans (month_days leap) mon 0 0 + month_days leap mon) (if leap then 366 else 365)

year_room_table : (leap : Bool) → all_below 12 (year_room leap) ≡ true
unfolding all_below year_room add_spans month_days
year_room_table true = refl
year_room_table false = refl

year_room-le :
    (leap : Bool) (mon : ℕ)
    → mon < 12
    → add_spans (month_days leap) mon 0 0 + month_days leap mon ≤ (if leap then 366 else 365)
unfolding year_room
year_room-le leap mon h =
    leb→le _ _ (all_below_sound 12 (year_room leap) mon h (year_room_table leap))

day_of_year_lt :
    (tm : Tm)
    → IsDate tm
    → day_of_year (tm.tm_year + 1900) tm.tm_mon (tm.tm_mday - 1)
      < year_days (1970 + (tm.tm_year - 70))
unfolding day_of_year year_days
day_of_year_lt tm d =
    let leap = is_leap_year (tm.tm_year + 1900) in
    let p : 1970 + (tm.tm_year - 70) ≡ tm.tm_year + 1900 = omega (arith, d.epoch) in
    rw p (
      omega (
        arith,
        d.last,
        d.first,
        year_room-le leap tm.tm_mon d.mon,
        add_spans-add (month_days leap) tm.tm_mon 0 0 (tm.tm_mday - 1),
        ap (add_spans (month_days leap) tm.tm_mon 0) (zero-add (tm.tm_mday - 1)),
      ))

-- The years are found again.
years_back :
    (tm : Tm)
    → IsDate tm
    → sub_spans year_days (epoch_days tm + 1) 1970 (epoch_days tm)
      ≡ some (day_of_year (tm.tm_year + 1900) tm.tm_mon (tm.tm_mday - 1), tm.tm_year + 1900)
unfolding epoch_days
years_back tm d =
    let n = tm.tm_year - 70 in
    let yday = day_of_year (tm.tm_year + 1900) tm.tm_mon (tm.tm_mday - 1) in
    let p : 1970 + n ≡ tm.tm_year + 1900 = omega (arith, d.epoch) in
    let found : sub_spans year_days (epoch_days tm + 1) 1970 (epoch_days tm)
        ≡ some (yday, 1970 + n) =
      sub_spans-add_spans year_days n (epoch_days tm + 1) 1970 yday (day_of_year_lt tm d)
        (omega (arith, le-add_spans year_days n 1970 yday year_days_pos)) in
    found ∙ ap (λ y. some (yday, y)) p

month_back :
    (tm : Tm) (t wday yday : ℕ)
    → IsDate tm
    → yday ≡ day_of_year (tm.tm_year + 1900) tm.tm_mon (tm.tm_mday - 1)
    → month_of_day t wday (yday, tm.tm_year + 1900)
      ≡ some (record {
        tm_sec = t % 3600 % 60;
        tm_min = t % 3600 / 60;
        tm_hour = t / 3600;
        tm_mday = tm.tm_mday;
        tm_mon = tm.tm_mon;
        tm_year = tm.tm_year;
        tm_wday = wday;
        tm_yday = yday;
      })
unfolding month_of_day day_of_year
month_back tm t wday yday d e =
    let len = month_days (is_leap_year (tm.tm_year + 1900)) in
    let start : 0 + tm.tm_mon ≡ tm.tm_mon = omega arith in
    let inside : tm.tm_mday - 1 < len (0 + tm.tm_mon) = rw start (omega (arith, d.last, d.first)) in
    let found =
      sub_spans-add_spans len tm.tm_mon 13 0 (tm.tm_mday - 1) inside (omega (arith, d.mon)) in
    let mday : tm.tm_mday - 1 + 1 ≡ tm.tm_mday = omega (arith, d.first) in
    let year : tm.tm_year + 1900 - 1900 ≡ tm.tm_year = omega arith in
    rw (e, found, month_of_day, start, mday, year, e)

-- The seconds since the epoch of a date and a time of day.
abbrev pub seconds_of : Tm → ℕ
seconds_of tm = epoch_days tm * 86400 + tm.tm_hour * 3600 + tm.tm_min * 60 + tm.tm_sec

mod_small : (n : ℕ) → n < 2 ^ 31 → n % 2 ^ 32 ≡ n
mod_small n h = omega arith

since_epoch_lem : (tm : Tm) → IsDate tm → since_epoch (seconds_of tm) ≡ some (mktime tm).1
unfolding since_epoch mktime
since_epoch_lem tm d =
    let days = epoch_days tm in
    let secs = tm.tm_hour * 3600 + tm.tm_min * 60 + tm.tm_sec in
    let all = seconds_of tm in
    let q : all / 86400 ≡ days = omega (arith, d.hour, d.min, d.sec) in
    let r : all % 86400 ≡ secs = omega (arith, d.hour, d.min, d.sec) in
    let hour : secs / 3600 ≡ tm.tm_hour = omega (arith, d.min, d.sec) in
    let min : secs % 3600 / 60 ≡ tm.tm_min = omega (arith, d.min, d.sec) in
    let sec : secs % 3600 % 60 ≡ tm.tm_sec = omega (arith, d.min, d.sec) in
    rw (
      q,
      years_back tm d,
      since_epoch,
      r,
      q,
      month_back tm secs ((days + 4) % 7) _ d refl,
      hour,
      min,
      sec,
    )

mktime-seconds_of : (tm : Tm) → seconds_of tm < 2 ^ 31 → (mktime tm).0 ≡ seconds_of tm
unfolding mktime
mktime-seconds_of tm small = mod_small (seconds_of tm) small

-- For every date from 1970 on whose seconds since the epoch are below 2^31, so up to 19 January 2038,
-- `gmtime_r` of what `mktime` returns is that date again, with the day of the week and of the year
-- that `mktime` has filled in.
pub gmtime-mktime :
    (tm : Tm) → IsDate tm → seconds_of tm < 2 ^ 31 → gmtime (mktime tm).0 ≡ some (mktime tm).1
unfolding gmtime
gmtime-mktime tm d small =
    let whole : (mktime tm).0 ≡ seconds_of tm = mktime-seconds_of tm small in
    let early : ltb (seconds_of tm) (2 ^ 31) ≡ true = ground arith in
    ap gmtime whole ∙ rw (early, gmtime) (since_epoch_lem tm d)
