-- ===== src/Calendar.antt =====
-- src/libc/time.c and src/rtc.c: broken-down time, seconds since the epoch, and the CMOS clock.
-- Fields are natural numbers; an `int` that may go below 0 is kept as its 32-bit pattern.
pub mod RoundTrip
pub mod Clock
mod Tests
use boss.Prelude.{
  ℕ, zero, suc, ◌+◌, ◌-◌, ◌*◌, ◌/◌, ◌%◌, ◌^◌, Bool, true, false, List, [], ◌∷◌, Option, none, some,
  ltb, leb, ◌==◌, if◌then◌else◌, get_or,
}

-- `struct tm`, without `tm_isdst`, which nothing reads.
pub record Tm : Type 0 where
  pub tm_sec : ℕ
  pub tm_min : ℕ
  pub tm_hour : ℕ
  pub tm_mday : ℕ
  pub tm_mon : ℕ
  pub tm_year : ℕ
  pub tm_wday : ℕ
  pub tm_yday : ℕ

abbrev pub is_leap_year : ℕ → Bool
is_leap_year yr = if yr % 400 == 0 then true else if yr % 100 == 0 then false else yr % 4 == 0

-- `YEARDAYS`
pub year_days : ℕ → ℕ
year_days yr = if is_leap_year yr then 366 else 365

-- The two rows of `mdays`.
abbrev pub mdays : Bool → List ℕ
mdays leap = 31 ∷ (if leap then 29 else 28) ∷ 31 ∷ 30 ∷ 31 ∷ 30 ∷ 31 ∷ 31 ∷ 30 ∷ 31 ∷ 30 ∷ 31 ∷ []

-- `mdays[leap][i]`; there is no month behind the twelfth.
pub month_days : Bool → ℕ → ℕ
month_days leap i = get_or (mdays leap) i 0

-- `for(i=0; i<n; i++) days += len(at++)`
pub add_spans : (ℕ → ℕ) → ℕ → ℕ → ℕ → ℕ
add_spans len zero at days = days
add_spans len (suc n) at days = add_spans len n (at + 1) (days + len at)

-- `while(days >= len(at)) days -= len(at++)`; `none` if the fuel runs out.
pub sub_spans : (ℕ → ℕ) → ℕ → ℕ → ℕ → Option (ℕ × ℕ)
sub_spans len zero at days = none
sub_spans len (suc fuel) at days =
    let rest = sub_spans len fuel (at + 1) (days - len at) in
    if leb (len at) days then rest else some (days, at)

pub day_of_year : ℕ → ℕ → ℕ → ℕ
day_of_year year mon day = add_spans (month_days (is_leap_year year)) mon 0 day

-- The days since the epoch, as `mktime` counts them.
pub epoch_days : Tm → ℕ
epoch_days tm =
    add_spans year_days (tm.tm_year - 70) 1970
      (day_of_year (tm.tm_year + 1900) tm.tm_mon (tm.tm_mday - 1))

-- `mktime`: the time as the 32-bit word of a `time_t`, and the structure with its two computed fields.
-- The days are taken to fit an `int`.
pub mktime : Tm → ℕ × Tm
mktime tm = (
  (epoch_days tm * 86400 + tm.tm_hour * 3600 + tm.tm_min * 60 + tm.tm_sec) % 2 ^ 32,
  record tm {
    tm_yday = day_of_year (tm.tm_year + 1900) tm.tm_mon (tm.tm_mday - 1);
    tm_wday = (epoch_days tm + 4) % 7;
  },
)

-- The part of `gmtime_r` behind the loop over the years.
pub month_of_day : ℕ → ℕ → ℕ × ℕ → Option Tm
month_of_day t wday (yday, year) = elim (sub_spans (month_days (is_leap_year year)) 13 0 yday) [
  | none ↦ none
  | some (day, mon) ↦ some (record {
    tm_sec = t % 3600 % 60;
    tm_min = t % 3600 / 60;
    tm_hour = t / 3600;
    tm_mday = day + 1;
    tm_mon = mon;
    tm_year = year - 1900;
    tm_wday = wday;
    tm_yday = yday;
  })
]

-- The 32-bit pattern of `a - b`.
abbrev pub minus32 : ℕ → ℕ → ℕ
minus32 a b = (a + 2 ^ 32 - b) % 2 ^ 32

-- `(4 - days) % 7`, with the sign of the first operand.
abbrev pub wday_before : ℕ → ℕ
wday_before days = if leb days 4 then 4 - days else minus32 0 ((days - 4) % 7)

-- `gmtime_r` for a time that is negative: division rounds towards 0, neither loop is entered, and the
-- fields are 0 or negative. `secs` is the time without its sign.
pub before_epoch : ℕ → Tm
before_epoch secs = record {
  tm_sec = minus32 0 (secs % 86400 % 3600 % 60);
  tm_min = minus32 0 (secs % 86400 % 3600 / 60);
  tm_hour = minus32 0 (secs % 86400 / 3600);
  tm_mday = minus32 1 (secs / 86400);
  tm_mon = 0;
  tm_year = 70;
  tm_wday = wday_before (secs / 86400);
  tm_yday = minus32 0 (secs / 86400);
}

-- `gmtime_r` for a time that is not negative; a year has at least one day, so the days bound the
-- rounds of the first loop.
pub since_epoch : ℕ → Option Tm
since_epoch tp = elim (sub_spans year_days (tp / 86400 + 1) 1970 (tp / 86400)) [
  | none ↦ none
  | some found ↦ month_of_day (tp % 86400) ((tp / 86400 + 4) % 7) found
]

-- `gmtime_r`, of a 32-bit word.
pub gmtime : ℕ → Option Tm
gmtime tp = if ltb tp (2 ^ 31) then since_epoch tp else some (before_epoch (2 ^ 32 - tp))

-- `time`, at 250 ticks a second.
pub time : ℕ → ℕ → ℕ
time start_time nticks = start_time + nticks / 250

-- A bit of a register byte.
abbrev pub bit_set : ℕ → ℕ → Bool
bit_set w k = w / 2 ^ k % 2 == 1

-- `BCD_TO_BIN`
abbrev pub bcd_to_bin : ℕ → ℕ
bcd_to_bin x = x / 16 % 16 * 10 + x % 16

-- `read_rtc` once no update is in progress, over the bytes that `read_reg` returns.
pub read_rtc : (ℕ → ℕ) → Tm
read_rtc reg =
    let statb = reg 11 in
    let pm = bit_set (reg 4) 7 in
    let conv = λ (x : ℕ). if bit_set statb 2 then x else bcd_to_bin x in
    let year = conv (reg 9) in
    let hour = conv (reg 4 % 128) in
    let hour12 : ℕ = (if hour == 12 then 0 else hour) + (if pm then 12 else 0) in
    record {
      tm_sec = conv (reg 0);
      tm_min = conv (reg 2);
      tm_hour = if bit_set statb 1 then hour else hour12;
      tm_mday = conv (reg 7);
      tm_mon = (conv (reg 8) + 2 ^ 32 - 1) % 2 ^ 32;
      tm_year = if ltb year 100 then year + 100 else (year + 2 ^ 32 - 1900) % 2 ^ 32;
      tm_wday = 0;
      tm_yday = 0;
    }
