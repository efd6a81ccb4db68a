-- ===== src/Calendar/Clock.antt =====
-- src/rtc.c: `read_rtc` reads the four formats of the CMOS clock.
use boss.Prelude.{
  ℕ, ◌+◌, ◌-◌, ◌*◌, ◌/◌, ◌%◌, ◌≤◌, ◌<◌, ◌≡◌, Bool, true, false, ◌==◌, ltb, if◌then◌else◌,
}
use boss.Calendar.{Tm}

-- How the clock writes a number below 100: as it is, or one decimal digit in each half byte.
abbrev pub written : Bool → ℕ → ℕ
written bin x = if bin then x else x / 10 * 16 + x % 10

-- How the clock writes the hour: from 0 to 23, or from 1 to 12 with the top bit in the afternoon.
abbrev pub written_hour : (bin full : Bool) → ℕ → ℕ
written_hour bin true h = written bin h
written_hour bin false h =
    written bin (if h % 12 == 0 then 12 else h % 12) + (if ltb h 12 then 0 else 128)

-- The registers of a clock that shows a date from 2000 to 2099 in a given format.
pub record Shows (bin full : Bool) (tm : Tm) (reg : ℕ → ℕ) : Type 0 where
  pub sec : reg 0 ≡ written bin tm.tm_sec
  pub min : reg 2 ≡ written bin tm.tm_min
  pub hour : reg 4 ≡ written_hour bin full tm.tm_hour
  pub mday : reg 7 ≡ written bin tm.tm_mday
  pub mon : reg 8 ≡ written bin (tm.tm_mon + 1)
  pub year : reg 9 ≡ written bin (tm.tm_year - 100)
  pub format : reg 11 ≡ (if full then 2 else 0) + (if bin then 4 else 0)

pub record IsShown (tm : Tm) : Type 0 where
  pub sec : tm.tm_sec < 60
  pub min : tm.tm_min < 60
  pub hour : tm.tm_hour < 24
  pub mday : tm.tm_mday < 32
  pub mon : tm.tm_mon < 12
  pub from : 100 ≤ tm.tm_year
  pub to : tm.tm_year < 200
  pub wday : tm.tm_wday ≡ 0
  pub yday : tm.tm_yday ≡ 0
