-- ===== src/Frame/CzechTime.antt =====
-- protocol/frames.py: the Czech civil time of an instant. A day is its ordinal in the proleptic
-- Gregorian calendar, as of `date.toordinal`: 1 is the first of January of the year 1.
use oig_proxy.Common.{
  ℕ, ◌+◌, ◌-◌, ◌*◌, ◌/◌, ◌%◌, ◌≤◌, ◌<◌, ◌≡◌, refl, Bool, not, ◌&&◌, ◌||◌, arith, ltb, leb, nat_beq,
  if◌then◌else◌,
}

-- A `datetime` in UTC: its year, the ordinal of its day, and the second in the day.
pub record Instant : Type 0 where
  pub year : ℕ
  pub day : ℕ
  pub second : ℕ

unfoldable pub is_leap : ℕ → Bool
is_leap y = nat_beq (y % 4) 0 && (not (nat_beq (y % 100) 0) || nat_beq (y % 400) 0)

-- the days of the years before
unfoldable pub days_before_year : ℕ → ℕ
days_before_year y = (y - 1) * 365 + (y - 1) / 4 - (y - 1) / 100 + (y - 1) / 400

-- The ordinal of the first day after March, or after October, the two months that are asked for.
unfoldable pub first_day_after : (year month : ℕ) → ℕ
unfolding days_before_year is_leap
first_day_after year month =
    days_before_year year
    + (if nat_beq month 3 then 90 else 304)
    + (if is_leap year then 1 else 0)
    + 1

-- `weekday`: Monday is 0.
unfoldable pub weekday : ℕ → ℕ
weekday day = (day + 6) % 7

-- `_last_sunday`, at midnight
unfoldable pub last_sunday : (year month : ℕ) → ℕ
unfolding first_day_after weekday
last_sunday year month = let day = first_day_after year month - 1 in day - (weekday day + 1) % 7

-- `hour` o'clock of a day is not after the instant.
unfoldable pub is_since : (day hour : ℕ) → Instant → Bool
is_since day hour t = ltb day t.day || (nat_beq day t.day && leb (hour * 3600) t.second)

unfoldable pub shift : (hours : ℕ) → Instant → ℕ × ℕ
shift hours t = (t.day + (t.second + hours * 3600) / 86400, (t.second + hours * 3600) % 86400)

-- `czech_local_datetime_from_utc`: the day, and the second in it
unfoldable pub czech_local_datetime_from_utc : Instant → ℕ × ℕ
unfolding last_sunday is_since shift
czech_local_datetime_from_utc t =
    let summer =
      is_since (last_sunday t.year 3) 1 t && not (is_since (last_sunday t.year 10) 1 t) in
    shift (if summer then 2 else 1) t

-- A Sunday among the last seven days of the month.
pub record IsLastSunday (year month day : ℕ) : Type 0 where
  pub sunday : weekday day ≡ 6
  pub late : first_day_after year month ≤ day + 7
  pub within : day < first_day_after year month

last_of_week :
    (n day : ℕ)
    → weekday day ≡ 6
    → n ≤ day + 7
    → day < n
    → (n - 1) - (weekday (n - 1) + 1) % 7 ≡ day
unfolding weekday
last_of_week n day s l w = omega (arith, s, l, w)

last_sunday-IsLastSunday :
    (year month day : ℕ) → IsLastSunday year month day → last_sunday year month ≡ day
unfolding last_sunday
last_sunday-IsLastSunday year month day h =
    last_of_week (first_day_after year month) day h.sunday h.late h.within

-- With the last Sundays of March and of October of its year, whatever they are found by: the Czech
-- time of an instant is two hours ahead from 1:00 UTC of the one until 1:00 UTC of the other, and
-- one hour ahead otherwise.
pub czech_local_datetime_from_utc_lem :
    (t : Instant) (march october : ℕ)
    → IsLastSunday t.year 3 march
    → IsLastSunday t.year 10 october
    → czech_local_datetime_from_utc t
      ≡ shift (if is_since march 1 t && not (is_since october 1 t) then 2 else 1) t
unfolding czech_local_datetime_from_utc
czech_local_datetime_from_utc_lem t march october m o =
    rw (last_sunday-IsLastSunday t.year 3 march m, last_sunday-IsLastSunday t.year 10 october o)
      refl
