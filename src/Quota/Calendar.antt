-- ===== src/Quota/Calendar.antt =====
-- Go's package time, as far as internal/inference/quota/window.go uses it: an instant in UTC is the
-- number of nanoseconds since the start of year 0, and the civil fields are those of the proleptic
-- Gregorian calendar.
pub mod Laws
use yunhou_users.Common.{
  ℕ, zero, suc, ◌+◌, ◌-◌, ◌*◌, ◌/◌, ◌%◌, Bool, not, ◌&&◌, ◌||◌, ltb, ◌==◌, if◌then◌else◌,
}
use yunhou_users.Domain.Errors.{Time}

pub record Civil : Type 0 where
  pub year : ℕ
  pub month : ℕ
  pub day : ℕ
  -- hour, minute, second and nanosecond, as nanoseconds of the day
  pub clock : ℕ

abbrev pub day_nanos : ℕ
day_nanos = 86400000000000

-- Months counted from January of year 0.
abbrev pub month_index : Civil → ℕ
month_index c = c.year * 12 + (c.month - 1)

unfoldable pub is_leap : ℕ → Bool
is_leap y = (y % 4 == 0 && not (y % 100 == 0)) || y % 400 == 0

-- The days of the month with this index.
unfoldable pub days_of : ℕ → ℕ
unfolding is_leap
days_of m =
    if m % 12 == 1
    then (if is_leap (m / 12) then 29 else 28)
    else if m % 12 == 3 || m % 12 == 5 || m % 12 == 8 || m % 12 == 10
    then 30
    else 31

-- The days before the month with this index.
unfoldable pub month_start : ℕ → ℕ
month_start zero = 0
month_start (suc m) = month_start m + days_of m

-- The month that the day falls into, counted on from month `m`, and the days before it there.
unfoldable pub find_month : ℕ → ℕ → ℕ → ℕ × ℕ
find_month zero m d = (m, d)
find_month (suc fuel) m d =
    let later = find_month fuel (suc m) (d - days_of m) in
    if ltb d (days_of m) then (m, d) else later

-- `t.Year()`, `t.Month()`, `t.Day()` and the clock. Every month has a day, so the number of days
-- is fuel enough.
unfoldable pub civil : Time → Civil
civil t =
    let (m, d) = find_month (suc (t / day_nanos)) 0 (t / day_nanos) in
    record { year = m / 12; month = m % 12 + 1; day = d + 1; clock = t % day_nanos }

-- `time.Date(year, month, day, ..., time.UTC)` at fields in their ranges.
unfoldable pub date : Civil → Time
date c = (month_start (month_index c) + (c.day - 1)) * day_nanos + c.clock
