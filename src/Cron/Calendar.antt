-- ===== src/Cron/Calendar.antt =====
-- What the cron parser uses of time.Time, in UTC and from 1970 on: the parts of the date of a
-- minute, counted since the Unix epoch.
use distributed_task_schedul.Prelude.{ℕ, ◌+◌, ◌-◌, ◌*◌, ◌/◌, ◌%◌, ltb, if◌then◌else◌}

unfoldable pub minute_of : ℕ → ℕ
minute_of m = m % 60

unfoldable pub hour_of : ℕ → ℕ
hour_of m = m / 60 % 24

-- 1 January 1970 was a Thursday; Sunday is 0.
unfoldable pub weekday_of : ℕ → ℕ
weekday_of m = (m / 1440 + 4) % 7

-- The day of the 400-year cycle that begins on 1 March, the year in it, and the day of that year.
abbrev cycle_day : ℕ → ℕ
cycle_day m = (m / 1440 + 719468) % 146097

abbrev cycle_year : ℕ → ℕ
cycle_year d = (d - d / 1460 + d / 36524 - d / 146096) / 365

abbrev year_day : ℕ → ℕ
year_day d = let y = cycle_year d in d - (365 * y + y / 4 - y / 100)

-- The months since March.
abbrev month_index : ℕ → ℕ
month_index y = (5 * y + 2) / 153

unfoldable pub day_of : ℕ → ℕ
day_of m = let y = year_day (cycle_day m) in y - (153 * month_index y + 2) / 5 + 1

unfoldable pub month_of : ℕ → ℕ
month_of m = let i = month_index (year_day (cycle_day m)) in if ltb i 10 then i + 3 else i - 9
