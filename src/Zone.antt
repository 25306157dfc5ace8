-- ===== src/Zone.antt =====
-- The dates of package time in one time zone. An instant is in nanoseconds and a date is a number of days,
-- both from Go's zero time.
use alvo_backtester.Base.{ℕ, ◌+◌, ◌*◌, ◌≡◌}

abbrev pub minute : ℕ
minute = 60000000000

abbrev pub day_length : ℕ
day_length = 1440 * minute

-- What the program reads of a `time.Location`: the date of an instant and the time on its clock, and
-- `time.Date`, the instant of a date and a time. Where a clock is put forward over a midnight, the instant of
-- that midnight has another date.
pub record Zone : Type 0 where
  pub day_of : ℕ → ℕ
  pub clock_of : ℕ → ℕ
  pub date_time : ℕ → ℕ → ℕ

-- `time.Time.AddDate` of a number of days.
abbrev pub add_days : Zone → ℕ → ℕ → ℕ
add_days z ts n = z.date_time (z.day_of ts + n) (z.clock_of ts)

-- From this instant on the zone keeps its offset: so many days are so many times twenty-four hours.
pub record KeepsOffset (z : Zone) (start : ℕ) : Type 0 where
  pub dates : (n : ℕ) → z.day_of (start + n * day_length) ≡ z.day_of start + n
  pub clocks : (n : ℕ) → z.clock_of (start + n * day_length) ≡ z.clock_of start
  pub instants :
      (n : ℕ) → z.date_time (z.day_of start + n) (z.clock_of start) ≡ start + n * day_length
