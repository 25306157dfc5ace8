-- ===== src/Tests/Zones.antt =====
-- Two zones, one without an offset and one that puts its clocks forward over a midnight, and what a range over
-- that midnight is for the program.
use alvo_backtester.Base.{
  ℕ, ◌+◌, ◌-◌, ◌*◌, ◌/◌, ◌%◌, ◌<◌, ◌≡◌, refl, arith, ltb, if◌then◌else◌, none, [], length,
}
use alvo_backtester.Zone.{Zone, KeepsOffset, add_days, day_length}
use alvo_backtester.Market.Calendar.{
  Calendar, midnight, day_key, instant_at, weekend, holiday_in, session_by, session, is_trading_day,
  trades_on, days_from, trading_days,
}
use alvo_backtester.Sweep.Folds.{fold_at, folds_from, some_folds, span_days, folds}

abbrev pub plain_zone : Zone
plain_zone = record {
  day_of = λ ts. ts / day_length;
  clock_of = λ ts. ts % day_length;
  date_time = λ day clock. day * day_length + clock;
}

pub plain_zone-KeepsOffset : (start : ℕ) → KeepsOffset plain_zone start
plain_zone-KeepsOffset start = record {
  dates = λ n. omega arith;
  clocks = λ n. omega arith;
  instants = λ n. omega arith;
}

pub plain_zone_later : (ts : ℕ) → ts < add_days plain_zone ts 1
plain_zone_later ts = omega arith

abbrev hour : ℕ
hour = 3600000000000

-- The midnight of day 13, a Sunday, is skipped: at the instant that it would be it is one o'clock.
abbrev forward : ℕ → ℕ
forward ts = if ltb ts (13 * day_length) then ts else ts + hour

abbrev summer_zone : Zone
summer_zone = record {
  day_of = λ ts. forward ts / day_length;
  clock_of = λ ts. forward ts % day_length;
  date_time = λ day clock.
      let wall = day * day_length + clock in
      if ltb wall (13 * day_length) then wall else wall - hour;
}

abbrev plain_week : Calendar
plain_week = record { open_min = 570; close_min = 960; days = [] }

-- From Friday, day 11, to Tuesday, day 15, there are three trading days, and in the zone with the skipped
-- midnight the last of them is left out.
plain_days :
    length (trading_days plain_zone plain_week (11 * day_length) (plain_zone.date_time 15 0)) ≡ 3
unfolding trading_days days_from trades_on day_key midnight instant_at is_trading_day session
    weekend holiday_in session_by
plain_days = refl

summer_days :
    length (trading_days summer_zone plain_week (11 * day_length) (summer_zone.date_time 15 0)) ≡ 2
unfolding trading_days days_from trades_on day_key midnight instant_at is_trading_day session
    weekend holiday_in session_by
summer_days = refl

-- Ten days over the skipped midnight are not enough for a fold of five and five.
summer_folds : folds summer_zone (8 * day_length) (summer_zone.date_time 17 0) 5 5 ≡ none
unfolding folds folds_from fold_at some_folds span_days
summer_folds = refl
