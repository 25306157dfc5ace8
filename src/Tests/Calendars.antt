-- ===== src/Tests/Calendars.antt =====
-- The theorems on trading days and gaps, applied to a calendar with one holiday.
use alvo_backtester.Base.{
  ℕ, map, ◌+◌, ◌*◌, ◌≡◌, refl, true, Option, some, none, List, [], ◌∷◌, length, add64,
}
use alvo_backtester.Zone.{minute}
use alvo_backtester.Market.Page.{tf_1d, bucket_width}
use alvo_backtester.Market.Calendar.{
  Calendar, weekend, holiday_in, session_by, session, contains, is_trading_day, midnight, day_key,
  instant_at, session_on, trades_on, days_from, trading_days,
}
use alvo_backtester.Market.Gaps.{
  GapReport, stored, bucket_count, found_on, count_day, is_expected, count_bar, count_bars, insert,
  sorted, classed, check_day, check_days, no_gaps, report_of, find_gaps,
}
use alvo_backtester.Market.Gaps.Missing.{is_missing, find_gaps-counts}
use alvo_backtester.Market.Calendar.Walk.{chosen, Walks}
use alvo_backtester.Tests.Zones.{plain_zone, plain_zone_later}

-- The time zone is that of the instants.
abbrev clock : ℕ → ℕ → ℕ
clock day at = (day * 1440 + at) * minute

-- Day 14, a Monday, is a holiday.
abbrev week : Calendar
week = record {
  open_min = 570;
  close_min = 960;
  days = (14, record { open_min = 570; close_min = 960; closed = true }) ∷ [];
}

-- A bar on the Friday, and one on the Saturday.
abbrev two_bars : List ℕ
two_bars = clock 11 600 ∷ clock 12 600 ∷ []

abbrev or_no_gaps : Option GapReport → GapReport
or_no_gaps none = no_gaps
or_no_gaps (some r) = r

abbrev gaps : GapReport
gaps = or_no_gaps (find_gaps plain_zone week tf_1d (clock 11 0) (clock 15 0) two_bars)

gaps_found : find_gaps plain_zone week tf_1d (clock 11 0) (clock 15 0) two_bars ≡ some gaps
unfolding find_gaps midnight day_key instant_at session_on trades_on stored report_of count_bars
    trading_days no_gaps check_days sorted check_day session insert classed found_on bucket_count
    bucket_width count_bar is_expected contains count_day days_from is_trading_day weekend
    holiday_in session_by add64
gaps_found = refl

tuesday_missing : gaps.missing ≡ clock 15 0 ∷ []
unfolding find_gaps midnight day_key instant_at session_on trades_on stored report_of count_bars
    trading_days no_gaps check_days sorted check_day session insert classed found_on bucket_count
    bucket_width count_bar is_expected contains count_day days_from is_trading_day weekend
    holiday_in session_by add64
tuesday_missing = refl

find_gaps-counts_example :
    (gaps.bars + length gaps.unexpected ≡ length two_bars)
    × ((days : List ℕ) × Walks plain_zone (clock 15 0) (midnight plain_zone (clock 11 0)) days
        × (gaps.missing
            ≡ map (midnight plain_zone) (chosen (is_missing plain_zone week two_bars) days)))
find_gaps-counts_example =
    find_gaps-counts plain_zone week tf_1d (clock 11 0) (clock 15 0) two_bars gaps plain_zone_later
      gaps_found
