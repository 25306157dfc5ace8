-- ===== src/Market/Gaps.antt =====
-- internal/market/gaps.go, and `BucketCount` of candle.go: which trading days lack bars. A day that a report
-- names is an instant, its midnight; a key of the counts is a date. The counters
-- stay below the number of bars and of days, and do not wrap round.
pub mod Bars
pub mod Missing
use alvo_backtester.Base.{
  ℕ, zero, suc, ◌+◌, ◌-◌, ◌*◌, ◌/◌, ◌==◌, Bool, true, false, not, ◌&&◌, ◌||◌, Option, none, some,
  List, [], ◌∷◌, ◌++◌, ltb, leb, add64, if◌then◌else◌,
}
use alvo_backtester.Zone.{Zone, minute}
use alvo_backtester.Market.Page.{Timeframe, tf_5m, tf_15m, tf_30m, tf_1h, tf_1d, bucket_width}
use alvo_backtester.Market.Resample.{Session}
use alvo_backtester.Market.Calendar.{
  Calendar, session_on, day_key, midnight, contains, trading_days,
}

-- `Timeframe.Stored`
unfoldable pub stored : Timeframe → Bool
stored tf_5m = true
stored tf_1d = true
stored _ = false

-- `BucketCount`, of a session that closes after it opens.
unfoldable pub bucket_count : Timeframe → Session → ℕ
unfolding bucket_width
bucket_count tf_1d s = 1
bucket_count tf s = let width = bucket_width tf * minute in (s.closes - s.opens + width - 1) / width

-- `type SessionCoverage`
pub record SessionCoverage : Type 0 where
  pub day : ℕ
  pub expected : ℕ
  pub present : ℕ

-- `type GapReport`, less what it repeats of the request.
pub record GapReport : Type 0 where
  pub sessions : ℕ
  pub expected : ℕ
  pub bars : ℕ
  pub missing : List ℕ
  pub partial : List SessionCoverage
  pub unexpected : List ℕ

-- The map `counts`, where a missing key reads 0.
unfoldable pub found_on : List (ℕ × ℕ) → ℕ → ℕ
found_on [] day = 0
found_on ((key, n) ∷ counts) day = let rest = found_on counts day in if key == day then n else rest

unfoldable pub count_day : List (ℕ × ℕ) → ℕ → List (ℕ × ℕ)
count_day [] day = (day, 1) ∷ []
count_day ((key, n) ∷ counts) day =
    let rest = count_day counts day in if key == day then (key, n + 1) ∷ counts else (key, n) ∷ rest

-- The first loop, on the counts and the report.
abbrev pub Census : Type 0
Census = List (ℕ × ℕ) × GapReport

unfoldable pub is_expected : Option Session → ℕ → Bool
unfolding contains
is_expected none ts = false
is_expected (some s) ts = contains s ts

unfoldable pub count_bar : ℕ → ℕ → Bool → Census → Census
unfolding count_day
count_bar day ts false (counts, r) = (counts, record r { unexpected = r.unexpected ++ (ts ∷ []) })
count_bar day ts true (counts, r) = (count_day counts day, record r { bars = r.bars + 1 })

unfoldable pub count_bars : Zone → Calendar → List ℕ → Census → Census
unfolding count_bar is_expected session_on
count_bars z c [] census = census
count_bars z c (ts ∷ rest) census =
    count_bars z c rest (count_bar (day_key z ts) ts (is_expected (session_on z c ts) ts) census)

-- `slices.SortFunc` on the instants; equal ones are the same.
unfoldable pub insert : ℕ → List ℕ → List ℕ
insert ts [] = ts ∷ []
insert ts (u ∷ us) = let rest = insert ts us in if leb ts u then ts ∷ u ∷ us else u ∷ rest

unfoldable pub sorted : List ℕ → List ℕ
unfolding insert
sorted [] = []
sorted (ts ∷ rest) = insert ts (sorted rest)

-- The `switch` of the second loop, and the loop.
unfoldable pub classed : ℕ → ℕ → ℕ → GapReport → GapReport
classed day expected found r =
    if found == 0
    then record r { missing = r.missing ++ (day ∷ []) }
    else if ltb found expected
    then record r {
      partial = r.partial ++ (record { day = day; expected = expected; present = found } ∷ []);
    }
    else r

unfoldable pub check_day : Timeframe → List (ℕ × ℕ) → ℕ → ℕ → Option Session → GapReport → GapReport
unfolding classed found_on bucket_count
check_day tf counts key day none r = r
check_day tf counts key day (some s) r =
    let expected = bucket_count tf s in
    classed day expected (found_on counts key)
      (record r { sessions = r.sessions + 1; expected = add64 r.expected expected })

unfoldable pub check_days :
    Zone → Calendar → Timeframe → List (ℕ × ℕ) → List ℕ → GapReport → GapReport
unfolding check_day session_on midnight day_key
check_days z c tf counts [] r = r
check_days z c tf counts (day ∷ days) r =
    check_days z c tf counts days
      (check_day tf counts (day_key z day) (midnight z day) (session_on z c day) r)

unfoldable pub no_gaps : GapReport
no_gaps = record {
  sessions = 0;
  expected = 0;
  bars = 0;
  missing = [];
  partial = [];
  unexpected = [];
}

unfoldable pub report_of : Zone → Calendar → Timeframe → List ℕ → Census → GapReport
unfolding check_days sorted
report_of z c tf days (counts, r) =
    check_days z c tf counts days (record r { unexpected = sorted r.unexpected })

-- `FindGaps`; an error is `none`.
unfoldable pub find_gaps : Zone → Calendar → Timeframe → ℕ → ℕ → List ℕ → Option GapReport
unfolding stored report_of count_bars trading_days no_gaps
find_gaps z c tf from to present =
    if not (stored tf) || ltb to from
    then none
    else some (report_of z c tf (trading_days z c from to) (count_bars z c present ([], no_gaps)))
