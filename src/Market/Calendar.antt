-- ===== src/Market/Calendar.antt =====
-- internal/market/calendar.go: the session of a day and the search for trading days. A day is the number of
-- days from Go's zero time, which is a Monday, and a search backwards ends there. `at` is the instant at a
-- minute of a day, which rests on time zones. The searches step from date to date; a midnight that the zone
-- skips is in the loop of `TradingDays` only, which is on instants. An error, and a false beside a zero
-- value, is `none`.
pub mod Nearest
pub mod Walk
use alvo_backtester.Base.{
  ℕ, zero, suc, ◌+◌, ◌-◌, ◌*◌, ◌%◌, ◌==◌, Bool, true, false, not, ◌&&◌, ◌||◌, Option, none, some,
  List, [], ◌∷◌, ltb, leb, if◌then◌else◌,
}
use alvo_backtester.Zone.{Zone, add_days, minute}
use alvo_backtester.Market.Resample.{Session}

abbrev pub max_day_search : ℕ
max_day_search = 30

-- `type Holiday`, less its date, which is the key it is under, and its name.
pub record Holiday : Type 0 where
  pub open_min : ℕ
  pub close_min : ℕ
  pub closed : Bool

-- `type Calendar`, less its location and its years.
pub record Calendar : Type 0 where
  pub open_min : ℕ
  pub close_min : ℕ
  pub days : List (ℕ × Holiday)

-- The look-up of `days`, which has a key once.
unfoldable pub holiday_in : List (ℕ × Holiday) → ℕ → Option Holiday
holiday_in [] day = none
holiday_in ((key, holiday) ∷ days) day =
    let rest = holiday_in days day in if key == day then some holiday else rest

unfoldable pub weekend : ℕ → Bool
weekend day = day % 7 == 5 || day % 7 == 6

unfoldable pub session_by : (ℕ → ℕ → ℕ) → Calendar → ℕ → Option Holiday → Option Session
session_by at c day none = some (record { opens = at day c.open_min; closes = at day c.close_min })
session_by at c day (some holiday) =
    if holiday.closed
    then none
    else some (record { opens = at day holiday.open_min; closes = at day holiday.close_min })

-- `Calendar.Session`, of a day at midnight.
unfoldable pub session : (ℕ → ℕ → ℕ) → Calendar → ℕ → Option Session
unfolding weekend session_by holiday_in
session at c day = if weekend day then none else session_by at c day (holiday_in c.days day)

unfoldable pub is_trading_day : (ℕ → ℕ → ℕ) → Calendar → ℕ → Bool
unfolding session
is_trading_day at c day = elim (session at c day) [ none ↦ false | some s ↦ true ]

-- `Session.Contains`
unfoldable pub contains : Session → ℕ → Bool
contains s ts = not (ltb ts s.opens) && ltb ts s.closes

-- The end of `Calendar.SessionAt`.
unfoldable pub session_if_open : ℕ → Option Session → Option Session
unfolding contains
session_if_open ts none = none
session_if_open ts (some s) = if not (contains s ts) then none else some s

-- `Calendar.midnight`
unfoldable pub midnight : Zone → ℕ → ℕ
midnight z ts = z.date_time (z.day_of ts) 0

-- `Calendar.at`, of the midnight's day.
unfoldable pub instant_at : Zone → ℕ → ℕ → ℕ
instant_at z day minutes = z.date_time day (minutes * minute)

-- `dateKey` of a session's day, which is a midnight.
unfoldable pub day_key : Zone → ℕ → ℕ
unfolding midnight
day_key z ts = z.day_of (midnight z ts)

-- `Calendar.Session`, of an instant.
unfoldable pub session_on : Zone → Calendar → ℕ → Option Session
unfolding day_key instant_at session
session_on z c ts = session (instant_at z) c (day_key z ts)

-- `Calendar.IsTradingDay`, of an instant.
unfoldable pub trades_on : Zone → Calendar → ℕ → Bool
unfolding day_key instant_at is_trading_day
trades_on z c ts = is_trading_day (instant_at z) c (day_key z ts)

-- `Calendar.SessionAt`
unfoldable pub session_at : Zone → Calendar → ℕ → Option Session
unfolding session_if_open session_on
session_at z c ts = session_if_open ts (session_on z c ts)

-- The loops of the two searches, on what is a trading day.
unfoldable pub search_next : (ℕ → Bool) → ℕ → ℕ → Option ℕ
search_next trades cursor zero = none
search_next trades cursor (suc steps) =
    let rest = search_next trades (cursor + 1) steps in
    if trades (cursor + 1) then some (cursor + 1) else rest

unfoldable pub search_prev : (ℕ → Bool) → ℕ → ℕ → Option ℕ
search_prev trades cursor zero = none
search_prev trades zero (suc steps) = none
search_prev trades (suc cursor) (suc steps) =
    let rest = search_prev trades cursor steps in if trades cursor then some cursor else rest

-- `Calendar.NextTradingDay`
unfoldable pub next_trading_day : (ℕ → ℕ → ℕ) → Calendar → ℕ → Option ℕ
unfolding search_next is_trading_day
next_trading_day at c day = search_next (is_trading_day at c) day max_day_search

-- `Calendar.PrevTradingDay`
unfoldable pub prev_trading_day : (ℕ → ℕ → ℕ) → Calendar → ℕ → Option ℕ
unfolding search_prev is_trading_day
prev_trading_day at c day = search_prev (is_trading_day at c) day max_day_search

-- The loop of `Calendar.TradingDays`, with room for so many more steps. A cursor that `AddDate` has brought
-- to a later hour than midnight keeps that hour.
unfoldable pub days_from : Zone → Calendar → ℕ → ℕ → ℕ → List ℕ
unfolding trades_on
days_from z c zero to cursor = []
days_from z c (suc room) to cursor = elim (ltb to cursor) [
  | false ↦
      let rest = days_from z c room to (add_days z cursor 1) in
      if trades_on z c cursor then cursor ∷ rest else rest
  | true ↦ []
]

unfoldable pub trading_days : Zone → Calendar → ℕ → ℕ → List ℕ
unfolding days_from midnight
trading_days z c from to = days_from z c (to + 1 - midnight z from) to (midnight z from)
