-- ===== src/Backtest/Book.antt =====
-- internal/backtest/run.go, engine.go and book.go: the state of a run. Cents, quantities and
-- counters are `int64` words.
pub mod Timeline
use alvo_backtester.Base.{
  ℕ, zero, suc, ◌+◌, ◌==◌, Bool, true, false, Option, none, some, String, List, [], ◌∷◌, map,
  get_elem?, length, if◌then◌else◌, Float,
}
use alvo_backtester.Indicator.{Candle as Sample, Indicator}
use alvo_backtester.Market.Bar.{Candle, Borrow}
use alvo_backtester.Strategy.Spec.{LevelType, level_pct, level_atr}
use alvo_backtester.Strategy.Plan.{PlanUnit, Plan}
use alvo_backtester.Strategy.Tape.{Tape, new_tape, prime}
use alvo_backtester.Backtest.Broker.{Costing}
use alvo_backtester.Backtest.Actions.{Actions, actions_of}

-- `type Symbol`, less its kind, which no run reads.
pub record Symbol (F : Type 0) : Type 0 where
  pub id : ℕ
  pub ticker : String
  pub lot_size : ℕ
  pub tick_size : F

pub record Instrument (F : Type 0) : Type 0 where
  pub symbol : Symbol F
  pub primed : List (Candle F)
  pub candles : List (Candle F)

pub data Reason : Type 0 where
  reason_signal reason_stop reason_target reason_split reason_end_of_run : Reason

-- `is_short` is the side.
pub record Trade (F : Type 0) : Type 0 where
  pub seq : ℕ
  pub symbol_id : ℕ
  pub symbol : String
  pub is_short : Bool
  pub qty : ℕ
  pub entry_ts : ℕ
  pub entry_price : F
  pub exit_ts : ℕ
  pub exit_price : F
  pub pnl_cents : ℕ
  pub fees_cents : ℕ
  pub dividends_cents : ℕ
  pub borrow_cents : ℕ
  pub split_cash_cents : ℕ
  pub exit_reason : Reason

pub record EquityPoint : Type 0 where
  pub ts : ℕ
  pub cents : ℕ

-- `type bracket` of the engine; one that is not set is `none`.
pub record Distance (F : Type 0) : Type 0 where
  pub kind : LevelType
  pub value : F

pub data IntentKind : Type 0 where
  intent_none intent_enter intent_exit : IntentKind

pub record Intent (F : Type 0) : Type 0 where
  pub kind : IntentKind
  pub short : Bool
  pub stop : Option (Distance F)
  pub target : Option (Distance F)

-- `intent{}`
abbrev pub no_intent : {F : Type 0} → Intent F
no_intent = record { kind = intent_none; short = false; stop = none; target = none }

-- `is_open` is `open`.
pub record Position (F : Type 0) : Type 0 where
  pub is_open : Bool
  pub short : Bool
  pub qty : ℕ
  pub entry_ts : ℕ
  pub entry_price : F
  pub entry_cents : ℕ
  pub fees_cents : ℕ
  pub div_cents : ℕ
  pub borrow_cents : ℕ
  pub borrow_owed : F
  pub split_cents : ℕ
  pub stop : F
  pub target : F

-- The counters of `SymbolStats` that a run keeps as it goes.
pub record SymbolStats : Type 0 where
  pub trades : ℕ
  pub wins : ℕ
  pub losses : ℕ
  pub pnl_cents : ℕ
  pub fees_cents : ℕ
  pub dividends_cents : ℕ
  pub borrow_cents : ℕ
  pub bars_in_market : ℕ

-- The counters of `Metrics` that a run keeps as it goes.
pub record Metrics : Type 0 where
  pub bars_in_market : ℕ
  pub dividends_cents : ℕ
  pub dividend_events : ℕ
  pub borrow_cents : ℕ
  pub split_cash_cents : ℕ
  pub ambiguous_bars : ℕ
  pub skipped_entries : ℕ
  pub shorts_unavailable : ℕ
  pub split_events : ℕ
  pub splits_applied : ℕ

-- `at` counts the bars that have been handed out.
pub record Book (F : Type 0) : Type 0 where
  pub symbol : Symbol F
  pub candles : List (Candle F)
  pub acts : Actions F
  pub tape : Tape F
  pub costing : Costing F
  pub at : ℕ
  pub pos : Position F
  pub pending : Intent F
  pub stats : SymbolStats

-- `type engine`, less its books, which stand beside it, and with what it reads of the request.
-- `units` are the units of the plan, whose indicators all tapes share.
pub record Engine (F S : Type 0) : Type 0 where
  pub borrow : Option (Borrow F)
  pub bars_per_year : F
  pub plan : Plan F
  pub units : List (PlanUnit S)
  pub stamps : List ℕ
  pub cash : ℕ
  pub trades : List (Trade F)
  pub equity : List EquityPoint
  pub held : List ℕ
  pub metrics : Metrics
  pub seq : ℕ

-- What the loop of a run reads of its request, with the units of the plan beside it.
pub record Request (F S : Type 0) : Type 0 where
  pub plan : Plan F
  pub units : List (PlanUnit S)
  pub instruments : List (Instrument F)
  pub capital : ℕ
  pub borrow : Option (Borrow F)
  pub bars_per_year : F

abbrev pub no_stats : SymbolStats
no_stats = record {
  trades = 0;
  wins = 0;
  losses = 0;
  pnl_cents = 0;
  fees_cents = 0;
  dividends_cents = 0;
  borrow_cents = 0;
  bars_in_market = 0;
}

module _ {F : Type 0} ⦃fl : Float F⦄ where
  open fl use {decimal, of_int}

  -- `position{}`
  abbrev pub no_position : Position F
  no_position = record {
    is_open = false;
    short = false;
    qty = 0;
    entry_ts = 0;
    entry_price = decimal 0 0;
    entry_cents = 0;
    fees_cents = 0;
    div_cents = 0;
    borrow_cents = 0;
    borrow_owed = decimal 0 0;
    split_cents = 0;
    stop = decimal 0 0;
    target = decimal 0 0;
  }

  -- `candleFor`
  unfoldable pub candle_for : Candle F → Sample F
  candle_for c = record {
    ts = c.ts;
    opening = c.opening;
    high = c.high;
    low = c.low;
    close = c.close;
    volume = of_int c.volume;
  }

-- `book.advance`: the bar of this stamp and its place, if the book has one there.
module _ {F : Type 0} where
  unfoldable pub advance_at : Option (Candle F) → ℕ → Book F → Book F × Option (Candle F × ℕ)
  advance_at none ts b = (b, none)
  advance_at (some c) ts b =
      if c.ts == ts then (record b { at = b.at + 1 }, some (c, b.at)) else (b, none)

  unfoldable pub advance : ℕ → Book F → Book F × Option (Candle F × ℕ)
  advance ts b = advance_at (get_elem? b.candles b.at) ts b

  -- `book.final`
  unfoldable pub final : Book F → ℕ → Bool
  final b at = at + 1 == length b.candles

  -- `book.held`: the last bar that was handed out.
  held_at : List (Candle F) → ℕ → Option (Candle F)
  held_at cs zero = none
  held_at cs (suc n) = get_elem? cs n

  unfoldable pub held : Book F → Option (Candle F)
  unfolding held_at
  held b = held_at b.candles b.at

module _ {F S : Type 0} ⦃fl : Float F⦄ ⦃ind : Indicator S F⦄ where
  -- `newBook`
  unfoldable pub new_book : Plan F → Instrument F → List (PlanUnit S) → List (PlanUnit S) × Book F
  unfolding candle_for
  new_book plan i us =
      let (fresh, tape) = new_tape plan us in
      let (us', tape') = prime plan (map candle_for i.primed) fresh tape in
      (
        us',
        record {
          symbol = i.symbol;
          candles = i.candles;
          acts = actions_of i.candles;
          tape = tape';
          costing = record { costs = plan.costs; tick_size = i.symbol.tick_size };
          at = 0;
          pos = no_position;
          pending = no_intent;
          stats = no_stats;
        },
      )
