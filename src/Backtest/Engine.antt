-- ===== src/Backtest/Engine.antt =====
-- internal/backtest/engine.go: what happens to a position between its entry and its exit, and the
-- record of its trade. Every method takes the engine and one of its books, and returns both.
use alvo_backtester.Base.{
  ℕ, zero, suc, ◌+◌, ◌%◌, ◌^◌, not, ◌||◌, ◌==◌, Option, none, some, [], ◌∷◌, ◌++◌, get_elem?,
  if◌then◌else◌, Float, add64, sub64, neg64, lt64, le64,
}
use alvo_backtester.Market.Bar.{Candle}
use alvo_backtester.Backtest.Broker.{notional}
use alvo_backtester.Backtest.Actions.{dividend_at, factor_at}
use alvo_backtester.Backtest.Book.{
  Reason, reason_split, Trade, SymbolStats, Position, Book, Engine, no_position,
}

abbrev pub State : Type 0 → Type 0 → Type 0
State F S = Engine F S × Book F

-- The profit of a trade's two sides, dividends, borrow, split cash and fees, in cents.
abbrev pub pnl_of : {F : Type 0} → ℕ → Position F → ℕ → ℕ
pnl_of gross p total =
    sub64 (sub64 (add64 (add64 gross p.div_cents) p.split_cents) p.borrow_cents) total

abbrev pub counted : ℕ → ℕ → SymbolStats → SymbolStats
counted pnl total s = record s {
  trades = add64 s.trades 1;
  pnl_cents = add64 s.pnl_cents pnl;
  fees_cents = add64 s.fees_cents total;
  wins = if lt64 0 pnl then add64 s.wins 1 else s.wins;
  losses = if lt64 pnl 0 then add64 s.losses 1 else s.losses;
}

-- The trade that `engine.record` appends.
abbrev pub trade_of : {F : Type 0} → ℕ → ℕ → F → ℕ → ℕ → Reason → Book F → Trade F
trade_of seq ts price pnl total reason b = record {
  seq = seq;
  symbol_id = b.symbol.id;
  symbol = b.symbol.ticker;
  is_short = b.pos.short;
  qty = b.pos.qty;
  entry_ts = b.pos.entry_ts;
  entry_price = b.pos.entry_price;
  exit_ts = ts;
  exit_price = price;
  pnl_cents = pnl;
  fees_cents = total;
  dividends_cents = b.pos.div_cents;
  borrow_cents = b.pos.borrow_cents;
  split_cash_cents = b.pos.split_cents;
  exit_reason = reason;
}

-- A stop or a target, where there is one, divided by the factor of a split.
abbrev rescaled : {F : Type 0} ⦃fl : Float F⦄ → F → F → F
rescaled ⦃fl⦄ level factor = if fl.lt (fl.decimal 0 0) level then fl.div level factor else level

module _ {F S : Type 0} ⦃fl : Float F⦄ where
  open fl use {decimal, of_int, to_int, add, sub, mul, div, lt, le, floor, round}

  -- `engine.credit`
  unfoldable pub credit : ℕ → State F S → State F S
  credit at (e, b) =
      let per_share = dividend_at b.acts at in
      let whole = to_int (round (mul (mul (of_int b.pos.qty) per_share) (decimal 100 0))) in
      let paid = if b.pos.short then neg64 whole else whole in
      if not b.pos.is_open || le per_share (decimal 0 0) then (e, b) else (
        record e {
          cash = add64 e.cash paid;
          metrics = record (e.metrics) {
            dividends_cents = add64 e.metrics.dividends_cents paid;
            dividend_events = add64 e.metrics.dividend_events 1;
          };
        },
        record b {
          pos = record (b.pos) { div_cents = add64 b.pos.div_cents paid };
          stats = record (b.stats) { dividends_cents = add64 b.stats.dividends_cents paid };
        },
      )

  -- `engine.settleBorrow`
  unfoldable pub settle_borrow : ℕ → State F S → State F S
  settle_borrow cents (e, b) = if le64 cents 0 then (e, b) else (
    record e {
      cash = sub64 e.cash cents;
      metrics = record (e.metrics) { borrow_cents = add64 e.metrics.borrow_cents cents };
    },
    record b {
      pos = record (b.pos) {
        borrow_owed = sub b.pos.borrow_owed (of_int cents);
        borrow_cents = add64 b.pos.borrow_cents cents;
      };
      stats = record (b.stats) { borrow_cents = add64 b.stats.borrow_cents cents };
    },
  )

  -- `engine.periods`
  unfoldable pub periods : Engine F S → F
  periods e = if lt (decimal 0 0) e.bars_per_year then e.bars_per_year else decimal 252 0

  -- The rate of `engine.charge`, where there is one: no long position, no first bar and no run
  -- without a borrow table is charged.
  unfoldable pub borrow_rate : ℕ → State F S → Option (Candle F × F)
  borrow_rate zero (e, b) = none
  borrow_rate (suc before) (e, b) = elim e.borrow [
    | none ↦ none
    | some table ↦ elim (get_elem? b.candles before) [
      | none ↦ none
      | some prev ↦ some (prev, table.per_period b.symbol.ticker prev.ts (periods e))
    ]
  ]

  -- `engine.charge`
  unfoldable pub charge : ℕ → State F S → State F S
  charge at (e, b) = elim (borrow_rate at (e, b)) [
    | none ↦ (e, b)
    | some (prev, rate) ↦
        let owed =
          add b.pos.borrow_owed (mul (of_int (notional b.costing b.pos.qty prev.close)) rate) in
        if not b.pos.is_open || not b.pos.short || le rate (decimal 0 0)
        then (e, b)
        else settle_borrow (to_int owed)
            (e, record b { pos = record (b.pos) { borrow_owed = owed } })
  ]

  -- `engine.record`, after the borrow that is still owed has been settled.
  unfoldable pub book_trade : ℕ → F → ℕ → ℕ → Reason → State F S → State F S
  book_trade ts price gross fee reason (e, b) =
      let total = add64 b.pos.fees_cents fee in
      let seq = (e.seq + 1) % 2 ^ 32 in
      let pnl = pnl_of gross b.pos total in
      (
        record e { seq = seq; trades = e.trades ++ trade_of seq ts price pnl total reason b ∷ [] },
        record b { pos = no_position; stats = counted pnl total b.stats },
      )

  -- `engine.record`
  unfoldable pub record_trade : ℕ → F → ℕ → ℕ → Reason → State F S → State F S
  record_trade ts price gross fee reason s =
      book_trade ts price gross fee reason (settle_borrow (to_int (round s.1.pos.borrow_owed)) s)

  -- `engine.cashOut`
  unfoldable pub cash_out : F → F → State F S → State F S
  cash_out shares price (e, b) =
      let whole = to_int (round (mul (mul shares price) (decimal 100 0))) in
      let cash = if b.pos.short then neg64 whole else whole in
      if le shares (decimal 0 0) || le price (decimal 0 0) || whole == 0 then (e, b) else (
        record e {
          cash = add64 e.cash cash;
          metrics = record (e.metrics) { split_cash_cents = add64 e.metrics.split_cash_cents cash };
        },
        record b { pos = record (b.pos) { split_cents = add64 b.pos.split_cents cash } },
      )

  -- `engine.settle`
  unfoldable pub settle : Candle F → F → F → State F S → State F S
  settle candle price shares s =
      let (e, b) = cash_out shares price s in
      let gross = if b.pos.short then b.pos.entry_cents else neg64 b.pos.entry_cents in
      record_trade candle.ts price gross 0 reason_split (e, b)

  -- The end of `engine.adjust`, for a position that keeps whole shares.
  unfoldable pub carry_split : F → ℕ → F → F → State F S → State F S
  carry_split factor qty exact price s =
      let (e, b) = cash_out (sub exact (of_int qty)) price s in
      (
        record e {
          metrics = record (e.metrics) { splits_applied = add64 e.metrics.splits_applied 1 };
        },
        record b {
          pos = record (b.pos) {
            qty = qty;
            entry_price = div b.pos.entry_price factor;
            stop = rescaled b.pos.stop factor;
            target = rescaled b.pos.target factor;
          };
        },
      )

  abbrev pub split_seen : State F S → State F S
  split_seen (e, b) = (
    record e { metrics = record (e.metrics) { split_events = add64 e.metrics.split_events 1 } },
    b,
  )

  -- `engine.adjust`
  unfoldable pub adjust : ℕ → Candle F → State F S → State F S
  adjust at candle (e, b) =
      let factor = factor_at b.acts at in
      let price = if le candle.opening (decimal 0 0) then candle.close else candle.opening in
      let exact = mul (of_int b.pos.qty) factor in
      let qty = to_int (floor (add exact (decimal 1 9))) in
      if le factor (decimal 0 0)
      then (e, b)
      else if not b.pos.is_open
      then split_seen (e, b)
      else if lt64 qty 1
      then settle candle price exact (split_seen (e, b))
      else carry_split factor qty exact price (split_seen (e, b))
