-- ===== src/Backtest/Run.antt =====
-- internal/backtest/engine.go: the loop of a run over the stamps of its books.
use alvo_backtester.Base.{
  ℕ, Bool, true, false, Option, none, some, List, [], ◌∷◌, ◌++◌, map, if◌then◌else◌, Float, add64,
  neg64,
}
use alvo_backtester.Indicator.{Indicator}
use alvo_backtester.Market.Bar.{Candle}
use alvo_backtester.Strategy.Plan.{PlanUnit, Plan}
use alvo_backtester.Strategy.Tape.{push}
use alvo_backtester.Backtest.Broker.{notional}
use alvo_backtester.Backtest.Book.{
  Instrument, Metrics, Book, Engine, Request, candle_for, advance, final, held, new_book,
}
use alvo_backtester.Backtest.Book.Timeline.{timeline_of, stamps_of}
use alvo_backtester.Backtest.Engine.{State, credit, charge, adjust}
use alvo_backtester.Backtest.Orders.{signal, fill, brackets, close_out}

abbrev pub no_metrics : Metrics
no_metrics = record {
  bars_in_market = 0;
  dividends_cents = 0;
  dividend_events = 0;
  borrow_cents = 0;
  split_cash_cents = 0;
  ambiguous_bars = 0;
  skipped_entries = 0;
  shorts_unavailable = 0;
  split_events = 0;
  splits_applied = 0;
}

module _ {F : Type 0} ⦃fl : Float F⦄ where
  -- What one book is worth at the mark, and its count of bars.
  valued : Candle F → Book F → ℕ
  valued c b =
      let value = notional b.costing b.pos.qty c.close in if b.pos.short then neg64 value else value

  abbrev counted_bar : Book F → Book F
  counted_bar b = record b {
    stats = record (b.stats) { bars_in_market = add64 b.stats.bars_in_market 1 };
  }

  unfoldable pub mark_book : Option (Candle F) → Book F → ℕ × Bool → Book F × (ℕ × Bool)
  unfolding valued
  mark_book none b sum = (b, sum)
  mark_book (some c) b (equity, in_market) =
      if b.pos.is_open
      then (counted_bar b, (add64 equity (valued c b), true))
      else (b, (equity, in_market))

  -- The loop of `engine.mark`.
  unfoldable pub mark_books : List (Book F) → ℕ × Bool → List (Book F) × (ℕ × Bool)
  mark_books [] sum = ([], sum)
  mark_books (b ∷ bs) sum =
      let (b', sum') = mark_book (held b) b sum in
      let (bs', total) = mark_books bs sum' in (b' ∷ bs', total)

module _ {F S : Type 0} ⦃fl : Float F⦄ where
  -- The part of a bar before the tape: what the position earns, owes and becomes, then the pending
  -- order, then the brackets.
  unfoldable pub settle_bar : Candle F → ℕ → State F S → State F S
  settle_bar c at s = brackets c (fill c (adjust at c (charge at (credit at s))))

  -- The part after it: the last bar of a book closes what is open.
  unfoldable pub decide_bar : Candle F → ℕ → State F S → State F S
  decide_bar c at s = if final s.1 at then close_out c s else signal s

  unfoldable pub noted : ℕ → ℕ × Bool → Engine F S → Engine F S
  noted ts (equity, false) e = record e {
    equity = e.equity ++ record { ts = ts; cents = equity } ∷ [];
  }
  noted ts (equity, true) e = record e {
    metrics = record (e.metrics) { bars_in_market = add64 e.metrics.bars_in_market 1 };
    held = e.held ++ ts ∷ [];
    equity = e.equity ++ record { ts = ts; cents = equity } ∷ [];
  }

  -- `engine.mark`
  unfoldable pub mark : ℕ → Engine F S × List (Book F) → Engine F S × List (Book F)
  mark ts (e, bs) = let (bs', sum) = mark_books bs (e.cash, false) in (noted ts sum e, bs')

module _ {F S : Type 0} ⦃fl : Float F⦄ ⦃ind : Indicator S F⦄ where
  -- `b.tape.Push(candleFor(candle))`
  unfoldable pub push_bar : Candle F → State F S → State F S
  push_bar c (e, b) =
      let (us, tape) = push e.plan (candle_for c) e.units b.tape in
      (record e { units = us }, record b { tape = tape })

  unfoldable pub on_bar : Option (Candle F × ℕ) → State F S → State F S
  on_bar none s = s
  on_bar (some (c, at)) s = decide_bar c at (push_bar c (settle_bar c at s))

  -- The body of the inner loop of `engine.run`.
  unfoldable pub step_book : ℕ → State F S → State F S
  step_book ts (e, b) = let (b', bar) = advance ts b in on_bar bar (e, b')

  -- The inner loop, over the books.
  unfoldable pub step_books : ℕ → Engine F S → List (Book F) → Engine F S × List (Book F)
  step_books ts e [] = (e, [])
  step_books ts e (b ∷ bs) =
      let (e', b') = step_book ts (e, b) in let (e'', bs') = step_books ts e' bs in (e'', b' ∷ bs')

  -- The outer loop, over the stamps.
  unfoldable pub run_stamps : List ℕ → Engine F S × List (Book F) → Engine F S × List (Book F)
  run_stamps [] s = s
  run_stamps (ts ∷ stamps) (e, bs) = run_stamps stamps (mark ts (step_books ts e bs))

  unfoldable pub new_books :
      Plan F → List (Instrument F) → List (PlanUnit S) → List (PlanUnit S) × List (Book F)
  new_books plan [] us = (us, [])
  new_books plan (i ∷ is) us =
      let (us', b) = new_book plan i us in let (us'', bs) = new_books plan is us' in (us'', b ∷ bs)

  -- `newEngine`
  unfoldable pub new_engine : Request F S → Engine F S × List (Book F)
  unfolding new_books
  new_engine req =
      let (us, books) = new_books req.plan req.instruments req.units in
      (
        record {
          borrow = req.borrow;
          bars_per_year = req.bars_per_year;
          plan = req.plan;
          units = us;
          stamps = timeline_of (map (λ (b : Book F). stamps_of b.candles) books);
          cash = req.capital;
          trades = [];
          equity = [];
          held = [];
          metrics = no_metrics;
          seq = 0;
        },
        books,
      )

  -- `engine.run`, as far as the end of its loop.
  unfoldable pub run : Request F S → Engine F S × List (Book F)
  run req = let (e, bs) = new_engine req in run_stamps e.stamps (e, bs)
