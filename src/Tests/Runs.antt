-- ===== src/Tests/Runs.antt =====
-- The theorems on runs and baskets, applied, and what the sample run does.
use alvo_backtester.Base.{
  ℕ, ◌+◌, hundredths, Hundredths, ◌≡◌, refl, ◌%◌, ◌/◌, ◌≼◌, word_size, length, map, All, arith,
  false, add64, sub64, max64, some, List, [], ◌∷◌, Hundredths-IsOrdered,
}
use alvo_backtester.Backtest.Book.{Book, EquityPoint, Trade, new_book}
use alvo_backtester.Backtest.Book.Timeline.{timeline_of, holds}
use alvo_backtester.Backtest.Book.Timeline.Union.{IsAscending, holds_any, timeline_of-merges}
use alvo_backtester.Backtest.Broker.{Order, Costing, order_limit, buy, order_fill, fill_by, bar_of}
use alvo_backtester.Backtest.Broker.Fills.{Honours, order_fill-bounds}
use alvo_backtester.Backtest.Engine.{State, adjust}
use alvo_backtester.Backtest.Orders.{fill, brackets}
use alvo_backtester.Backtest.Run.{run, step_book, new_engine}
use alvo_backtester.Backtest.Ledger.{profits, balance}
use alvo_backtester.Backtest.Ledger.Carry.{adjust-balance}
use alvo_backtester.Backtest.Ledger.Orders.{fill-balance, brackets-balance}
use alvo_backtester.Backtest.Ledger.Whole.{worth, run-worth}
use alvo_backtester.Backtest.Closing.Whole.{IsOrderly, run_closes, run_cash}
use alvo_backtester.Backtest.Sizing.{size}
use alvo_backtester.Backtest.Sizing.Fits.{Fits, size-Fits}
use alvo_backtester.Backtest.Basket.{run_basket, split_capital, align_sleeve}
use alvo_backtester.Backtest.Basket.Align.{worth_at, align_sleeve-worth_at}
use alvo_backtester.Backtest.Basket.Split.{Near, sum, split_capital-sum}
use alvo_backtester.Backtest.Basket.Whole.{cash_of, profits_of, basket_cash}
use alvo_backtester.Backtest.Tally.{
  Tally, no_tally, stamp_index, tally_trades, longest_drawdown, final_equity, pnl_cents,
}
use alvo_backtester.Backtest.Tally.Counts.{tally_trades-adds_up}
use alvo_backtester.Backtest.Tally.Net.{run_net}
use alvo_backtester.Backtest.Tally.Drawdown.{NeverFalls, longest_drawdown-NeverFalls}
use alvo_backtester.Tests.Sample.{
  Last, last_close, sample_request, sample_costs, sample_sizing, sample_plan, sample_units,
  instrument, first_bars, bar, cents,
}

sample-IsOrderly : IsOrderly sample_request
sample-IsOrderly = ground arith

run_cash_example :
    (run sample_request).0.cash % word_size
    ≡ add64 sample_request.capital (profits (run sample_request).0.trades)
run_cash_example = run_cash sample_request sample-IsOrderly

run_closes_example : All (λ (b : Book Hundredths). b.pos.is_open ≡ false) (run sample_request).1
run_closes_example = run_closes sample_request sample-IsOrderly

run-worth_example : worth (run sample_request) ≡ sample_request.capital % word_size
run-worth_example = run-worth sample_request

basket_cash_example :
    cash_of (run_basket sample_request (split_capital 1000000 2)).0 % word_size
    ≡ add64 1000000 (profits_of (run_basket sample_request (split_capital 1000000 2)).0)
basket_cash_example =
    basket_cash sample_request sample-IsOrderly (omega arith) (omega arith) (omega arith)

-- The first instrument after three of its bars.
abbrev halfway : State Hundredths Last
halfway =
    let (us, b) = new_book sample_plan (instrument 1 "ABCD3" first_bars) sample_units in
    step_book 3 (step_book 2 (step_book 1 ((new_engine sample_request).0, b)))

adjust-balance_example : balance (adjust 3 (bar 5 850) halfway) ≡ balance halfway
adjust-balance_example = adjust-balance 3 (bar 5 850) halfway

fill-balance_example : balance (fill (bar 5 850) halfway) ≡ balance halfway
fill-balance_example = fill-balance (bar 5 850) halfway

brackets-balance_example : balance (brackets (bar 5 850) halfway) ≡ balance halfway
brackets-balance_example = brackets-balance (bar 5 850) halfway

abbrev limit_order : Order Hundredths
limit_order = record { kind = order_limit; side = buy; price = cents 990 }

limit_fill : order_fill limit_order (bar_of (bar 1 950)) ≡ some (cents 950)
unfolding order_fill fill_by bar_of
limit_fill = refl

order_fill-bounds_example :
    (((bar_of (bar 1 950)).low ≼ cents 950) × (cents 950 ≼ (bar_of (bar 1 950)).high))
    × Honours order_limit buy (cents 990) (cents 950)
unfolding bar_of
order_fill-bounds_example =
    order_fill-bounds Hundredths-IsOrdered limit_order (bar_of (bar 1 950)) (cents 950) (refl, refl)
      refl limit_fill

abbrev costing : Costing Hundredths
costing = record { costs = sample_costs; tick_size = cents 1 }

size-Fits_example :
    Fits 1000000
      (max64 10 1)
      costing
      (cents 1100)
      (size sample_sizing 1000000 10 costing (cents 1100) (cents 0))
size-Fits_example = size-Fits sample_sizing 1000000 10 costing (cents 1100) (cents 0) (omega arith)

abbrev two_books : List (List ℕ)
two_books = (1 ∷ 2 ∷ 5 ∷ []) ∷ (2 ∷ 4 ∷ []) ∷ []

timeline_of-merges_example :
    IsAscending (timeline_of two_books)
    × ((t : ℕ) → holds t (timeline_of two_books) ≡ holds_any t two_books)
timeline_of-merges_example = timeline_of-merges two_books (ground arith)

abbrev points : List EquityPoint
points = record { ts = 2; cents = 70 } ∷ record { ts = 4; cents = 60 } ∷ []

align_sleeve-worth_at_example :
    align_sleeve (1 ∷ 2 ∷ 3 ∷ 5 ∷ []) points 50
    ≡ map (λ ts. worth_at ts 50 points) (1 ∷ 2 ∷ 3 ∷ 5 ∷ [])
align_sleeve-worth_at_example =
    align_sleeve-worth_at (1 ∷ 2 ∷ 3 ∷ 5 ∷ []) points 50 (ground arith) (ground arith)

split_capital-sum_example :
    (length (split_capital 1000001 3) ≡ 3)
    × All (Near (1000001 / 3)) (split_capital 1000001 3)
    × (sum (split_capital 1000001 3) ≡ 1000001)
split_capital-sum_example = split_capital-sum 1000001 3 (omega arith) (omega arith) (omega arith)

abbrev sample_trades : List (Trade Hundredths)
sample_trades = (run sample_request).0.trades

abbrev sample_index : List (ℕ × ℕ)
sample_index = stamp_index (1 ∷ 2 ∷ 3 ∷ 4 ∷ 5 ∷ 6 ∷ [])

abbrev sample_tally : Tally
sample_tally = tally_trades sample_index sample_trades no_tally

tally_trades-adds_up_example :
    ((sample_tally.wins + sample_tally.losses + sample_tally.scratches) % word_size
      ≡ length sample_trades % word_size)
    × ((sample_tally.long_trades + sample_tally.short_trades) % word_size
        ≡ length sample_trades % word_size)
    × ((sample_tally.exits_by_signal + sample_tally.exits_by_stop + sample_tally.exits_by_target
            + sample_tally.exits_by_split + sample_tally.exits_at_end)
          % word_size
        ≡ length sample_trades % word_size)
    × (sub64 sample_tally.gross_win sample_tally.gross_loss ≡ profits sample_trades % word_size)
tally_trades-adds_up_example = tally_trades-adds_up sample_index sample_trades

longest_drawdown-NeverFalls_example :
    (longest_drawdown points ≡ 0 → NeverFalls points)
    × (NeverFalls points → longest_drawdown points ≡ 0)
longest_drawdown-NeverFalls_example = longest_drawdown-NeverFalls points

run_net_example :
    (final_equity (run sample_request).0.cash (run sample_request).0.equity
      ≡ (run sample_request).0.cash)
    × (pnl_cents sample_request.capital (run sample_request).0.cash (run sample_request).0.equity
        ≡ sub64 sample_tally.gross_win sample_tally.gross_loss)
run_net_example = run_net sample_request sample_index sample-IsOrderly
