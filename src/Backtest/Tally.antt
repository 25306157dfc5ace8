-- ===== src/Backtest/Tally.antt =====
-- internal/backtest/metrics.go and stats.go: the tally of the closed trades, and how long an equity
-- curve has stayed under its peak. Cents and counters are `int64` words.
pub mod Counts
pub mod Drawdown
pub mod Net
use Prim.Native.Nat.{max}
use alvo_backtester.Base.{
  ℕ, zero, suc, ◌+◌, ◌-◌, ◌*◌, ◌/◌, ◌==◌, ◌^◌, Bool, true, false, Option, none, some, List, [], ◌∷◌,
  if◌then◌else◌, Float, add64, sub64, neg64, quot64, lt64, le64, max64, min64,
}
use alvo_backtester.Backtest.Book.{
  Trade, EquityPoint, Reason, reason_signal, reason_stop, reason_target, reason_split,
  reason_end_of_run,
}

-- The counters of `Metrics` that the loop of `tallyTrades` changes, and its local variables.
pub record Tally : Type 0 where
  pub wins : ℕ
  pub losses : ℕ
  pub scratches : ℕ
  pub gross_win : ℕ
  pub gross_loss : ℕ
  pub largest_win_cents : ℕ
  pub largest_loss_cents : ℕ
  pub streak : ℕ
  pub max_consec_losses : ℕ
  pub long_trades : ℕ
  pub short_trades : ℕ
  pub fees_cents : ℕ
  pub holding : ℕ
  pub exits_by_signal : ℕ
  pub exits_by_stop : ℕ
  pub exits_by_target : ℕ
  pub exits_by_split : ℕ
  pub exits_at_end : ℕ

abbrev pub no_tally : Tally
no_tally = record {
  wins = 0;
  losses = 0;
  scratches = 0;
  gross_win = 0;
  gross_loss = 0;
  largest_win_cents = 0;
  largest_loss_cents = 0;
  streak = 0;
  max_consec_losses = 0;
  long_trades = 0;
  short_trades = 0;
  fees_cents = 0;
  holding = 0;
  exits_by_signal = 0;
  exits_by_stop = 0;
  exits_by_target = 0;
  exits_by_split = 0;
  exits_at_end = 0;
}

-- `ts.Unix()`
abbrev unix : ℕ → ℕ
unix ts = ts / 10 ^ 9

-- The loop of `stampIndex`: a map is a list of its entries, the last write first.
unfoldable pub index_from : ℕ → List ℕ → List (ℕ × ℕ) → List (ℕ × ℕ)
index_from i [] index = index
index_from i (ts ∷ stamps) index = index_from (i + 1) stamps ((unix ts, i) ∷ index)

unfoldable pub stamp_index : List ℕ → List (ℕ × ℕ)
unfolding index_from
stamp_index stamps = index_from 0 stamps []

-- A key that is not there reads as zero.
unfoldable pub entry_of : List (ℕ × ℕ) → ℕ → ℕ
entry_of [] key = 0
entry_of ((k, i) ∷ index) key = if k == key then i else entry_of index key

-- The first `switch` of the loop.
unfoldable pub count_outcome : ℕ → Tally → Tally
count_outcome pnl t =
    if lt64 0 pnl
    then record t {
      wins = add64 t.wins 1;
      gross_win = add64 t.gross_win pnl;
      largest_win_cents = max64 t.largest_win_cents pnl;
      streak = 0;
    }
    else if lt64 pnl 0
    then record t {
      losses = add64 t.losses 1;
      gross_loss = add64 t.gross_loss (neg64 pnl);
      largest_loss_cents = min64 t.largest_loss_cents pnl;
      streak = add64 t.streak 1;
      max_consec_losses = max64 t.max_consec_losses (add64 t.streak 1);
    }
    else record t { scratches = add64 t.scratches 1; streak = 0 }

unfoldable pub count_side : Bool → Tally → Tally
count_side true t = record t { short_trades = add64 t.short_trades 1 }
count_side false t = record t { long_trades = add64 t.long_trades 1 }

-- The second `switch`.
unfoldable pub count_exit : Reason → Tally → Tally
count_exit reason_signal t = record t { exits_by_signal = add64 t.exits_by_signal 1 }
count_exit reason_stop t = record t { exits_by_stop = add64 t.exits_by_stop 1 }
count_exit reason_target t = record t { exits_by_target = add64 t.exits_by_target 1 }
count_exit reason_split t = record t { exits_by_split = add64 t.exits_by_split 1 }
count_exit reason_end_of_run t = record t { exits_at_end = add64 t.exits_at_end 1 }

module _ {F : Type 0} where
  -- The fees and the bars between the entry and the exit.
  unfoldable pub count_span : List (ℕ × ℕ) → Trade F → Tally → Tally
  unfolding entry_of
  count_span index trade t =
      let bars =
        sub64 (entry_of index (unix trade.exit_ts)) (entry_of index (unix trade.entry_ts)) in
      record t { fees_cents = add64 t.fees_cents trade.fees_cents; holding = add64 t.holding bars }

  unfoldable pub count_trade : List (ℕ × ℕ) → Trade F → Tally → Tally
  count_trade index trade t =
      count_exit trade.exit_reason
        (count_span index trade (count_side trade.is_short (count_outcome trade.pnl_cents t)))

  -- The loop of `tallyTrades`.
  unfoldable pub tally_trades : List (ℕ × ℕ) → List (Trade F) → Tally → Tally
  tally_trades index [] t = t
  tally_trades index (trade ∷ trades) t = tally_trades index trades (count_trade index trade t)

-- What `tallyTrades` works out after its loop; nothing of a run without trades.
pub record Averages (F : Type 0) : Type 0 where
  pub win_rate_pct : F
  pub expectancy_cents : ℕ
  pub avg_holding_bars : F
  pub avg_win_cents : ℕ
  pub avg_loss_cents : ℕ
  pub profit_factor : Option F

module _ {F : Type 0} ⦃fl : Float F⦄ where
  open fl use {decimal, of_int, mul, div}

  unfoldable pub averages : ℕ → Tally → Option (Averages F)
  averages trades t =
      if trades == 0
      then none
      else some (record {
        win_rate_pct = mul (div (of_int t.wins) (of_int trades)) (decimal 100 0);
        expectancy_cents = quot64 (sub64 t.gross_win t.gross_loss) trades;
        avg_holding_bars = div (of_int t.holding) (of_int trades);
        avg_win_cents = if lt64 0 t.wins then quot64 t.gross_win t.wins else 0;
        avg_loss_cents = if lt64 0 t.losses then quot64 (neg64 t.gross_loss) t.losses else 0;
        profit_factor =
            if lt64 0 t.gross_loss
            then some (div (of_int t.gross_win) (of_int t.gross_loss))
            else none;
      })

-- `FinalEquityCents` of `summarize`: the last point of the curve, or the cash.
unfoldable pub final_equity : ℕ → List EquityPoint → ℕ
final_equity cash [] = cash
final_equity cash (p ∷ curve) = final_equity p.cents curve

-- `PnLCents` of `summarize`
unfoldable pub pnl_cents : ℕ → ℕ → List EquityPoint → ℕ
unfolding final_equity
pnl_cents capital cash curve = sub64 (final_equity cash curve) capital

-- The loop of `longestDrawdown`, at the point `i`.
unfoldable pub longest_from : ℕ → ℕ → ℕ → ℕ → List EquityPoint → ℕ
longest_from i peak peak_at longest [] = longest
longest_from i peak peak_at longest (p ∷ curve) =
    if le64 peak p.cents
    then longest_from (i + 1) p.cents i longest curve
    else longest_from (i + 1) peak peak_at (max longest (i - peak_at)) curve

-- `longestDrawdown`
unfoldable pub longest_drawdown : List EquityPoint → ℕ
unfolding longest_from
longest_drawdown [] = 0
longest_drawdown (p ∷ curve) = longest_from 0 p.cents 0 0 (p ∷ curve)
