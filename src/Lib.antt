-- ===== src/Lib.antt =====
-- A model of the ALVO backtester's core, the strategy evaluator and the engine that runs it over
-- bars, and the theorems on it.
--
-- The program reads a strategy, compiles it to a plan (indicators, slots, two legs of rules), and
-- runs the plan over candles: at every stamp each book settles its position (dividends, borrow,
-- splits), fills its pending order, tests its brackets, pushes the bar on its tape and asks the
-- plan's rules for the next order. A basket is a run of its own per instrument, on a share of the
-- capital. The files, and the code that each is about:
--
-- - Base: Go's numbers, and lists measured by native numbers. An `int64` or `int` is its bit pattern,
--   a number below 2 ^ 64, and every operation wraps (Base/Word). `float64` is any type with the
--   operations that the program uses (Base/Real); the theorems that compare prices ask for its order
--   to be `IsOrdered`, which hundredths with a NaN are.
-- - Zone: the dates of Go's package time in one time zone, as a record of operations. A zone that skips
--   midnights is one.
-- - Indicator: internal/indicator. The Go interface `Indicator` is a record of operations on a state
--   type, for its methods change the value behind a pointer; a value of the interface is such a record
--   with its state (`Made`). A file of Indicator is about the Go file of the indicator that it names;
--   Ring (with its proofs in Spots and Refines), Window, Extreme, Ema, Wilder, Wma and Atr hold the
--   blocks that the others are built of. An early return of `Update` guards each field that the rest
--   would set. A period is a number, which the program takes for one when it is below one, and a float
--   array is a list. Registry is registry.go with the specs of the `init` functions by group, Library
--   makes an indicator by its name (request.go), and Emit runs one (indicator.go). Warm and Warmup hold
--   what each block and each indicator is after so many bars.
-- - Strategy/Spec, Strategy/Plan: the types of internal/strategy/spec.go and compile.go.
-- - Strategy/Syntax, Strategy/Compile: a parsed strategy (spec.go) and the compiler (compile.go). The
--   builder's state is passed along by steps that may fail (`Build`). Rules holds the rules and the
--   brackets, Whole the inputs, the legs and the measuring; Planned, Kept, Fits, Legs, Closed and Sharing
--   hold proofs. The visits of `order` are not modelled: the inputs come in their order.
-- - Strategy/Eval: rules over a frame (internal/strategy/eval.go, `Eval` and `depth`). Kleene,
--   Information and Lookback hold what is proved of it. A term that is missing, where Go would panic,
--   reads as unknown; a comparator has the terms that it reads, by the parser.
-- - Strategy/Tape: the ring of a book's last bars and slot values (eval.go, `Tape`), with Cells,
--   Shift and Primed for proofs. The units of the plan, whose indicators a push changes, are passed along.
-- - Market: the bar of internal/market/candle.go, the two questions a run asks of borrow.go as the
--   operations of a record, the pages of candles of timeframe.go and page.go (Market/Page), and the check,
--   the bucket and the folding of bars of candle.go and resample.go (Market/Resample), with the session of
--   an instant as an argument. Market/Calendar is calendar.go: the searches for a trading day step from
--   date to date, with the instant at a minute of a day as an argument, the loop over the days of a range
--   from instant to instant in a zone, with the nanoseconds to the end as fuel, of which a step to the next
--   day takes one at least (Walk). Market/Gaps is gaps.go.
-- - Backtest/Broker, Actions, Sizing: internal/backtest/broker.go, actions.go, sizing.go. The loop of
--   `size` that takes lots off runs on the quantity as fuel, and every round takes off one share at
--   least.
-- - Backtest/Book: the state of a run (book.go, run.go, metrics.go) and its timeline. Stamps are
--   nanoseconds. `Engine` is `type engine` without its books, which stand beside it: the two are
--   the state that each operation takes and returns.
-- - Backtest/Engine, Orders, Run: internal/backtest/engine.go, what a position earns and owes, the
--   orders and the loop. `run` ends where `engine.run` calls `summarize`.
-- - Backtest/Ledger, Place, Closing: proofs, on the balance of the books and on what a run leaves.
-- - Backtest/Basket: internal/backtest/basket.go, the split of the capital, the sleeves and their sum.
-- - Sweep/Grid: the grid of internal/sweep/axis.go; `Apply`, which goes through JSON, is an argument.
-- - Sweep/Folds: internal/sweep/folds.go; Days holds the folds on numbers of days.
-- - Backtest/Tally: the counters and the profit of metrics.go and the longest drawdown of stats.go.
-- - Tests: a sample strategy, runs of it, and every theorem applied to it.
--
-- Not modelled: the parser of strategies, the text of an indicator request, the ratios and
-- benchmarks of a summary, the calendar's file, synchronisation and storage of market data, the reading of
-- a sweep's axes, the HTTP interface, authentication and the commands. The records of a run hold only
-- the counters that the loop changes.
pub mod Base
pub mod Zone
pub mod Indicator
pub mod Strategy
pub mod Market
pub mod Sweep
pub mod Backtest
pub mod Tests
