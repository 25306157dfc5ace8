-- ===== src/Tests/Sample.antt =====
-- A strategy that buys above 10.00 and sells below 9.00, and two instruments to run it on.
use alvo_backtester.Base.{
  ℕ, ◌+◌, ◌-◌, String, Bool, true, false, Option, none, some, List, [], ◌∷◌, Hundredths,
}
use alvo_backtester.Indicator.{Indicator, source_close}
use alvo_backtester.Market.Bar.{Candle}
use alvo_backtester.Strategy.Spec.{
  field_source, op_gt, op_lt, op_crosses_above, operand_input, operand_field, operand_literal,
  Costs, Sizing, size_fixed_cash, level_pct,
}
use alvo_backtester.Strategy.Eval.{Term, Rule, compare_rule}
use alvo_backtester.Strategy.Plan.{PlanUnit, Leg, Plan}
use alvo_backtester.Backtest.Book.{Instrument, Request}

-- An indicator that repeats the last close.
abbrev pub Last : Type 0
Last = Option Hundredths

abbrev last_values : Last → List Hundredths
last_values none = []
last_values (some x) = x ∷ []

abbrev last_ready : Last → Bool
last_ready none = false
last_ready (some x) = true

instance abbrev pub last_close : Indicator Last Hundredths
last_close = record {
  update = λ s c. some c.close;
  values = last_values;
  ready = last_ready;
  warmup = λ s. 1;
  reset = λ s. none;
}

abbrev pub cents : ℕ → Hundredths
cents n = some n

abbrev pub literal : ℕ → Term Hundredths
literal n = record {
  kind = operand_literal;
  slot = none;
  field = field_source source_close;
  value = cents n;
  back = 0;
}

abbrev pub close_now : Term Hundredths
close_now = record (literal 0) { kind = operand_field }

abbrev pub slot_now : Term Hundredths
slot_now = record (literal 0) { kind = operand_input; slot = some 0 }

abbrev pub above : Rule Hundredths
above = compare_rule op_gt (slot_now ∷ literal 1000 ∷ []) 0

abbrev pub below : Rule Hundredths
below = compare_rule op_lt (close_now ∷ literal 900 ∷ []) 0

abbrev pub crossing : Rule Hundredths
crossing = compare_rule op_crosses_above (close_now ∷ literal 1000 ∷ []) 0

abbrev pub sample_leg : Leg Hundredths
sample_leg = record {
  entry = some above;
  exit = some below;
  stop = some (record {
    level = record { kind = level_pct; value = cents 5000; period = 0; mult = cents 0 };
    slot = none;
  });
  target = none;
}

abbrev pub no_leg : Leg Hundredths
no_leg = record { entry = none; exit = none; stop = none; target = none }

-- Purchases of 1000.00.
abbrev pub sample_sizing : Sizing Hundredths
sample_sizing = record { kind = size_fixed_cash; value = cents 10000000 }

abbrev pub sample_costs : Costs Hundredths
sample_costs = record { brokerage_cents = 5; fee_bps = cents 300; slippage_bps = cents 1000 }

abbrev pub sample_plan : Plan Hundredths
sample_plan = record {
  sizing = sample_sizing;
  costs = sample_costs;
  slots = record { unit = 0; output = 0 } ∷ [];
  long = sample_leg;
  short = no_leg;
  depth = 0;
}

abbrev pub sample_units : List (PlanUnit Last)
sample_units = record { indicator = none; feed = none; slots = 0 ∷ [] } ∷ []

abbrev pub bar : ℕ → ℕ → Candle Hundredths
bar ts price = record {
  ts = ts;
  opening = cents price;
  high = cents (price + 50);
  low = cents (price - 50);
  close = cents price;
  adj_close = none;
  volume = 1000;
}

abbrev pub instrument : ℕ → String → List (Candle Hundredths) → Instrument Hundredths
instrument id ticker candles = record {
  symbol = record { id = id; ticker = ticker; lot_size = 10; tick_size = cents 1 };
  primed = [];
  candles = candles;
}

abbrev pub first_bars : List (Candle Hundredths)
first_bars = bar 1 950 ∷ bar 2 1100 ∷ bar 3 1200 ∷ bar 5 850 ∷ bar 6 800 ∷ []

abbrev pub second_bars : List (Candle Hundredths)
second_bars = bar 2 1300 ∷ bar 4 1250 ∷ []

abbrev pub sample_request : Request Hundredths Last
sample_request = record {
  plan = sample_plan;
  units = sample_units;
  instruments = instrument 1 "ABCD3" first_bars ∷ instrument 2 "EFGH4" second_bars ∷ [];
  capital = 1000000;
  borrow = none;
  bars_per_year = cents 25200;
}
