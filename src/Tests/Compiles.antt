-- ===== src/Tests/Compiles.antt =====
-- The theorems on the compiler, applied to a strategy of two inputs, the second of which reads from the
-- first.
use alvo_backtester.Base.{
  ◌≡◌, refl, String, true, Option, some, none, [], ◌∷◌, Hundredths, hundredths,
}
use alvo_backtester.Indicator.{source_close}
use alvo_backtester.Strategy.Spec.{
  op_gt, op_lt, field_source, operand_input, level_atr, size_fixed_cash,
}
use alvo_backtester.Strategy.Syntax.{
  of_field, of_input, Operand, any_node, compare_node, take_profit, no_nodes, more_nodes, Strategy,
}
use alvo_backtester.Strategy.Compile.{
  Catalog, attach, search, same_unit, same_slot, same_feed, key_of, unit_for, slot_for, give_slot,
  bind, then_do, pure, fail, attached,
}
use alvo_backtester.Strategy.Compile.Rules.{
  output_of, place, or_first, is_trend, compare, terms_of, term_by, line, line_by, bare_line, rule,
  rules, hoist, hoist_all, residual_of, keep, bracket, bracket_by, slot_of, make_leg,
}
use alvo_backtester.Strategy.Compile.Whole.{
  Compiled, compile, finished, finish, both_legs, leg_by, exit_leg, residual_rule, exit_of, inputs,
  step_by, sourced_by, chained, declare, start_builder, depth_by, measure_from, measure_one,
  measured, upstream,
}
use alvo_backtester.Strategy.Compile.Closed.{IsClosed, compile-IsClosed}
use alvo_backtester.Strategy.Compile.Sharing.{attach-attach}
use alvo_backtester.Tests.Sample.{cents, no_leg}

-- An instance is told by its indicator's name.
abbrev names : Catalog String Hundredths
names = record {
  make = λ name params source. some name;
  key = λ name. name;
  outputs = λ name. name ∷ [];
  warmup = λ name. 4;
  lead = λ name. 9;
}

abbrev input_of : String → Operand Hundredths
input_of name = record {
  kind = operand_input;
  input = name;
  output = none;
  field = field_source source_close;
  value = cents 0;
  back = 0;
}

abbrev two_inputs : Strategy Hundredths
two_inputs = record {
  inputs =
      (
        "fast",
        record {
          indicator = "ema";
          params = [];
          source = of_field (field_source source_close);
          output = "";
          sourced = true;
        },
      )
      ∷ (
        "slow",
        record {
          indicator = "sma";
          params = [];
          source = of_input "fast";
          output = "";
          sourced = true;
        },
      )
      ∷ [];
  entry = record {
    long = some (compare_node op_gt (input_of "fast" ∷ input_of "slow" ∷ []));
    short = none;
  };
  exit = some (record {
    long = some (
        any_node (
          more_nodes
            (take_profit
              (record { kind = level_atr; value = cents 0; period = 14; mult = cents 200 }))
            (more_nodes (compare_node op_lt (input_of "fast" ∷ input_of "slow" ∷ [])) no_nodes)));
    short = none;
  });
  sizing = record { kind = size_fixed_cash; value = cents 100000 };
  costs = record { brokerage_cents = 0; fee_bps = cents 0; slippage_bps = cents 0 };
}

abbrev or_blank : Option (Compiled String Hundredths) → Compiled String Hundredths
or_blank (some c) = c
or_blank none = record {
  plan = record {
    sizing = two_inputs.sizing;
    costs = two_inputs.costs;
    slots = [];
    long = no_leg;
    short = no_leg;
    depth = 0;
  };
  units = [];
  warmup = 0;
  prime_bars = 0;
}

abbrev two_compiled : Compiled String Hundredths
two_compiled = or_blank (compile names two_inputs)

compiles : compile names two_inputs ≡ some two_compiled
unfolding compile finished finish both_legs leg_by exit_leg residual_rule exit_of inputs step_by
    sourced_by chained declare start_builder depth_by measure_from measure_one measured upstream
    output_of place or_first is_trend compare terms_of term_by line line_by bare_line rule rules
    hoist hoist_all residual_of keep bracket bracket_by slot_of make_leg attach search same_unit
    same_slot same_feed key_of unit_for slot_for give_slot bind then_do pure fail attached
compiles = refl

compile-IsClosed_example : IsClosed two_compiled
compile-IsClosed_example = compile-IsClosed names two_inputs two_compiled compiles

attach-attach_example :
    attach names "ema" none 0 (attach names "ema" none 0 (start_builder names)).1
    ≡ attach names "ema" none 0 (start_builder names)
attach-attach_example = attach-attach names "ema" none 0 (start_builder names)
