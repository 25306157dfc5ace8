-- ===== src/Indicator/Registry/Structure.antt =====
-- internal/indicator: what the `init` functions register, the structure indicators.
use alvo_backtester.Base.{true, false, List, [], ◌∷◌, String, Float}
use alvo_backtester.Indicator.Registry.{
  Spec, period_param, int_param, float_param, get_int, get_float, group_structure,
}
use alvo_backtester.Indicator.Fractals
use alvo_backtester.Indicator.Fractals.{Fractals}
use alvo_backtester.Indicator.PivotPoints
use alvo_backtester.Indicator.PivotPoints.{PivotPoints}
use alvo_backtester.Indicator.ZigZag
use alvo_backtester.Indicator.ZigZag.{ZigZag}

-- `pivotOutputs`
abbrev pivot_outputs : List String
pivot_outputs = "pivot" ∷ "r1" ∷ "r2" ∷ "r3" ∷ "s1" ∷ "s2" ∷ "s3" ∷ []

module _ {F : Type 0} ⦃fl : Float F⦄ where
  open fl use {decimal, lt}

  unfoldable pub fractals_spec : Spec F
  fractals_spec = record {
    name = "fractals";
    title = "Williams Fractals";
    group = group_structure;
    overlay = true;
    sourced = false;
    params = int_param "period" (decimal 2 0) (decimal 1 0) (decimal 100 0) ∷ [];
    outputs = "up" ∷ "down" ∷ [];
    valid = λ p. true;
    make = λ p. record {
      State = Fractals F;
      methods = Fractals.methods;
      state = Fractals.new (get_int p "period");
    };
  }

  unfoldable pub pivots_spec : Spec F
  pivots_spec = record {
    name = "pivots";
    title = "Pivot Points";
    group = group_structure;
    overlay = true;
    sourced = false;
    params = period_param 1 1 ∷ [];
    outputs = pivot_outputs;
    valid = λ p. true;
    make = λ p. record {
      State = PivotPoints F;
      methods = PivotPoints.methods;
      state = PivotPoints.new (get_int p "period") false;
    };
  }

  unfoldable pub fibpivots_spec : Spec F
  fibpivots_spec = record {
    name = "fibpivots";
    title = "Fibonacci Pivot Points";
    group = group_structure;
    overlay = true;
    sourced = false;
    params = period_param 1 1 ∷ [];
    outputs = pivot_outputs;
    valid = λ p. true;
    make = λ p. record {
      State = PivotPoints F;
      methods = PivotPoints.methods;
      state = PivotPoints.new (get_int p "period") true;
    };
  }

  unfoldable pub zigzag_spec : Spec F
  zigzag_spec = record {
    name = "zigzag";
    title = "ZigZag";
    group = group_structure;
    overlay = true;
    sourced = false;
    params = float_param "deviation" (decimal 5 0) (decimal 1 1) (decimal 100 0) ∷ [];
    outputs = "zigzag" ∷ "direction" ∷ [];
    valid = λ p. true;
    make = λ p. record {
      State = ZigZag F;
      methods = ZigZag.methods;
      state = ZigZag.new (get_float p "deviation");
    };
  }
