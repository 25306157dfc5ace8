-- ===== src/Indicator/Registry/Momentum.antt =====
-- internal/indicator: what the `init` functions register, the momentum indicators.
use alvo_backtester.Base.{true, false, lt64, [], ◌∷◌, Float}
use alvo_backtester.Indicator.Registry.{
  Spec, period_param, int_param, max_period, get_int, group_momentum,
}
use alvo_backtester.Indicator.Adx
use alvo_backtester.Indicator.Adx.{Adx}
use alvo_backtester.Indicator.Aroon
use alvo_backtester.Indicator.Aroon.{Aroon}
use alvo_backtester.Indicator.Cci
use alvo_backtester.Indicator.Cci.{Cci}
use alvo_backtester.Indicator.Macd
use alvo_backtester.Indicator.Macd.{Macd}
use alvo_backtester.Indicator.Momentum
use alvo_backtester.Indicator.Momentum.{Momentum}
use alvo_backtester.Indicator.Roc
use alvo_backtester.Indicator.Roc.{Roc}
use alvo_backtester.Indicator.Rsi
use alvo_backtester.Indicator.Rsi.{Rsi}
use alvo_backtester.Indicator.StochRsi
use alvo_backtester.Indicator.StochRsi.{StochRsi}
use alvo_backtester.Indicator.Stochastic
use alvo_backtester.Indicator.Stochastic.{Stochastic}
use alvo_backtester.Indicator.WilliamsR
use alvo_backtester.Indicator.WilliamsR.{WilliamsR}

module _ {F : Type 0} ⦃fl : Float F⦄ where
  open fl use {decimal, lt}

  unfoldable pub adx_spec : Spec F
  adx_spec = record {
    name = "adx";
    title = "Average Directional Index";
    group = group_momentum;
    overlay = false;
    sourced = false;
    params = period_param 14 1 ∷ [];
    outputs = "adx" ∷ "plus_di" ∷ "minus_di" ∷ [];
    valid = λ p. true;
    make =
        λ p. record { State = Adx F; methods = Adx.methods; state = Adx.new (get_int p "period") };
  }

  unfoldable pub aroon_spec : Spec F
  aroon_spec = record {
    name = "aroon";
    title = "Aroon";
    group = group_momentum;
    overlay = false;
    sourced = false;
    params = period_param 25 1 ∷ [];
    outputs = "up" ∷ "down" ∷ "oscillator" ∷ [];
    valid = λ p. true;
    make = λ p. record {
      State = Aroon F;
      methods = Aroon.methods;
      state = Aroon.new (get_int p "period");
    };
  }

  unfoldable pub cci_spec : Spec F
  cci_spec = record {
    name = "cci";
    title = "Commodity Channel Index";
    group = group_momentum;
    overlay = false;
    sourced = false;
    params = period_param 20 1 ∷ [];
    outputs = "cci" ∷ [];
    valid = λ p. true;
    make =
        λ p. record { State = Cci F; methods = Cci.methods; state = Cci.new (get_int p "period") };
  }

  unfoldable pub macd_spec : Spec F
  macd_spec = record {
    name = "macd";
    title = "MACD";
    group = group_momentum;
    overlay = false;
    sourced = true;
    params =
        int_param "fast" (decimal 12 0) (decimal 1 0) (decimal max_period 0)
        ∷ int_param "slow" (decimal 26 0) (decimal 2 0) (decimal max_period 0)
        ∷ int_param "signal" (decimal 9 0) (decimal 1 0) (decimal max_period 0)
        ∷ [];
    outputs = "macd" ∷ "signal" ∷ "histogram" ∷ [];
    valid = λ p. lt64 (get_int p "fast") (get_int p "slow");
    make = λ p. record {
      State = Macd F;
      methods = Macd.methods;
      state = Macd.new (get_int p "fast") (get_int p "slow") (get_int p "signal") p.source;
    };
  }

  unfoldable pub mom_spec : Spec F
  mom_spec = record {
    name = "mom";
    title = "Momentum";
    group = group_momentum;
    overlay = false;
    sourced = true;
    params = period_param 10 1 ∷ [];
    outputs = "mom" ∷ [];
    valid = λ p. true;
    make = λ p. record {
      State = Momentum F;
      methods = Momentum.methods;
      state = Momentum.new (get_int p "period") p.source;
    };
  }

  unfoldable pub roc_spec : Spec F
  roc_spec = record {
    name = "roc";
    title = "Rate of Change";
    group = group_momentum;
    overlay = false;
    sourced = true;
    params = period_param 12 1 ∷ [];
    outputs = "roc" ∷ [];
    valid = λ p. true;
    make = λ p. record {
      State = Roc F;
      methods = Roc.methods;
      state = Roc.new (get_int p "period") p.source;
    };
  }

  unfoldable pub rsi_spec : Spec F
  rsi_spec = record {
    name = "rsi";
    title = "Relative Strength Index";
    group = group_momentum;
    overlay = false;
    sourced = true;
    params = period_param 14 2 ∷ [];
    outputs = "rsi" ∷ [];
    valid = λ p. true;
    make = λ p. record {
      State = Rsi F;
      methods = Rsi.methods;
      state = Rsi.new (get_int p "period") p.source;
    };
  }

  unfoldable pub stoch_spec : Spec F
  stoch_spec = record {
    name = "stoch";
    title = "Stochastic Oscillator";
    group = group_momentum;
    overlay = false;
    sourced = false;
    params =
        int_param "k" (decimal 14 0) (decimal 1 0) (decimal max_period 0)
        ∷ int_param "smooth" (decimal 3 0) (decimal 1 0) (decimal max_period 0)
        ∷ int_param "d" (decimal 3 0) (decimal 1 0) (decimal max_period 0)
        ∷ [];
    outputs = "k" ∷ "d" ∷ [];
    valid = λ p. true;
    make = λ p. record {
      State = Stochastic F;
      methods = Stochastic.methods;
      state = Stochastic.new (get_int p "k") (get_int p "smooth") (get_int p "d");
    };
  }

  unfoldable pub stochrsi_spec : Spec F
  stochrsi_spec = record {
    name = "stochrsi";
    title = "Stochastic RSI";
    group = group_momentum;
    overlay = false;
    sourced = true;
    params =
        int_param "rsi" (decimal 14 0) (decimal 2 0) (decimal max_period 0)
        ∷ int_param "stoch" (decimal 14 0) (decimal 1 0) (decimal max_period 0)
        ∷ int_param "k" (decimal 3 0) (decimal 1 0) (decimal max_period 0)
        ∷ int_param "d" (decimal 3 0) (decimal 1 0) (decimal max_period 0)
        ∷ [];
    outputs = "k" ∷ "d" ∷ [];
    valid = λ p. true;
    make = λ p. record {
      State = StochRsi F;
      methods = StochRsi.methods;
      state =
          StochRsi.new (get_int p "rsi") (get_int p "stoch") (get_int p "k") (get_int p "d")
            p.source;
    };
  }

  unfoldable pub willr_spec : Spec F
  willr_spec = record {
    name = "willr";
    title = "Williams %R";
    group = group_momentum;
    overlay = false;
    sourced = false;
    params = period_param 14 1 ∷ [];
    outputs = "willr" ∷ [];
    valid = λ p. true;
    make = λ p. record {
      State = WilliamsR F;
      methods = WilliamsR.methods;
      state = WilliamsR.new (get_int p "period");
    };
  }
