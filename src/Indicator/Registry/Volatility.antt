-- ===== src/Indicator/Registry/Volatility.antt =====
-- internal/indicator: what the `init` functions register, the volatility indicators.
use alvo_backtester.Base.{true, false, [], ◌∷◌, Float}
use alvo_backtester.Indicator.Registry.{
  Spec, period_param, int_param, float_param, max_period, get_int, get_float, group_volatility,
}
use alvo_backtester.Indicator.Atr
use alvo_backtester.Indicator.Atr.{Atr}
use alvo_backtester.Indicator.BollingerBands
use alvo_backtester.Indicator.BollingerBands.{BollingerBands}
use alvo_backtester.Indicator.ChaikinVolatility
use alvo_backtester.Indicator.ChaikinVolatility.{ChaikinVolatility}
use alvo_backtester.Indicator.HistoricalVolatility
use alvo_backtester.Indicator.HistoricalVolatility.{HistoricalVolatility}
use alvo_backtester.Indicator.StdDev
use alvo_backtester.Indicator.StdDev.{StdDev}

module _ {F : Type 0} ⦃fl : Float F⦄ where
  open fl use {decimal, lt}

  unfoldable pub atr_spec : Spec F
  atr_spec = record {
    name = "atr";
    title = "Average True Range";
    group = group_volatility;
    overlay = false;
    sourced = false;
    params = period_param 14 1 ∷ [];
    outputs = "atr" ∷ [];
    valid = λ p. true;
    make =
        λ p. record { State = Atr F; methods = Atr.methods; state = Atr.new (get_int p "period") };
  }

  unfoldable pub bollinger_spec : Spec F
  bollinger_spec = record {
    name = "bb";
    title = "Bollinger Bands";
    group = group_volatility;
    overlay = true;
    sourced = true;
    params =
        int_param "period" (decimal 20 0) (decimal 2 0) (decimal max_period 0)
        ∷ float_param "mult" (decimal 2 0) (decimal 1 1) (decimal 10 0)
        ∷ [];
    outputs = "upper" ∷ "middle" ∷ "lower" ∷ [];
    valid = λ p. true;
    make = λ p. record {
      State = BollingerBands F;
      methods = BollingerBands.methods;
      state = BollingerBands.new (get_int p "period") (get_float p "mult") p.source;
    };
  }

  unfoldable pub cvol_spec : Spec F
  cvol_spec = record {
    name = "cvol";
    title = "Chaikin Volatility";
    group = group_volatility;
    overlay = false;
    sourced = false;
    params =
        int_param "period" (decimal 10 0) (decimal 1 0) (decimal max_period 0)
        ∷ int_param "roc" (decimal 10 0) (decimal 1 0) (decimal max_period 0)
        ∷ [];
    outputs = "cvol" ∷ [];
    valid = λ p. true;
    make = λ p. record {
      State = ChaikinVolatility F;
      methods = ChaikinVolatility.methods;
      state = ChaikinVolatility.new (get_int p "period") (get_int p "roc");
    };
  }

  unfoldable pub hv_spec : Spec F
  hv_spec = record {
    name = "hv";
    title = "Historical Volatility";
    group = group_volatility;
    overlay = false;
    sourced = true;
    params =
        int_param "period" (decimal 20 0) (decimal 2 0) (decimal max_period 0)
        ∷ int_param "annual" (decimal 252 0) (decimal 1 0) (decimal max_period 0)
        ∷ [];
    outputs = "hv" ∷ [];
    valid = λ p. true;
    make = λ p. record {
      State = HistoricalVolatility F;
      methods = HistoricalVolatility.methods;
      state = HistoricalVolatility.new (get_int p "period") (get_int p "annual") p.source;
    };
  }

  unfoldable pub stddev_spec : Spec F
  stddev_spec = record {
    name = "stddev";
    title = "Standard Deviation";
    group = group_volatility;
    overlay = false;
    sourced = true;
    params = period_param 20 2 ∷ [];
    outputs = "stddev" ∷ [];
    valid = λ p. true;
    make = λ p. record {
      State = StdDev F;
      methods = StdDev.methods;
      state = StdDev.new (get_int p "period") p.source;
    };
  }
