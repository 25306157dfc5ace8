-- ===== src/Indicator/Registry/Overlay.antt =====
-- internal/indicator: what the `init` functions register, the overlays.
use alvo_backtester.Base.{true, false, not, [], ◌∷◌, Float}
use alvo_backtester.Indicator.Registry.{
  Spec, period_param, int_param, float_param, max_period, get_int, get_float, group_overlay,
}
use alvo_backtester.Indicator.Dema
use alvo_backtester.Indicator.Dema.{Dema}
use alvo_backtester.Indicator.Donchian
use alvo_backtester.Indicator.Donchian.{Donchian}
use alvo_backtester.Indicator.Ema
use alvo_backtester.Indicator.Ema.{Ema}
use alvo_backtester.Indicator.Hma
use alvo_backtester.Indicator.Hma.{Hma}
use alvo_backtester.Indicator.Ichimoku
use alvo_backtester.Indicator.Ichimoku.{Ichimoku}
use alvo_backtester.Indicator.Keltner
use alvo_backtester.Indicator.Keltner.{Keltner}
use alvo_backtester.Indicator.ParabolicSar
use alvo_backtester.Indicator.ParabolicSar.{ParabolicSar}
use alvo_backtester.Indicator.Sma
use alvo_backtester.Indicator.Sma.{Sma}
use alvo_backtester.Indicator.SuperTrend
use alvo_backtester.Indicator.SuperTrend.{SuperTrend}
use alvo_backtester.Indicator.Tema
use alvo_backtester.Indicator.Tema.{Tema}
use alvo_backtester.Indicator.Vwap
use alvo_backtester.Indicator.Vwap.{Vwap}
use alvo_backtester.Indicator.Wma
use alvo_backtester.Indicator.Wma.{Wma}

module _ {F : Type 0} ⦃fl : Float F⦄ where
  open fl use {decimal, lt}

  unfoldable pub dema_spec : Spec F
  dema_spec = record {
    name = "dema";
    title = "Double Exponential Moving Average";
    group = group_overlay;
    overlay = true;
    sourced = true;
    params = period_param 20 1 ∷ [];
    outputs = "dema" ∷ [];
    valid = λ p. true;
    make = λ p. record {
      State = Dema F;
      methods = Dema.methods;
      state = Dema.new (get_int p "period") p.source;
    };
  }

  unfoldable pub donchian_spec : Spec F
  donchian_spec = record {
    name = "donchian";
    title = "Donchian Channels";
    group = group_overlay;
    overlay = true;
    sourced = false;
    params = period_param 20 1 ∷ [];
    outputs = "upper" ∷ "middle" ∷ "lower" ∷ [];
    valid = λ p. true;
    make = λ p. record {
      State = Donchian F;
      methods = Donchian.methods;
      state = Donchian.new (get_int p "period");
    };
  }

  unfoldable pub ema_spec : Spec F
  ema_spec = record {
    name = "ema";
    title = "Exponential Moving Average";
    group = group_overlay;
    overlay = true;
    sourced = true;
    params = period_param 20 1 ∷ [];
    outputs = "ema" ∷ [];
    valid = λ p. true;
    make = λ p. record {
      State = Ema F;
      methods = Ema.methods;
      state = Ema.new (get_int p "period") p.source;
    };
  }

  unfoldable pub hma_spec : Spec F
  hma_spec = record {
    name = "hma";
    title = "Hull Moving Average";
    group = group_overlay;
    overlay = true;
    sourced = true;
    params = period_param 9 1 ∷ [];
    outputs = "hma" ∷ [];
    valid = λ p. true;
    make = λ p. record {
      State = Hma F;
      methods = Hma.methods;
      state = Hma.new (get_int p "period") p.source;
    };
  }

  unfoldable pub ichimoku_spec : Spec F
  ichimoku_spec = record {
    name = "ichimoku";
    title = "Ichimoku Cloud";
    group = group_overlay;
    overlay = true;
    sourced = false;
    params =
        int_param "tenkan" (decimal 9 0) (decimal 1 0) (decimal max_period 0)
        ∷ int_param "kijun" (decimal 26 0) (decimal 1 0) (decimal max_period 0)
        ∷ int_param "senkou" (decimal 52 0) (decimal 1 0) (decimal max_period 0)
        ∷ int_param "displacement" (decimal 26 0) (decimal 0 0) (decimal max_period 0)
        ∷ [];
    outputs = "tenkan" ∷ "kijun" ∷ "senkou_a" ∷ "senkou_b" ∷ "chikou" ∷ [];
    valid = λ p. true;
    make = λ p. record {
      State = Ichimoku F;
      methods = Ichimoku.methods;
      state = Ichimoku.new (get_int p "tenkan") (get_int p "kijun") (get_int p "senkou");
    };
  }

  unfoldable pub keltner_spec : Spec F
  keltner_spec = record {
    name = "keltner";
    title = "Keltner Channels";
    group = group_overlay;
    overlay = true;
    sourced = false;
    params =
        int_param "period" (decimal 20 0) (decimal 1 0) (decimal max_period 0)
        ∷ float_param "mult" (decimal 2 0) (decimal 1 1) (decimal 10 0)
        ∷ int_param "atr" (decimal 10 0) (decimal 1 0) (decimal max_period 0)
        ∷ [];
    outputs = "upper" ∷ "middle" ∷ "lower" ∷ [];
    valid = λ p. true;
    make = λ p. record {
      State = Keltner F;
      methods = Keltner.methods;
      state = Keltner.new (get_int p "period") (get_float p "mult") (get_int p "atr");
    };
  }

  unfoldable pub psar_spec : Spec F
  psar_spec = record {
    name = "psar";
    title = "Parabolic SAR";
    group = group_overlay;
    overlay = true;
    sourced = false;
    params =
        float_param "step" (decimal 2 2) (decimal 1 3) (decimal 1 0)
        ∷ float_param "max" (decimal 2 1) (decimal 1 3) (decimal 1 0)
        ∷ [];
    outputs = "sar" ∷ "direction" ∷ [];
    valid = λ p. not (lt (get_float p "max") (get_float p "step"));
    make = λ p. record {
      State = ParabolicSar F;
      methods = ParabolicSar.methods;
      state = ParabolicSar.new (get_float p "step") (get_float p "max");
    };
  }

  unfoldable pub sma_spec : Spec F
  sma_spec = record {
    name = "sma";
    title = "Simple Moving Average";
    group = group_overlay;
    overlay = true;
    sourced = true;
    params = period_param 20 1 ∷ [];
    outputs = "sma" ∷ [];
    valid = λ p. true;
    make = λ p. record {
      State = Sma F;
      methods = Sma.methods;
      state = Sma.new (get_int p "period") p.source;
    };
  }

  unfoldable pub supertrend_spec : Spec F
  supertrend_spec = record {
    name = "supertrend";
    title = "SuperTrend";
    group = group_overlay;
    overlay = true;
    sourced = false;
    params =
        int_param "period" (decimal 10 0) (decimal 1 0) (decimal max_period 0)
        ∷ float_param "mult" (decimal 3 0) (decimal 1 1) (decimal 20 0)
        ∷ [];
    outputs = "supertrend" ∷ "direction" ∷ [];
    valid = λ p. true;
    make = λ p. record {
      State = SuperTrend F;
      methods = SuperTrend.methods;
      state = SuperTrend.new (get_int p "period") (get_float p "mult");
    };
  }

  unfoldable pub tema_spec : Spec F
  tema_spec = record {
    name = "tema";
    title = "Triple Exponential Moving Average";
    group = group_overlay;
    overlay = true;
    sourced = true;
    params = period_param 20 1 ∷ [];
    outputs = "tema" ∷ [];
    valid = λ p. true;
    make = λ p. record {
      State = Tema F;
      methods = Tema.methods;
      state = Tema.new (get_int p "period") p.source;
    };
  }

  unfoldable pub vwap_spec : Spec F
  vwap_spec = record {
    name = "vwap";
    title = "Rolling VWAP";
    group = group_overlay;
    overlay = true;
    sourced = false;
    params = period_param 20 1 ∷ [];
    outputs = "vwap" ∷ [];
    valid = λ p. true;
    make = λ p. record {
      State = Vwap F;
      methods = Vwap.methods;
      state = Vwap.new (get_int p "period");
    };
  }

  unfoldable pub wma_spec : Spec F
  wma_spec = record {
    name = "wma";
    title = "Weighted Moving Average";
    group = group_overlay;
    overlay = true;
    sourced = true;
    params = period_param 20 1 ∷ [];
    outputs = "wma" ∷ [];
    valid = λ p. true;
    make = λ p. record {
      State = Wma F;
      methods = Wma.methods;
      state = Wma.new (get_int p "period") p.source;
    };
  }
