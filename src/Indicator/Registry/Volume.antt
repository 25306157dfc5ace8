-- ===== src/Indicator/Registry/Volume.antt =====
-- internal/indicator: what the `init` functions register, the volume indicators.
use alvo_backtester.Base.{true, false, lt64, [], ◌∷◌, Float}
use alvo_backtester.Indicator.Registry.{
  Spec, period_param, int_param, max_period, get_int, group_volume,
}
use alvo_backtester.Indicator.AdLine
use alvo_backtester.Indicator.AdLine.{AdLine}
use alvo_backtester.Indicator.ChaikinOscillator
use alvo_backtester.Indicator.ChaikinOscillator.{ChaikinOscillator}
use alvo_backtester.Indicator.Mfi
use alvo_backtester.Indicator.Mfi.{Mfi}
use alvo_backtester.Indicator.Obv
use alvo_backtester.Indicator.Obv.{Obv}
use alvo_backtester.Indicator.VolumeMa
use alvo_backtester.Indicator.VolumeMa.{VolumeMa}
use alvo_backtester.Indicator.Vwma
use alvo_backtester.Indicator.Vwma.{Vwma}

module _ {F : Type 0} ⦃fl : Float F⦄ where
  open fl use {decimal, lt}

  unfoldable pub ad_spec : Spec F
  ad_spec = record {
    name = "ad";
    title = "Accumulation/Distribution Line";
    group = group_volume;
    overlay = false;
    sourced = false;
    params = [];
    outputs = "ad" ∷ [];
    valid = λ p. true;
    make = λ p. record { State = AdLine F; methods = AdLine.methods; state = AdLine.new };
  }

  unfoldable pub chaikin_spec : Spec F
  chaikin_spec = record {
    name = "chaikin";
    title = "Chaikin Oscillator";
    group = group_volume;
    overlay = false;
    sourced = false;
    params =
        int_param "fast" (decimal 3 0) (decimal 1 0) (decimal max_period 0)
        ∷ int_param "slow" (decimal 10 0) (decimal 2 0) (decimal max_period 0)
        ∷ [];
    outputs = "chaikin" ∷ [];
    valid = λ p. lt64 (get_int p "fast") (get_int p "slow");
    make = λ p. record {
      State = ChaikinOscillator F;
      methods = ChaikinOscillator.methods;
      state = ChaikinOscillator.new (get_int p "fast") (get_int p "slow");
    };
  }

  unfoldable pub mfi_spec : Spec F
  mfi_spec = record {
    name = "mfi";
    title = "Money Flow Index";
    group = group_volume;
    overlay = false;
    sourced = false;
    params = period_param 14 1 ∷ [];
    outputs = "mfi" ∷ [];
    valid = λ p. true;
    make =
        λ p. record { State = Mfi F; methods = Mfi.methods; state = Mfi.new (get_int p "period") };
  }

  unfoldable pub obv_spec : Spec F
  obv_spec = record {
    name = "obv";
    title = "On-Balance Volume";
    group = group_volume;
    overlay = false;
    sourced = false;
    params = [];
    outputs = "obv" ∷ [];
    valid = λ p. true;
    make = λ p. record { State = Obv F; methods = Obv.methods; state = Obv.new };
  }

  unfoldable pub volma_spec : Spec F
  volma_spec = record {
    name = "volma";
    title = "Volume Moving Average";
    group = group_volume;
    overlay = false;
    sourced = false;
    params = period_param 20 1 ∷ [];
    outputs = "volma" ∷ [];
    valid = λ p. true;
    make = λ p. record {
      State = VolumeMa F;
      methods = VolumeMa.methods;
      state = VolumeMa.new (get_int p "period");
    };
  }

  unfoldable pub vwma_spec : Spec F
  vwma_spec = record {
    name = "vwma";
    title = "Volume Weighted Moving Average";
    group = group_volume;
    overlay = true;
    sourced = true;
    params = period_param 20 1 ∷ [];
    outputs = "vwma" ∷ [];
    valid = λ p. true;
    make = λ p. record {
      State = Vwma F;
      methods = Vwma.methods;
      state = Vwma.new (get_int p "period") p.source;
    };
  }
