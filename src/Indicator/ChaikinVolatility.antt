-- ===== src/Indicator/ChaikinVolatility.antt =====
-- internal/indicator/chaikinvol.go: the change of the averaged span. Its last value is computed as `Roc.rate`.
use Prim.Native.Nat.{max}
use alvo_backtester.Base.{ℕ, ◌+◌, ◌-◌, ◌*◌, Bool, ◌&&◌, List, [], ◌∷◌, if◌then◌else◌, Float}
use alvo_backtester.Indicator.{Candle, Indicator}
use alvo_backtester.Indicator.Ema
use alvo_backtester.Indicator.Ema.{Average, ema_prime_factor}
use alvo_backtester.Indicator.Ring
use alvo_backtester.Indicator.Ring.{Ring}
use alvo_backtester.Indicator.Roc.{rate}

pub record ChaikinVolatility (F : Type 0) : Type 0 where
  pub period : ℕ
  pub change : ℕ
  pub spread : Average F
  pub window : Ring F
  pub out : List F

module _ {F : Type 0} where
  unfoldable pub values : ChaikinVolatility F → List F
  values s = s.out

  unfoldable pub ready : ChaikinVolatility F → Bool
  ready s = Ring.full s.window

  unfoldable pub warmup : ChaikinVolatility F → ℕ
  warmup s = s.period - 1 + s.change

  unfoldable pub prime_bars : ChaikinVolatility F → ℕ
  prime_bars s = s.period * ema_prime_factor + s.change

module _ {F : Type 0} ⦃fl : Float F⦄ where
  open fl use {
    decimal, of_int, to_int, add, sub, mul, div, lt, le, eq, min as min_float, max as max_float,
    abs, neg, sqrt, log, round,
  }

  unfoldable pub new : ℕ → ℕ → ChaikinVolatility F
  new period change = record {
    period = max period 1;
    change = max change 1;
    spread = Ema.start (max period 1);
    window = Ring.new (max change 1 + 1);
    out = decimal 0 0 ∷ [];
  }

  unfoldable pub update : ChaikinVolatility F → Candle F → ChaikinVolatility F
  update s c =
      let spread : Average F = Ema.push s.spread (sub c.high c.low) in
      let window : Ring F = if spread.ready then Ring.push s.window spread.value else s.window in
      record s {
        spread = spread;
        window = window;
        out =
            if spread.ready && Ring.full window
            then rate spread.value (Ring.at window 0) ∷ []
            else s.out;
      }

  unfoldable pub reset : ChaikinVolatility F → ChaikinVolatility F
  reset s = record s {
    spread = Ema.clear s.spread;
    window = Ring.reset s.window;
    out = decimal 0 0 ∷ [];
  }

  unfoldable pub methods : Indicator (ChaikinVolatility F) F
  unfolding update reset
  methods = record {
    update = update;
    values = values;
    ready = ready;
    warmup = warmup;
    reset = reset;
  }
