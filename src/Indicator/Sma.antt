-- ===== src/Indicator/Sma.antt =====
-- internal/indicator/sma.go: the simple moving average.
use Prim.Native.Nat.{max}
use alvo_backtester.Base.{ℕ, ◌-◌, Bool, List, [], ◌∷◌, if◌then◌else◌, Float}
use alvo_backtester.Indicator.{Candle, Source, value as price_of, Indicator}
use alvo_backtester.Indicator.Ring
use alvo_backtester.Indicator.Ring.{Ring}

pub record Sma (F : Type 0) : Type 0 where
  pub period : ℕ
  pub source : Source
  pub window : Ring F
  pub out : List F

module _ {F : Type 0} where
  unfoldable pub values : Sma F → List F
  values s = s.out

  unfoldable pub ready : Sma F → Bool
  ready s = Ring.full s.window

  unfoldable pub warmup : Sma F → ℕ
  warmup s = s.period - 1

module _ {F : Type 0} ⦃fl : Float F⦄ where
  open fl use {
    decimal, of_int, to_int, add, sub, mul, div, lt, le, eq, min as min_float, max as max_float,
    abs, neg, sqrt, log, round,
  }

  unfoldable pub new : ℕ → Source → Sma F
  new period source = record {
    period = max period 1;
    source = source;
    window = Ring.new period;
    out = decimal 0 0 ∷ [];
  }

  unfoldable pub update : Sma F → Candle F → Sma F
  update s c =
      let window : Ring F = Ring.push s.window (price_of s.source c) in
      record s { window = window; out = if Ring.full window then Ring.mean window ∷ [] else s.out }

  unfoldable pub reset : Sma F → Sma F
  reset s = record s { window = Ring.reset s.window; out = decimal 0 0 ∷ [] }

  unfoldable pub methods : Indicator (Sma F) F
  unfolding update reset
  methods = record {
    update = update;
    values = values;
    ready = ready;
    warmup = warmup;
    reset = reset;
  }
