-- ===== src/Indicator/StdDev.antt =====
-- internal/indicator/stddev.go: the standard deviation.
use Prim.Native.Nat.{max}
use alvo_backtester.Base.{ℕ, ◌-◌, Bool, List, [], ◌∷◌, if◌then◌else◌, Float}
use alvo_backtester.Indicator.{Candle, Source, value as price_of, Indicator}
use alvo_backtester.Indicator.Window
use alvo_backtester.Indicator.Window.{Window}

pub record StdDev (F : Type 0) : Type 0 where
  pub period : ℕ
  pub source : Source
  pub window : Window F
  pub out : List F

module _ {F : Type 0} where
  unfoldable pub values : StdDev F → List F
  values s = s.out

  unfoldable pub ready : StdDev F → Bool
  ready s = Window.full s.window

  unfoldable pub warmup : StdDev F → ℕ
  warmup s = s.period - 1

module _ {F : Type 0} ⦃fl : Float F⦄ where
  open fl use {
    decimal, of_int, to_int, add, sub, mul, div, lt, le, eq, min as min_float, max as max_float,
    abs, neg, sqrt, log, round,
  }

  unfoldable pub new : ℕ → Source → StdDev F
  new period source = record {
    period = max period 1;
    source = source;
    window = Window.new (max period 1);
    out = decimal 0 0 ∷ [];
  }

  unfoldable pub update : StdDev F → Candle F → StdDev F
  update s c =
      let window : Window F = Window.push s.window (price_of s.source c) in
      record s {
        window = window;
        out = if Window.full window then Window.stddev window ∷ [] else s.out;
      }

  unfoldable pub reset : StdDev F → StdDev F
  reset s = record s { window = Window.reset s.window; out = decimal 0 0 ∷ [] }

  unfoldable pub methods : Indicator (StdDev F) F
  unfolding update reset
  methods = record {
    update = update;
    values = values;
    ready = ready;
    warmup = warmup;
    reset = reset;
  }
