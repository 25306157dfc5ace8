-- ===== src/Indicator/BollingerBands.antt =====
-- internal/indicator/bbands.go: the Bollinger bands.
use Prim.Native.Nat.{max}
use alvo_backtester.Base.{ℕ, ◌-◌, Bool, List, [], ◌∷◌, if◌then◌else◌, Float}
use alvo_backtester.Indicator.{Candle, Source, value as price_of, Indicator}
use alvo_backtester.Indicator.Window
use alvo_backtester.Indicator.Window.{Window}

pub record BollingerBands (F : Type 0) : Type 0 where
  pub period : ℕ
  pub mult : F
  pub source : Source
  pub window : Window F
  pub out : List F

module _ {F : Type 0} where
  unfoldable pub values : BollingerBands F → List F
  values s = s.out

  unfoldable pub ready : BollingerBands F → Bool
  ready s = Window.full s.window

  unfoldable pub warmup : BollingerBands F → ℕ
  warmup s = s.period - 1

module _ {F : Type 0} ⦃fl : Float F⦄ where
  open fl use {
    decimal, of_int, to_int, add, sub, mul, div, lt, le, eq, min as min_float, max as max_float,
    abs, neg, sqrt, log, round,
  }

  unfoldable pub new : ℕ → F → Source → BollingerBands F
  new period mult source = record {
    period = max period 1;
    mult = mult;
    source = source;
    window = Window.new (max period 1);
    out = decimal 0 0 ∷ decimal 0 0 ∷ decimal 0 0 ∷ [];
  }

  unfoldable pub update : BollingerBands F → Candle F → BollingerBands F
  update s c =
      let window : Window F = Window.push s.window (price_of s.source c) in
      let middle = Window.mean window in
      let spread = mul s.mult (Window.stddev window) in
      record s {
        window = window;
        out =
            if Window.full window
            then add middle spread ∷ middle ∷ sub middle spread ∷ []
            else s.out;
      }

  unfoldable pub reset : BollingerBands F → BollingerBands F
  reset s = record s {
    window = Window.reset s.window;
    out = decimal 0 0 ∷ decimal 0 0 ∷ decimal 0 0 ∷ [];
  }

  unfoldable pub methods : Indicator (BollingerBands F) F
  unfolding update reset
  methods = record {
    update = update;
    values = values;
    ready = ready;
    warmup = warmup;
    reset = reset;
  }
