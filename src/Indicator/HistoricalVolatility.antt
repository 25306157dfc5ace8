-- ===== src/Indicator/HistoricalVolatility.antt =====
-- internal/indicator/histvol.go: the deviation of the logarithmic changes.
use Prim.Native.Nat.{max}
use alvo_backtester.Base.{ℕ, Bool, true, false, ◌&&◌, List, [], ◌∷◌, if◌then◌else◌, Float}
use alvo_backtester.Indicator.{Candle, Source, value as price_of, Indicator}
use alvo_backtester.Indicator.Window
use alvo_backtester.Indicator.Window.{Window}

pub record HistoricalVolatility (F : Type 0) : Type 0 where
  pub period : ℕ
  pub annual : ℕ
  pub source : Source
  pub previous : F
  pub seen : Bool
  pub window : Window F
  pub out : List F

module _ {F : Type 0} where
  unfoldable pub values : HistoricalVolatility F → List F
  values s = s.out

  unfoldable pub ready : HistoricalVolatility F → Bool
  ready s = Window.full s.window

  unfoldable pub warmup : HistoricalVolatility F → ℕ
  warmup s = s.period

module _ {F : Type 0} ⦃fl : Float F⦄ where
  open fl use {
    decimal, of_int, to_int, add, sub, mul, div, lt, le, eq, min as min_float, max as max_float,
    abs, neg, sqrt, log, round,
  }

  unfoldable pub new : ℕ → ℕ → Source → HistoricalVolatility F
  new period annual source = record {
    period = max period 1;
    annual = max annual 1;
    source = source;
    previous = decimal 0 0;
    seen = false;
    window = Window.new (max period 1);
    out = decimal 0 0 ∷ [];
  }

  -- `HistoricalVolatility.Update` from the second bar on.
  unfoldable pub advance : HistoricalVolatility F → F → HistoricalVolatility F
  advance s price =
      let change =
        if lt (decimal 0 0) price && lt (decimal 0 0) s.previous
        then log (div price s.previous)
        else decimal 0 0 in
      let window : Window F = Window.push s.window change in
      let level = mul (mul (decimal 100 0) (Window.stddev window)) (sqrt (of_int s.annual)) in
      record s {
        previous = price;
        window = window;
        out = if Window.full window then level ∷ [] else s.out;
      }

  unfoldable pub update : HistoricalVolatility F → Candle F → HistoricalVolatility F
  unfolding advance
  update s c =
      let price = price_of s.source c in
      if s.seen then advance s price else record s { previous = price; seen = true }

  unfoldable pub reset : HistoricalVolatility F → HistoricalVolatility F
  reset s = record s {
    previous = decimal 0 0;
    seen = false;
    window = Window.reset s.window;
    out = decimal 0 0 ∷ [];
  }

  unfoldable pub methods : Indicator (HistoricalVolatility F) F
  unfolding update reset
  methods = record {
    update = update;
    values = values;
    ready = ready;
    warmup = warmup;
    reset = reset;
  }
