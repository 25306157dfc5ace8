-- ===== src/Indicator/Aroon.antt =====
-- internal/indicator/aroon.go: the time since the extremes. An age is at most the period, so its difference is not below zero.
use Prim.Native.Nat.{max}
use alvo_backtester.Base.{ℕ, ◌+◌, ◌-◌, Bool, true, false, List, [], ◌∷◌, if◌then◌else◌, Float}
use alvo_backtester.Indicator.{Candle, Indicator}
use alvo_backtester.Indicator.Extreme
use alvo_backtester.Indicator.Extreme.{Extreme}

pub record Aroon (F : Type 0) : Type 0 where
  pub period : ℕ
  pub high : Extreme F
  pub low : Extreme F
  pub out : List F

module _ {F : Type 0} where
  unfoldable pub values : Aroon F → List F
  values s = s.out

  unfoldable pub ready : Aroon F → Bool
  ready s = Extreme.full s.high

  unfoldable pub warmup : Aroon F → ℕ
  warmup s = s.period

module _ {F : Type 0} ⦃fl : Float F⦄ where
  open fl use {
    decimal, of_int, to_int, add, sub, mul, div, lt, le, eq, min as min_float, max as max_float,
    abs, neg, sqrt, log, round,
  }

  unfoldable pub share : ℕ → ℕ → F
  share period age = div (mul (decimal 100 0) (of_int (period - age))) (of_int period)

  unfoldable pub new : ℕ → Aroon F
  new period = record {
    period = max period 1;
    high = Extreme.new (max period 1 + 1) true;
    low = Extreme.new (max period 1 + 1) false;
    out = decimal 0 0 ∷ decimal 0 0 ∷ decimal 0 0 ∷ [];
  }

  unfoldable pub update : Aroon F → Candle F → Aroon F
  update s c =
      let high : Extreme F = Extreme.push s.high c.high in
      let low : Extreme F = Extreme.push s.low c.low in
      let up = share s.period (Extreme.age high) in
      let down = share s.period (Extreme.age low) in
      record s {
        high = high;
        low = low;
        out = if Extreme.full high then up ∷ down ∷ sub up down ∷ [] else s.out;
      }

  unfoldable pub reset : Aroon F → Aroon F
  reset s = record s {
    high = Extreme.reset s.high;
    low = Extreme.reset s.low;
    out = decimal 0 0 ∷ decimal 0 0 ∷ decimal 0 0 ∷ [];
  }

  unfoldable pub methods : Indicator (Aroon F) F
  unfolding update reset
  methods = record {
    update = update;
    values = values;
    ready = ready;
    warmup = warmup;
    reset = reset;
  }
