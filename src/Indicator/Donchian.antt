-- ===== src/Indicator/Donchian.antt =====
-- internal/indicator/donchian.go: the Donchian channel.
use Prim.Native.Nat.{max}
use alvo_backtester.Base.{ℕ, ◌-◌, Bool, true, false, List, [], ◌∷◌, if◌then◌else◌, Float}
use alvo_backtester.Indicator.{Candle, Indicator}
use alvo_backtester.Indicator.Extreme
use alvo_backtester.Indicator.Extreme.{Extreme}

pub record Donchian (F : Type 0) : Type 0 where
  pub period : ℕ
  pub high : Extreme F
  pub low : Extreme F
  pub out : List F

module _ {F : Type 0} where
  unfoldable pub values : Donchian F → List F
  values s = s.out

  unfoldable pub ready : Donchian F → Bool
  ready s = Extreme.full s.high

  unfoldable pub warmup : Donchian F → ℕ
  warmup s = s.period - 1

module _ {F : Type 0} ⦃fl : Float F⦄ where
  open fl use {
    decimal, of_int, to_int, add, sub, mul, div, lt, le, eq, min as min_float, max as max_float,
    abs, neg, sqrt, log, round,
  }

  unfoldable pub new : ℕ → Donchian F
  new period = record {
    period = max period 1;
    high = Extreme.new (max period 1) true;
    low = Extreme.new (max period 1) false;
    out = decimal 0 0 ∷ decimal 0 0 ∷ decimal 0 0 ∷ [];
  }

  unfoldable pub update : Donchian F → Candle F → Donchian F
  update s c =
      let high : Extreme F = Extreme.push s.high c.high in
      let low : Extreme F = Extreme.push s.low c.low in
      record s {
        high = high;
        low = low;
        out =
            if Extreme.full high
            then Extreme.value high
              ∷ div (add (Extreme.value high) (Extreme.value low)) (decimal 2 0)
              ∷ Extreme.value low
              ∷ []
            else s.out;
      }

  unfoldable pub reset : Donchian F → Donchian F
  reset s = record s {
    high = Extreme.reset s.high;
    low = Extreme.reset s.low;
    out = decimal 0 0 ∷ decimal 0 0 ∷ decimal 0 0 ∷ [];
  }

  unfoldable pub methods : Indicator (Donchian F) F
  unfolding update reset
  methods = record {
    update = update;
    values = values;
    ready = ready;
    warmup = warmup;
    reset = reset;
  }
