-- ===== src/Indicator/WilliamsR.antt =====
-- internal/indicator/willr.go: the Williams range.
use Prim.Native.Nat.{max}
use alvo_backtester.Base.{ℕ, ◌-◌, Bool, true, false, List, [], ◌∷◌, if◌then◌else◌, Float}
use alvo_backtester.Indicator.{Candle, Indicator}
use alvo_backtester.Indicator.Extreme
use alvo_backtester.Indicator.Extreme.{Extreme}
use alvo_backtester.Indicator.Stochastic.{stochastic_percent}

pub record WilliamsR (F : Type 0) : Type 0 where
  pub period : ℕ
  pub high : Extreme F
  pub low : Extreme F
  pub out : List F

module _ {F : Type 0} where
  unfoldable pub values : WilliamsR F → List F
  values s = s.out

  unfoldable pub ready : WilliamsR F → Bool
  ready s = Extreme.full s.high

  unfoldable pub warmup : WilliamsR F → ℕ
  warmup s = s.period - 1

module _ {F : Type 0} ⦃fl : Float F⦄ where
  open fl use {
    decimal, of_int, to_int, add, sub, mul, div, lt, le, eq, min as min_float, max as max_float,
    abs, neg, sqrt, log, round,
  }

  unfoldable pub new : ℕ → WilliamsR F
  new period = record {
    period = max period 1;
    high = Extreme.new (max period 1) true;
    low = Extreme.new (max period 1) false;
    out = decimal 0 0 ∷ [];
  }

  unfoldable pub update : WilliamsR F → Candle F → WilliamsR F
  update s c =
      let high : Extreme F = Extreme.push s.high c.high in
      let low : Extreme F = Extreme.push s.low c.low in
      record s {
        high = high;
        low = low;
        out =
            if Extreme.full high
            then sub (stochastic_percent c.close (Extreme.value high) (Extreme.value low))
                (decimal 100 0)
              ∷ []
            else s.out;
      }

  unfoldable pub reset : WilliamsR F → WilliamsR F
  reset s = record s {
    high = Extreme.reset s.high;
    low = Extreme.reset s.low;
    out = decimal 0 0 ∷ [];
  }

  unfoldable pub methods : Indicator (WilliamsR F) F
  unfolding update reset
  methods = record {
    update = update;
    values = values;
    ready = ready;
    warmup = warmup;
    reset = reset;
  }
