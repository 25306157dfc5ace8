-- ===== src/Indicator/Roc.antt =====
-- internal/indicator/roc.go: the rate of change.
use Prim.Native.Nat.{max}
use alvo_backtester.Base.{ℕ, ◌+◌, Bool, List, [], ◌∷◌, if◌then◌else◌, Float}
use alvo_backtester.Indicator.{Candle, Source, value as price_of, Indicator}
use alvo_backtester.Indicator.Ring
use alvo_backtester.Indicator.Ring.{Ring}

pub record Roc (F : Type 0) : Type 0 where
  pub period : ℕ
  pub source : Source
  pub window : Ring F
  pub out : List F

module _ {F : Type 0} where
  unfoldable pub values : Roc F → List F
  values s = s.out

  unfoldable pub ready : Roc F → Bool
  ready s = Ring.full s.window

  unfoldable pub warmup : Roc F → ℕ
  warmup s = s.period

module _ {F : Type 0} ⦃fl : Float F⦄ where
  open fl use {
    decimal, of_int, to_int, add, sub, mul, div, lt, le, eq, min as min_float, max as max_float,
    abs, neg, sqrt, log, round,
  }

  unfoldable pub new : ℕ → Source → Roc F
  new period source = record {
    period = max period 1;
    source = source;
    window = Ring.new (max period 1 + 1);
    out = decimal 0 0 ∷ [];
  }

  unfoldable pub rate : F → F → F
  rate price past =
      if eq past (decimal 0 0) then decimal 0 0 else div (mul (decimal 100 0) (sub price past)) past

  unfoldable pub update : Roc F → Candle F → Roc F
  unfolding rate
  update s c =
      let price = price_of s.source c in
      let window : Ring F = Ring.push s.window price in
      record s {
        window = window;
        out = if Ring.full window then rate price (Ring.at window 0) ∷ [] else s.out;
      }

  unfoldable pub reset : Roc F → Roc F
  reset s = record s { window = Ring.reset s.window; out = decimal 0 0 ∷ [] }

  unfoldable pub methods : Indicator (Roc F) F
  unfolding update reset
  methods = record {
    update = update;
    values = values;
    ready = ready;
    warmup = warmup;
    reset = reset;
  }
