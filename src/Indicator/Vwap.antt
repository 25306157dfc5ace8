-- ===== src/Indicator/Vwap.antt =====
-- internal/indicator/vwap.go: the price weighted by volume.
use Prim.Native.Nat.{max}
use alvo_backtester.Base.{ℕ, ◌-◌, Bool, List, [], ◌∷◌, if◌then◌else◌, Float}
use alvo_backtester.Indicator.{Candle, Indicator}
use alvo_backtester.Indicator.Ring
use alvo_backtester.Indicator.Ring.{Ring}

pub record Vwap (F : Type 0) : Type 0 where
  pub period : ℕ
  pub typical : Ring F
  pub weighted : Ring F
  pub volume : Ring F
  pub out : List F

module _ {F : Type 0} where
  unfoldable pub values : Vwap F → List F
  values s = s.out

  unfoldable pub ready : Vwap F → Bool
  ready s = Ring.full s.typical

  unfoldable pub warmup : Vwap F → ℕ
  warmup s = s.period - 1

module _ {F : Type 0} ⦃fl : Float F⦄ where
  open fl use {
    decimal, of_int, to_int, add, sub, mul, div, lt, le, eq, min as min_float, max as max_float,
    abs, neg, sqrt, log, round,
  }

  unfoldable pub new : ℕ → Vwap F
  new period = record {
    period = max period 1;
    typical = Ring.new (max period 1);
    weighted = Ring.new (max period 1);
    volume = Ring.new (max period 1);
    out = decimal 0 0 ∷ [];
  }

  unfoldable pub level : Ring F → Ring F → Ring F → F
  level typical weighted volume =
      if le (Ring.sum volume) (decimal 0 0)
      then Ring.mean typical
      else div (Ring.sum weighted) (Ring.sum volume)

  unfoldable pub update : Vwap F → Candle F → Vwap F
  unfolding level
  update s c =
      let price = div (add (add c.high c.low) c.close) (decimal 3 0) in
      let typical : Ring F = Ring.push s.typical price in
      let weighted : Ring F = Ring.push s.weighted (mul price c.volume) in
      let volume : Ring F = Ring.push s.volume c.volume in
      record s {
        typical = typical;
        weighted = weighted;
        volume = volume;
        out = if Ring.full typical then level typical weighted volume ∷ [] else s.out;
      }

  unfoldable pub reset : Vwap F → Vwap F
  reset s = record s {
    typical = Ring.reset s.typical;
    weighted = Ring.reset s.weighted;
    volume = Ring.reset s.volume;
    out = decimal 0 0 ∷ [];
  }

  unfoldable pub methods : Indicator (Vwap F) F
  unfolding update reset
  methods = record {
    update = update;
    values = values;
    ready = ready;
    warmup = warmup;
    reset = reset;
  }
