-- ===== src/Indicator/Vwma.antt =====
-- internal/indicator/vwma.go: the moving average weighted by volume.
use Prim.Native.Nat.{max}
use alvo_backtester.Base.{ℕ, ◌-◌, Bool, List, [], ◌∷◌, if◌then◌else◌, Float}
use alvo_backtester.Indicator.{Candle, Source, value as price_of, Indicator}
use alvo_backtester.Indicator.Ring
use alvo_backtester.Indicator.Ring.{Ring}

pub record Vwma (F : Type 0) : Type 0 where
  pub period : ℕ
  pub source : Source
  pub price : Ring F
  pub weighted : Ring F
  pub volume : Ring F
  pub out : List F

module _ {F : Type 0} where
  unfoldable pub values : Vwma F → List F
  values s = s.out

  unfoldable pub ready : Vwma F → Bool
  ready s = Ring.full s.price

  unfoldable pub warmup : Vwma F → ℕ
  warmup s = s.period - 1

module _ {F : Type 0} ⦃fl : Float F⦄ where
  open fl use {
    decimal, of_int, to_int, add, sub, mul, div, lt, le, eq, min as min_float, max as max_float,
    abs, neg, sqrt, log, round,
  }

  unfoldable pub new : ℕ → Source → Vwma F
  new period source = record {
    period = max period 1;
    source = source;
    price = Ring.new (max period 1);
    weighted = Ring.new (max period 1);
    volume = Ring.new (max period 1);
    out = decimal 0 0 ∷ [];
  }

  unfoldable pub level : Ring F → Ring F → Ring F → F
  level price weighted volume =
      if le (Ring.sum volume) (decimal 0 0)
      then Ring.mean price
      else div (Ring.sum weighted) (Ring.sum volume)

  unfoldable pub update : Vwma F → Candle F → Vwma F
  unfolding level
  update s c =
      let paid = price_of s.source c in
      let price : Ring F = Ring.push s.price paid in
      let weighted : Ring F = Ring.push s.weighted (mul paid c.volume) in
      let volume : Ring F = Ring.push s.volume c.volume in
      record s {
        price = price;
        weighted = weighted;
        volume = volume;
        out = if Ring.full price then level price weighted volume ∷ [] else s.out;
      }

  unfoldable pub reset : Vwma F → Vwma F
  reset s = record s {
    price = Ring.reset s.price;
    weighted = Ring.reset s.weighted;
    volume = Ring.reset s.volume;
    out = decimal 0 0 ∷ [];
  }

  unfoldable pub methods : Indicator (Vwma F) F
  unfolding update reset
  methods = record {
    update = update;
    values = values;
    ready = ready;
    warmup = warmup;
    reset = reset;
  }
