-- ===== src/Indicator/Mfi.antt =====
-- internal/indicator/mfi.go: the money flow.
use Prim.Native.Nat.{max}
use alvo_backtester.Base.{ℕ, Bool, true, false, not, ◌&&◌, List, [], ◌∷◌, if◌then◌else◌, Float}
use alvo_backtester.Indicator.{Candle, Indicator}
use alvo_backtester.Indicator.Ring
use alvo_backtester.Indicator.Ring.{Ring}
use alvo_backtester.Indicator.Stochastic.{bounded_percent}

pub record Mfi (F : Type 0) : Type 0 where
  pub period : ℕ
  pub previous : F
  pub seen : Bool
  pub positive : Ring F
  pub negative : Ring F
  pub out : List F

module _ {F : Type 0} where
  unfoldable pub values : Mfi F → List F
  values s = s.out

  unfoldable pub ready : Mfi F → Bool
  ready s = Ring.full s.positive

  unfoldable pub warmup : Mfi F → ℕ
  warmup s = s.period

module _ {F : Type 0} ⦃fl : Float F⦄ where
  open fl use {
    decimal, of_int, to_int, add, sub, mul, div, lt, le, eq, min as min_float, max as max_float,
    abs, neg, sqrt, log, round,
  }

  unfoldable pub new : ℕ → Mfi F
  new period = record {
    period = max period 1;
    previous = decimal 0 0;
    seen = false;
    positive = Ring.new (max period 1);
    negative = Ring.new (max period 1);
    out = decimal 0 0 ∷ [];
  }

  unfoldable pub level : F → F → F
  level positive negative =
      if eq negative (decimal 0 0)
      then decimal 100 0
      else bounded_percent
          (sub (decimal 100 0) (div (decimal 100 0) (add (decimal 1 0) (div positive negative))))

  -- `MFI.Update` from the second bar on.
  unfoldable pub advance : Mfi F → F → F → Mfi F
  unfolding level
  advance s typical flow =
      let rises = lt s.previous typical in
      let falls = not rises && lt typical s.previous in
      let positive : Ring F = Ring.push s.positive (if rises then flow else decimal 0 0) in
      let negative : Ring F = Ring.push s.negative (if falls then flow else decimal 0 0) in
      record s {
        previous = typical;
        positive = positive;
        negative = negative;
        out =
            if Ring.full positive
            then level (Ring.sum positive) (Ring.sum negative) ∷ []
            else s.out;
      }

  unfoldable pub update : Mfi F → Candle F → Mfi F
  unfolding advance
  update s c =
      let typical = div (add (add c.high c.low) c.close) (decimal 3 0) in
      if s.seen
      then advance s typical (mul typical c.volume)
      else record s { previous = typical; seen = true }

  unfoldable pub reset : Mfi F → Mfi F
  reset s = record s {
    previous = decimal 0 0;
    seen = false;
    positive = Ring.reset s.positive;
    negative = Ring.reset s.negative;
    out = decimal 0 0 ∷ [];
  }

  unfoldable pub methods : Indicator (Mfi F) F
  unfolding update reset
  methods = record {
    update = update;
    values = values;
    ready = ready;
    warmup = warmup;
    reset = reset;
  }
