-- ===== src/Indicator/Rsi.antt =====
-- internal/indicator/rsi.go: the relative strength.
use Prim.Native.Nat.{max}
use alvo_backtester.Base.{ℕ, ◌*◌, Bool, true, false, List, [], ◌∷◌, if◌then◌else◌, Float}
use alvo_backtester.Indicator.{Candle, Source, value as price_of, Indicator}
use alvo_backtester.Indicator.Wilder
use alvo_backtester.Indicator.Wilder.{Wilder, wilder_prime_factor}

-- `previous` is the field `prev`.
pub record Rsi (F : Type 0) : Type 0 where
  pub period : ℕ
  pub source : Source
  pub gains : Wilder F
  pub losses : Wilder F
  pub previous : F
  pub seen : Bool
  pub out : List F

module _ {F : Type 0} where
  unfoldable pub values : Rsi F → List F
  values s = s.out

  unfoldable pub ready : Rsi F → Bool
  ready s = s.gains.ready

  unfoldable pub warmup : Rsi F → ℕ
  warmup s = s.period

  unfoldable pub prime_bars : Rsi F → ℕ
  prime_bars s = s.period * wilder_prime_factor

module _ {F : Type 0} ⦃fl : Float F⦄ where
  open fl use {
    decimal, of_int, to_int, add, sub, mul, div, lt, le, eq, min as min_float, max as max_float,
    abs, neg, sqrt, log, round,
  }

  unfoldable pub new : ℕ → Source → Rsi F
  new period source = record {
    period = max period 1;
    source = source;
    gains = Wilder.new (max period 1);
    losses = Wilder.new (max period 1);
    previous = decimal 0 0;
    seen = false;
    out = decimal 0 0 ∷ [];
  }

  unfoldable pub strength : F → F → F
  strength gain loss =
      if eq loss (decimal 0 0)
      then decimal 100 0
      else sub (decimal 100 0) (div (decimal 100 0) (add (decimal 1 0) (div gain loss)))

  -- `RSI.Update` from the second bar on.
  unfoldable pub advance : Rsi F → F → Rsi F
  unfolding strength
  advance s price =
      let change = sub price s.previous in
      let up = lt (decimal 0 0) change in
      let gains : Wilder F = Wilder.push s.gains (if up then change else decimal 0 0) in
      let losses : Wilder F = Wilder.push s.losses (if up then decimal 0 0 else neg change) in
      record s {
        previous = price;
        gains = gains;
        losses = losses;
        out = if gains.ready then strength gains.value losses.value ∷ [] else s.out;
      }

  unfoldable pub update : Rsi F → Candle F → Rsi F
  unfolding advance
  update s c =
      let price = price_of s.source c in
      if s.seen then advance s price else record s { previous = price; seen = true }

  unfoldable pub reset : Rsi F → Rsi F
  reset s = record s {
    gains = Wilder.reset s.gains;
    losses = Wilder.reset s.losses;
    previous = decimal 0 0;
    seen = false;
    out = decimal 0 0 ∷ [];
  }

  unfoldable pub methods : Indicator (Rsi F) F
  unfolding update reset
  methods = record {
    update = update;
    values = values;
    ready = ready;
    warmup = warmup;
    reset = reset;
  }
