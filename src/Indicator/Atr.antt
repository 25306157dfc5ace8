-- ===== src/Indicator/Atr.antt =====
-- internal/indicator/atr.go: the true range, its average, and the indicator on it.
use Prim.Native.Nat.{max}
use alvo_backtester.Base.{
  ℕ, ◌*◌, Bool, true, false, Option, none, some, List, [], ◌∷◌, if◌then◌else◌, Float,
}
use alvo_backtester.Indicator.{Indicator, Candle}
use alvo_backtester.Indicator.Wilder
use alvo_backtester.Indicator.Wilder.{Wilder, wilder_prime_factor}

pub record TrueRange (F : Type 0) : Type 0 where
  pub close : F
  pub seen : Bool

-- `type atr`
pub record Range (F : Type 0) : Type 0 where
  pub period : ℕ
  pub span : TrueRange F
  pub smooth : Wilder F

module _ {F : Type 0} ⦃fl : Float F⦄ where
  open fl use {decimal, sub, abs, max as max_float}

  -- The widest of the bar's span and its two distances to the last close.
  unfoldable pub true_range : Candle F → F → F
  true_range c close =
      max_float (sub c.high c.low) (max_float (abs (sub c.high close)) (abs (sub c.low close)))

  -- `trueRange.push`
  unfoldable pub push_range : TrueRange F → Candle F → TrueRange F × Option F
  unfolding true_range
  push_range t c = (
    record { close = c.close; seen = true },
    if t.seen then some (true_range c t.close) else none,
  )

  unfoldable pub start : ℕ → Range F
  start period = record {
    period = max period 1;
    span = record { close = decimal 0 0; seen = false };
    smooth = Wilder.new (max period 1);
  }

  -- `atr.push`
  unfoldable pub smoothed : Wilder F → Option F → Wilder F
  smoothed w none = w
  smoothed w (some x) = Wilder.push w x

  unfoldable pub push : Range F → Candle F → Range F
  unfolding push_range smoothed
  push a c =
      let (span, x) = push_range a.span c in record a { span = span; smooth = smoothed a.smooth x }

  -- `atr.reset`
  unfoldable pub clear : Range F → Range F
  clear a = record a {
    span = record { close = decimal 0 0; seen = false };
    smooth = Wilder.reset a.smooth;
  }

pub record Atr (F : Type 0) : Type 0 where
  pub inner : Range F
  pub out : List F

module _ {F : Type 0} where
  unfoldable pub values : Atr F → List F
  values e = e.out

  -- `atr.ready` and `atr.value`
  unfoldable pub settled : Range F → Bool
  settled a = a.smooth.ready

  unfoldable pub level : Range F → F
  level a = a.smooth.value

  unfoldable pub ready : Atr F → Bool
  unfolding settled
  ready a = settled a.inner

  unfoldable pub warmup : Atr F → ℕ
  warmup a = a.inner.period

  unfoldable pub prime_bars : Atr F → ℕ
  prime_bars a = a.inner.period * wilder_prime_factor

module _ {F : Type 0} ⦃fl : Float F⦄ where
  open fl use {decimal}

  unfoldable pub new : ℕ → Atr F
  unfolding start
  new period = record { inner = start period; out = decimal 0 0 ∷ [] }

  unfoldable pub update : Atr F → Candle F → Atr F
  unfolding push level
  update a c =
      let inner : Range F = push a.inner c in record a { inner = inner; out = level inner ∷ [] }

  unfoldable pub reset : Atr F → Atr F
  unfolding clear
  reset a = record a { inner = clear a.inner; out = decimal 0 0 ∷ [] }

  unfoldable pub methods : Indicator (Atr F) F
  unfolding update reset
  methods = record {
    update = update;
    values = values;
    ready = ready;
    warmup = warmup;
    reset = reset;
  }
