-- ===== src/Indicator/Adx.antt =====
-- internal/indicator/adx.go: the directional movement.
use Prim.Native.Nat.{max}
use alvo_backtester.Base.{ℕ, ◌-◌, ◌*◌, Bool, true, false, ◌&&◌, List, [], ◌∷◌, if◌then◌else◌, Float}
use alvo_backtester.Indicator.{Candle, Indicator, blank}
use alvo_backtester.Indicator.Wilder
use alvo_backtester.Indicator.Wilder.{Wilder, wilder_prime_factor}

pub record Adx (F : Type 0) : Type 0 where
  pub period : ℕ
  pub previous : Candle F
  pub seen : Bool
  pub span : Wilder F
  pub plus : Wilder F
  pub minus : Wilder F
  pub index : Wilder F
  pub out : List F

module _ {F : Type 0} where
  unfoldable pub values : Adx F → List F
  values s = s.out

  unfoldable pub ready : Adx F → Bool
  ready s = s.index.ready

  unfoldable pub warmup : Adx F → ℕ
  warmup s = 2 * s.period - 1

  unfoldable pub prime_bars : Adx F → ℕ
  prime_bars s = 2 * s.period * wilder_prime_factor

module _ {F : Type 0} ⦃fl : Float F⦄ where
  open fl use {
    decimal, of_int, to_int, add, sub, mul, div, lt, le, eq, min as min_float, max as max_float,
    abs, neg, sqrt, log, round,
  }

  unfoldable pub new : ℕ → Adx F
  new period = record {
    period = max period 1;
    previous = blank;
    seen = false;
    span = Wilder.new (max period 1);
    plus = Wilder.new (max period 1);
    minus = Wilder.new (max period 1);
    index = Wilder.new (max period 1);
    out = decimal 0 0 ∷ decimal 0 0 ∷ decimal 0 0 ∷ [];
  }

  -- A movement counts when it is the larger one and above zero.
  unfoldable pub movement : F → F → F
  movement one other = if lt other one && lt (decimal 0 0) one then one else decimal 0 0

  unfoldable pub directed : F → F → F
  directed value span =
      if lt (decimal 0 0) span then div (mul (decimal 100 0) value) span else decimal 0 0

  unfoldable pub strength : F → F → F
  strength plus minus =
      if lt (decimal 0 0) (add plus minus)
      then div (mul (decimal 100 0) (abs (sub plus minus))) (add plus minus)
      else decimal 0 0

  -- `ADX.Update` from the second bar on.
  unfoldable pub advance : Adx F → Candle F → Adx F
  unfolding movement directed strength
  advance s c =
      let up = sub c.high s.previous.high in
      let down = sub s.previous.low c.low in
      let range =
        max_float (sub c.high c.low)
          (max_float (abs (sub c.high s.previous.close)) (abs (sub c.low s.previous.close))) in
      let span : Wilder F = Wilder.push s.span range in
      let plus : Wilder F = Wilder.push s.plus (movement up down) in
      let minus : Wilder F = Wilder.push s.minus (movement down up) in
      let plus_di = directed plus.value span.value in
      let minus_di = directed minus.value span.value in
      let index : Wilder F =
        if span.ready then Wilder.push s.index (strength plus_di minus_di) else s.index in
      record s {
        previous = c;
        span = span;
        plus = plus;
        minus = minus;
        index = index;
        out = if span.ready && index.ready then index.value ∷ plus_di ∷ minus_di ∷ [] else s.out;
      }

  unfoldable pub update : Adx F → Candle F → Adx F
  unfolding advance
  update s c = if s.seen then advance s c else record s { previous = c; seen = true }

  unfoldable pub reset : Adx F → Adx F
  reset s = record s {
    previous = blank;
    seen = false;
    span = Wilder.reset s.span;
    plus = Wilder.reset s.plus;
    minus = Wilder.reset s.minus;
    index = Wilder.reset s.index;
    out = decimal 0 0 ∷ decimal 0 0 ∷ decimal 0 0 ∷ [];
  }

  unfoldable pub methods : Indicator (Adx F) F
  unfolding update reset
  methods = record {
    update = update;
    values = values;
    ready = ready;
    warmup = warmup;
    reset = reset;
  }
