-- ===== src/Indicator/Dema.antt =====
-- internal/indicator/dema.go: the double exponential average.
use Prim.Native.Nat.{max}
use alvo_backtester.Base.{ℕ, ◌-◌, ◌*◌, Bool, ◌&&◌, List, [], ◌∷◌, if◌then◌else◌, Float}
use alvo_backtester.Indicator.{Candle, Source, value as price_of, Indicator}
use alvo_backtester.Indicator.Ema
use alvo_backtester.Indicator.Ema.{Average, ema_prime_factor}

pub record Dema (F : Type 0) : Type 0 where
  pub period : ℕ
  pub source : Source
  pub first : Average F
  pub second : Average F
  pub out : List F

module _ {F : Type 0} where
  unfoldable pub values : Dema F → List F
  values s = s.out

  unfoldable pub ready : Dema F → Bool
  ready s = s.second.ready

  unfoldable pub warmup : Dema F → ℕ
  warmup s = 2 * (s.period - 1)

  unfoldable pub prime_bars : Dema F → ℕ
  prime_bars s = 2 * s.period * ema_prime_factor

module _ {F : Type 0} ⦃fl : Float F⦄ where
  open fl use {
    decimal, of_int, to_int, add, sub, mul, div, lt, le, eq, min as min_float, max as max_float,
    abs, neg, sqrt, log, round,
  }

  unfoldable pub new : ℕ → Source → Dema F
  new period source = record {
    period = max period 1;
    source = source;
    first = Ema.start (max period 1);
    second = Ema.start (max period 1);
    out = decimal 0 0 ∷ [];
  }

  unfoldable pub update : Dema F → Candle F → Dema F
  update s c =
      let first : Average F = Ema.push s.first (price_of s.source c) in
      let second : Average F = if first.ready then Ema.push s.second first.value else s.second in
      record s {
        first = first;
        second = second;
        out =
            if first.ready && second.ready
            then sub (mul (decimal 2 0) first.value) second.value ∷ []
            else s.out;
      }

  unfoldable pub reset : Dema F → Dema F
  reset s = record s {
    first = Ema.clear s.first;
    second = Ema.clear s.second;
    out = decimal 0 0 ∷ [];
  }

  unfoldable pub methods : Indicator (Dema F) F
  unfolding update reset
  methods = record {
    update = update;
    values = values;
    ready = ready;
    warmup = warmup;
    reset = reset;
  }
