-- ===== src/Indicator/Macd.antt =====
-- internal/indicator/macd.go: the convergence of two exponential averages.
use alvo_backtester.Base.{ℕ, ◌+◌, ◌-◌, ◌*◌, Bool, ◌&&◌, List, [], ◌∷◌, if◌then◌else◌, Float}
use alvo_backtester.Indicator.{Candle, Source, value as price_of, Indicator}
use alvo_backtester.Indicator.Ema
use alvo_backtester.Indicator.Ema.{Average, ema_prime_factor}

pub record Macd (F : Type 0) : Type 0 where
  pub source : Source
  pub fast : Average F
  pub slow : Average F
  pub signal : Average F
  pub out : List F

module _ {F : Type 0} where
  unfoldable pub values : Macd F → List F
  values s = s.out

  unfoldable pub ready : Macd F → Bool
  ready s = s.signal.ready

  unfoldable pub warmup : Macd F → ℕ
  warmup s = s.slow.period - 1 + s.signal.period - 1

  unfoldable pub prime_bars : Macd F → ℕ
  prime_bars s = (s.slow.period + s.signal.period) * ema_prime_factor

module _ {F : Type 0} ⦃fl : Float F⦄ where
  open fl use {
    decimal, of_int, to_int, add, sub, mul, div, lt, le, eq, min as min_float, max as max_float,
    abs, neg, sqrt, log, round,
  }

  unfoldable pub new : ℕ → ℕ → ℕ → Source → Macd F
  new fast slow signal source = record {
    source = source;
    fast = Ema.start fast;
    slow = Ema.start slow;
    signal = Ema.start signal;
    out = decimal 0 0 ∷ decimal 0 0 ∷ decimal 0 0 ∷ [];
  }

  unfoldable pub update : Macd F → Candle F → Macd F
  update s c =
      let price = price_of s.source c in
      let fast : Average F = Ema.push s.fast price in
      let slow : Average F = Ema.push s.slow price in
      let line = sub fast.value slow.value in
      let signal : Average F = if slow.ready then Ema.push s.signal line else s.signal in
      record s {
        fast = fast;
        slow = slow;
        signal = signal;
        out =
            if slow.ready && signal.ready
            then line ∷ signal.value ∷ sub line signal.value ∷ []
            else s.out;
      }

  unfoldable pub reset : Macd F → Macd F
  reset s = record s {
    fast = Ema.clear s.fast;
    slow = Ema.clear s.slow;
    signal = Ema.clear s.signal;
    out = decimal 0 0 ∷ decimal 0 0 ∷ decimal 0 0 ∷ [];
  }

  unfoldable pub methods : Indicator (Macd F) F
  unfolding update reset
  methods = record {
    update = update;
    values = values;
    ready = ready;
    warmup = warmup;
    reset = reset;
  }
