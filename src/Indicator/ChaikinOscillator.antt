-- ===== src/Indicator/ChaikinOscillator.antt =====
-- internal/indicator/chaikinosc.go: two averages of the accumulation.
use alvo_backtester.Base.{ℕ, ◌-◌, ◌*◌, Bool, List, [], ◌∷◌, if◌then◌else◌, Float}
use alvo_backtester.Indicator.{Candle, Indicator}
use alvo_backtester.Indicator.Ema
use alvo_backtester.Indicator.Ema.{Average, ema_prime_factor}
use alvo_backtester.Indicator.AdLine.{Accumulation, gather, empty}

pub record ChaikinOscillator (F : Type 0) : Type 0 where
  pub inner : Accumulation F
  pub fast : Average F
  pub slow : Average F
  pub out : List F

module _ {F : Type 0} where
  unfoldable pub values : ChaikinOscillator F → List F
  values s = s.out

  unfoldable pub ready : ChaikinOscillator F → Bool
  ready s = s.slow.ready

  unfoldable pub warmup : ChaikinOscillator F → ℕ
  warmup s = s.slow.period - 1

  unfoldable pub prime_bars : ChaikinOscillator F → ℕ
  prime_bars s = s.slow.period * ema_prime_factor

module _ {F : Type 0} ⦃fl : Float F⦄ where
  open fl use {
    decimal, of_int, to_int, add, sub, mul, div, lt, le, eq, min as min_float, max as max_float,
    abs, neg, sqrt, log, round,
  }

  unfoldable pub new : ℕ → ℕ → ChaikinOscillator F
  new fast slow = record {
    inner = empty;
    fast = Ema.start fast;
    slow = Ema.start slow;
    out = decimal 0 0 ∷ [];
  }

  unfoldable pub update : ChaikinOscillator F → Candle F → ChaikinOscillator F
  update s c =
      let inner : Accumulation F = gather s.inner c in
      let fast : Average F = Ema.push s.fast inner.total in
      let slow : Average F = Ema.push s.slow inner.total in
      record {
        inner = inner;
        fast = fast;
        slow = slow;
        out = if slow.ready then sub fast.value slow.value ∷ [] else s.out;
      }

  unfoldable pub reset : ChaikinOscillator F → ChaikinOscillator F
  reset s = record {
    inner = empty;
    fast = Ema.clear s.fast;
    slow = Ema.clear s.slow;
    out = decimal 0 0 ∷ [];
  }

  unfoldable pub methods : Indicator (ChaikinOscillator F) F
  unfolding update reset
  methods = record {
    update = update;
    values = values;
    ready = ready;
    warmup = warmup;
    reset = reset;
  }
