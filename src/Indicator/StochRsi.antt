-- ===== src/Indicator/StochRsi.antt =====
-- internal/indicator/stochrsi.go: the stochastic oscillator of the relative strength.
use Prim.Native.Nat.{max}
use alvo_backtester.Base.{
  ℕ, ◌+◌, ◌-◌, Bool, true, false, ◌&&◌, List, [], ◌∷◌, get_or, if◌then◌else◌, Float,
}
use alvo_backtester.Indicator.{Candle, Source, Indicator}
use alvo_backtester.Indicator.Extreme
use alvo_backtester.Indicator.Extreme.{Extreme}
use alvo_backtester.Indicator.Ring
use alvo_backtester.Indicator.Ring.{Ring}
use alvo_backtester.Indicator.Rsi
use alvo_backtester.Indicator.Rsi.{Rsi}
use alvo_backtester.Indicator.Stochastic.{stochastic_percent, bounded_percent}

pub record StochRsi (F : Type 0) : Type 0 where
  pub stoch : ℕ
  pub k : ℕ
  pub d : ℕ
  pub rsi : Rsi F
  pub high : Extreme F
  pub low : Extreme F
  pub fast : Ring F
  pub slow : Ring F
  pub out : List F

module _ {F : Type 0} where
  unfoldable pub values : StochRsi F → List F
  values s = s.out

  unfoldable pub ready : StochRsi F → Bool
  ready s = Ring.full s.slow

  unfoldable pub warmup : StochRsi F → ℕ
  warmup s = Rsi.warmup s.rsi + s.stoch + s.k + s.d - 3

  unfoldable pub prime_bars : StochRsi F → ℕ
  prime_bars s = Rsi.prime_bars s.rsi + s.stoch + s.k + s.d

module _ {F : Type 0} ⦃fl : Float F⦄ where
  open fl use {
    decimal, of_int, to_int, add, sub, mul, div, lt, le, eq, min as min_float, max as max_float,
    abs, neg, sqrt, log, round,
  }

  unfoldable pub new : ℕ → ℕ → ℕ → ℕ → Source → StochRsi F
  new period stoch k d source = record {
    stoch = max stoch 1;
    k = max k 1;
    d = max d 1;
    rsi = Rsi.new period source;
    high = Extreme.new (max stoch 1) true;
    low = Extreme.new (max stoch 1) false;
    fast = Ring.new (max k 1);
    slow = Ring.new (max d 1);
    out = decimal 0 0 ∷ decimal 0 0 ∷ [];
  }

  unfoldable pub update : StochRsi F → Candle F → StochRsi F
  update s c =
      let rsi : Rsi F = Rsi.update s.rsi c in
      let strength = get_or (Rsi.values rsi) 0 (decimal 0 0) in
      let high : Extreme F = if Rsi.ready rsi then Extreme.push s.high strength else s.high in
      let low : Extreme F = if Rsi.ready rsi then Extreme.push s.low strength else s.low in
      let percent = stochastic_percent strength (Extreme.value high) (Extreme.value low) in
      let fast : Ring F =
        if Rsi.ready rsi && Extreme.full high then Ring.push s.fast percent else s.fast in
      let smoothed = bounded_percent (Ring.mean fast) in
      let slow : Ring F =
        if Rsi.ready rsi && Extreme.full high && Ring.full fast
        then Ring.push s.slow smoothed
        else s.slow in
      record s {
        rsi = rsi;
        high = high;
        low = low;
        fast = fast;
        slow = slow;
        out =
            if Rsi.ready rsi && Extreme.full high && Ring.full fast && Ring.full slow
            then smoothed ∷ bounded_percent (Ring.mean slow) ∷ []
            else s.out;
      }

  unfoldable pub reset : StochRsi F → StochRsi F
  reset s = record s {
    rsi = Rsi.reset s.rsi;
    high = Extreme.reset s.high;
    low = Extreme.reset s.low;
    fast = Ring.reset s.fast;
    slow = Ring.reset s.slow;
    out = decimal 0 0 ∷ decimal 0 0 ∷ [];
  }

  unfoldable pub methods : Indicator (StochRsi F) F
  unfolding update reset
  methods = record {
    update = update;
    values = values;
    ready = ready;
    warmup = warmup;
    reset = reset;
  }
