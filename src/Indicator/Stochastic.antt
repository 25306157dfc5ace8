-- ===== src/Indicator/Stochastic.antt =====
-- internal/indicator/stoch.go: the stochastic oscillator.
use Prim.Native.Nat.{max}
use alvo_backtester.Base.{ℕ, ◌+◌, ◌-◌, Bool, true, false, ◌&&◌, List, [], ◌∷◌, if◌then◌else◌, Float}
use alvo_backtester.Indicator.{Candle, Indicator}
use alvo_backtester.Indicator.Extreme
use alvo_backtester.Indicator.Extreme.{Extreme}
use alvo_backtester.Indicator.Ring
use alvo_backtester.Indicator.Ring.{Ring}

pub record Stochastic (F : Type 0) : Type 0 where
  pub k : ℕ
  pub smooth : ℕ
  pub d : ℕ
  pub high : Extreme F
  pub low : Extreme F
  pub fast : Ring F
  pub slow : Ring F
  pub out : List F

module _ {F : Type 0} where
  unfoldable pub values : Stochastic F → List F
  values s = s.out

  unfoldable pub ready : Stochastic F → Bool
  ready s = Ring.full s.slow

  unfoldable pub warmup : Stochastic F → ℕ
  warmup s = s.k + s.smooth + s.d - 3

module _ {F : Type 0} ⦃fl : Float F⦄ where
  open fl use {
    decimal, of_int, to_int, add, sub, mul, div, lt, le, eq, min as min_float, max as max_float,
    abs, neg, sqrt, log, round,
  }

  -- `neutralStochastic`
  abbrev neutral_stochastic : F
  neutral_stochastic = decimal 50 0

  unfoldable pub stochastic_percent : F → F → F → F
  stochastic_percent price top bottom =
      if le top bottom
      then neutral_stochastic
      else div (mul (decimal 100 0) (sub price bottom)) (sub top bottom)

  unfoldable pub bounded_percent : F → F
  bounded_percent value = min_float (max_float value (decimal 0 0)) (decimal 100 0)

  unfoldable pub new : ℕ → ℕ → ℕ → Stochastic F
  new k smooth d = record {
    k = max k 1;
    smooth = max smooth 1;
    d = max d 1;
    high = Extreme.new (max k 1) true;
    low = Extreme.new (max k 1) false;
    fast = Ring.new (max smooth 1);
    slow = Ring.new (max d 1);
    out = decimal 0 0 ∷ decimal 0 0 ∷ [];
  }

  unfoldable pub update : Stochastic F → Candle F → Stochastic F
  unfolding stochastic_percent bounded_percent
  update s c =
      let high : Extreme F = Extreme.push s.high c.high in
      let low : Extreme F = Extreme.push s.low c.low in
      let percent = stochastic_percent c.close (Extreme.value high) (Extreme.value low) in
      let fast : Ring F = if Extreme.full high then Ring.push s.fast percent else s.fast in
      let smoothed = bounded_percent (Ring.mean fast) in
      let slow : Ring F =
        if Extreme.full high && Ring.full fast then Ring.push s.slow smoothed else s.slow in
      record s {
        high = high;
        low = low;
        fast = fast;
        slow = slow;
        out =
            if Extreme.full high && Ring.full fast && Ring.full slow
            then smoothed ∷ bounded_percent (Ring.mean slow) ∷ []
            else s.out;
      }

  unfoldable pub reset : Stochastic F → Stochastic F
  reset s = record s {
    high = Extreme.reset s.high;
    low = Extreme.reset s.low;
    fast = Ring.reset s.fast;
    slow = Ring.reset s.slow;
    out = decimal 0 0 ∷ decimal 0 0 ∷ [];
  }

  unfoldable pub methods : Indicator (Stochastic F) F
  unfolding update reset
  methods = record {
    update = update;
    values = values;
    ready = ready;
    warmup = warmup;
    reset = reset;
  }
