-- ===== src/Indicator/PivotPoints.antt =====
-- internal/indicator/pivots.go: the pivot levels, classic and Fibonacci.
use Prim.Native.Nat.{max}
use alvo_backtester.Base.{ℕ, ◌-◌, Bool, true, false, List, [], ◌∷◌, if◌then◌else◌, Float}
use alvo_backtester.Indicator.{Candle, Indicator}
use alvo_backtester.Indicator.Extreme
use alvo_backtester.Indicator.Extreme.{Extreme}
use alvo_backtester.Indicator.Ring
use alvo_backtester.Indicator.Ring.{Ring}

pub record PivotPoints (F : Type 0) : Type 0 where
  pub period : ℕ
  pub fib : Bool
  pub high : Extreme F
  pub low : Extreme F
  pub closes : Ring F
  pub filled : Bool
  pub out : List F

module _ {F : Type 0} where
  unfoldable pub values : PivotPoints F → List F
  values s = s.out

  unfoldable pub ready : PivotPoints F → Bool
  ready s = s.filled

  unfoldable pub warmup : PivotPoints F → ℕ
  warmup s = s.period

module _ {F : Type 0} ⦃fl : Float F⦄ where
  open fl use {
    decimal, of_int, to_int, add, sub, mul, div, lt, le, eq, min as min_float, max as max_float,
    abs, neg, sqrt, log, round,
  }

  -- An array of seven zeros.
  abbrev zeros : List F
  zeros =
      decimal 0 0
      ∷ decimal 0 0
      ∷ decimal 0 0
      ∷ decimal 0 0
      ∷ decimal 0 0
      ∷ decimal 0 0
      ∷ decimal 0 0
      ∷ []

  unfoldable pub new : ℕ → Bool → PivotPoints F
  new period fib = record {
    period = max period 1;
    fib = fib;
    high = Extreme.new (max period 1) true;
    low = Extreme.new (max period 1) false;
    closes = Ring.new (max period 1);
    filled = false;
    out = zeros;
  }

  -- `fibFirst`, `fibSecond` and `fibThird`
  abbrev fib_first : F
  fib_first = decimal 382 3

  abbrev fib_second : F
  fib_second = decimal 618 3

  abbrev fib_third : F
  fib_third = decimal 1 0

  -- `PivotPoints.compute`
  unfoldable pub compute : Bool → F → F → F → List F
  compute fib high low last =
      let pivot = div (add (add high low) last) (decimal 3 0) in
      let span = sub high low in
      if fib
      then pivot
        ∷ add pivot (mul fib_first span)
        ∷ add pivot (mul fib_second span)
        ∷ add pivot (mul fib_third span)
        ∷ sub pivot (mul fib_first span)
        ∷ sub pivot (mul fib_second span)
        ∷ sub pivot (mul fib_third span)
        ∷ []
      else pivot
        ∷ sub (mul (decimal 2 0) pivot) low
        ∷ add pivot span
        ∷ add high (mul (decimal 2 0) (sub pivot low))
        ∷ sub (mul (decimal 2 0) pivot) high
        ∷ sub pivot span
        ∷ sub low (mul (decimal 2 0) (sub high pivot))
        ∷ []

  unfoldable pub update : PivotPoints F → Candle F → PivotPoints F
  unfolding compute
  update s c =
      let full = Extreme.full s.high in
      record s {
        high = Extreme.push s.high c.high;
        low = Extreme.push s.low c.low;
        closes = Ring.push s.closes c.close;
        filled = if full then true else s.filled;
        out =
            if full
            then compute s.fib (Extreme.value s.high) (Extreme.value s.low)
                (Ring.at s.closes (s.period - 1))
            else s.out;
      }

  unfoldable pub reset : PivotPoints F → PivotPoints F
  reset s = record s {
    high = Extreme.reset s.high;
    low = Extreme.reset s.low;
    closes = Ring.reset s.closes;
    filled = false;
    out = zeros;
  }

  unfoldable pub methods : Indicator (PivotPoints F) F
  unfolding update reset
  methods = record {
    update = update;
    values = values;
    ready = ready;
    warmup = warmup;
    reset = reset;
  }
