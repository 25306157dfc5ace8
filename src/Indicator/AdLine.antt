-- ===== src/Indicator/AdLine.antt =====
-- internal/indicator/adline.go: the accumulation and distribution line.
use alvo_backtester.Base.{ℕ, Bool, true, false, List, [], ◌∷◌, if◌then◌else◌, Float}
use alvo_backtester.Indicator.{Candle, Indicator}

-- `type accumulation`
pub record Accumulation (F : Type 0) : Type 0 where
  pub total : F

pub record AdLine (F : Type 0) : Type 0 where
  pub inner : Accumulation F
  pub filled : Bool
  pub out : List F

module _ {F : Type 0} where
  unfoldable pub values : AdLine F → List F
  values s = s.out

  unfoldable pub ready : AdLine F → Bool
  ready s = s.filled

  unfoldable pub warmup : AdLine F → ℕ
  warmup s = 0

module _ {F : Type 0} ⦃fl : Float F⦄ where
  open fl use {
    decimal, of_int, to_int, add, sub, mul, div, lt, le, eq, min as min_float, max as max_float,
    abs, neg, sqrt, log, round,
  }

  -- `accumulation.push`
  unfoldable pub gather : Accumulation F → Candle F → Accumulation F
  gather a c =
      let balance = sub (sub c.close c.low) (sub c.high c.close) in
      record {
        total =
            if lt c.low c.high
            then add a.total (mul (div balance (sub c.high c.low)) c.volume)
            else a.total;
      }

  -- `accumulation.reset`
  unfoldable pub empty : Accumulation F
  empty = record { total = decimal 0 0 }

  unfoldable pub new : AdLine F
  new = record { inner = empty; filled = false; out = decimal 0 0 ∷ [] }

  unfoldable pub update : AdLine F → Candle F → AdLine F
  unfolding gather
  update s c =
      let inner : Accumulation F = gather s.inner c in
      record { inner = inner; filled = true; out = inner.total ∷ [] }

  unfoldable pub anchor : AdLine F → AdLine F
  unfolding empty
  anchor s = record s { inner = empty }

  unfoldable pub reset : AdLine F → AdLine F
  unfolding new
  reset s = new

  unfoldable pub methods : Indicator (AdLine F) F
  unfolding update reset
  methods = record {
    update = update;
    values = values;
    ready = ready;
    warmup = warmup;
    reset = reset;
  }
