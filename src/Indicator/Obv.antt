-- ===== src/Indicator/Obv.antt =====
-- internal/indicator/obv.go: the on-balance volume.
use alvo_backtester.Base.{ℕ, Bool, true, false, List, [], ◌∷◌, if◌then◌else◌, Float}
use alvo_backtester.Indicator.{Candle, Indicator}

pub record Obv (F : Type 0) : Type 0 where
  pub previous : F
  pub seen : Bool
  pub ready : Bool
  pub total : F
  pub out : List F

module _ {F : Type 0} where
  unfoldable pub values : Obv F → List F
  values s = s.out

  unfoldable pub is_ready : Obv F → Bool
  is_ready s = s.ready

  unfoldable pub warmup : Obv F → ℕ
  warmup s = 1

module _ {F : Type 0} ⦃fl : Float F⦄ where
  open fl use {
    decimal, of_int, to_int, add, sub, mul, div, lt, le, eq, min as min_float, max as max_float,
    abs, neg, sqrt, log, round,
  }

  unfoldable pub new : Obv F
  new = record {
    previous = decimal 0 0;
    seen = false;
    ready = false;
    total = decimal 0 0;
    out = decimal 0 0 ∷ [];
  }

  unfoldable pub signed : Obv F → Candle F → F
  signed s c =
      if lt s.previous c.close
      then add s.total c.volume
      else if lt c.close s.previous
      then sub s.total c.volume
      else s.total

  unfoldable pub update : Obv F → Candle F → Obv F
  unfolding signed
  update s c = record s {
    previous = c.close;
    seen = true;
    ready = if s.seen then true else s.ready;
    total = if s.seen then signed s c else s.total;
    out = if s.seen then signed s c ∷ [] else s.out;
  }

  unfoldable pub anchor : Obv F → Obv F
  anchor s = record s { total = decimal 0 0 }

  unfoldable pub reset : Obv F → Obv F
  unfolding new
  reset s = new

  unfoldable pub methods : Indicator (Obv F) F
  unfolding update reset
  methods = record {
    update = update;
    values = values;
    ready = is_ready;
    warmup = warmup;
    reset = reset;
  }
