-- ===== src/Indicator/Hma.antt =====
-- internal/indicator/hma.go: the Hull moving average.
use Prim.Native.Nat.{max}
use alvo_backtester.Base.{ℕ, ◌+◌, ◌-◌, ◌/◌, Bool, List, [], ◌∷◌, if◌then◌else◌, Float}
use alvo_backtester.Indicator.{Candle, Source, value as price_of, Indicator}
use alvo_backtester.Indicator.Wma
use alvo_backtester.Indicator.Wma.{Weighted}

pub record Hma (F : Type 0) : Type 0 where
  pub period : ℕ
  pub root : ℕ
  pub source : Source
  pub half : Weighted F
  pub full : Weighted F
  pub hull : Weighted F
  pub out : List F

module _ {F : Type 0} where
  unfoldable pub values : Hma F → List F
  values s = s.out

  unfoldable pub ready : Hma F → Bool
  ready s = s.hull.ready

  unfoldable pub warmup : Hma F → ℕ
  warmup s = s.period + s.root - 2

module _ (F : Type 0) ⦃fl : Float F⦄ where
  open fl use {of_int, to_int, sqrt, round}

  -- `root` of `NewHMA`
  unfoldable pub root_of : ℕ → ℕ
  root_of period = max (to_int (round (sqrt (of_int period)))) 1

module _ {F : Type 0} ⦃fl : Float F⦄ where
  open fl use {
    decimal, of_int, to_int, add, sub, mul, div, lt, le, eq, min as min_float, max as max_float,
    abs, neg, sqrt, log, round,
  }

  unfoldable pub new : ℕ → Source → Hma F
  new period source =
      let root = root_of F (max period 1) in
      record {
        period = max period 1;
        root = root;
        source = source;
        half = Wma.start (max (max period 1 / 2) 1);
        full = Wma.start (max period 1);
        hull = Wma.start root;
        out = decimal 0 0 ∷ [];
      }

  unfoldable pub update : Hma F → Candle F → Hma F
  update s c =
      let price = price_of s.source c in
      let half : Weighted F = Wma.push s.half price in
      let full : Weighted F = Wma.push s.full price in
      let hull : Weighted F =
        if full.ready
        then Wma.push s.hull (sub (mul (decimal 2 0) half.value) full.value)
        else s.hull in
      record s {
        half = half;
        full = full;
        hull = hull;
        out = if full.ready then hull.value ∷ [] else s.out;
      }

  unfoldable pub reset : Hma F → Hma F
  reset s = record s {
    half = Wma.clear s.half;
    full = Wma.clear s.full;
    hull = Wma.clear s.hull;
    out = decimal 0 0 ∷ [];
  }

  unfoldable pub methods : Indicator (Hma F) F
  unfolding update reset
  methods = record {
    update = update;
    values = values;
    ready = ready;
    warmup = warmup;
    reset = reset;
  }
