-- ===== src/Indicator/Ichimoku.antt =====
-- internal/indicator/ichimoku.go: the Ichimoku cloud.
use Prim.Native.Nat.{max}
use alvo_backtester.Base.{ℕ, ◌-◌, Bool, true, false, ◌&&◌, List, [], ◌∷◌, if◌then◌else◌, Float}
use alvo_backtester.Indicator.{Candle, Indicator}
use alvo_backtester.Indicator.Extreme
use alvo_backtester.Indicator.Extreme.{Extreme}

pub record Ichimoku (F : Type 0) : Type 0 where
  pub tenkan : ℕ
  pub kijun : ℕ
  pub senkou : ℕ
  pub tenkan_high : Extreme F
  pub tenkan_low : Extreme F
  pub kijun_high : Extreme F
  pub kijun_low : Extreme F
  pub senkou_high : Extreme F
  pub senkou_low : Extreme F
  pub out : List F

module _ {F : Type 0} where
  unfoldable pub values : Ichimoku F → List F
  values s = s.out

  unfoldable pub ready : Ichimoku F → Bool
  ready s = Extreme.full s.tenkan_high && Extreme.full s.kijun_high && Extreme.full s.senkou_high

  unfoldable pub warmup : Ichimoku F → ℕ
  warmup s = max (max s.tenkan s.kijun) s.senkou - 1

module _ {F : Type 0} ⦃fl : Float F⦄ where
  open fl use {
    decimal, of_int, to_int, add, sub, mul, div, lt, le, eq, min as min_float, max as max_float,
    abs, neg, sqrt, log, round,
  }

  -- An array of five zeros.
  abbrev zeros : List F
  zeros = decimal 0 0 ∷ decimal 0 0 ∷ decimal 0 0 ∷ decimal 0 0 ∷ decimal 0 0 ∷ []

  unfoldable pub new : ℕ → ℕ → ℕ → Ichimoku F
  new tenkan kijun senkou = record {
    tenkan = max tenkan 1;
    kijun = max kijun 1;
    senkou = max senkou 1;
    tenkan_high = Extreme.new (max tenkan 1) true;
    tenkan_low = Extreme.new (max tenkan 1) false;
    kijun_high = Extreme.new (max kijun 1) true;
    kijun_low = Extreme.new (max kijun 1) false;
    senkou_high = Extreme.new (max senkou 1) true;
    senkou_low = Extreme.new (max senkou 1) false;
    out = zeros;
  }

  unfoldable pub midpoint : Extreme F → Extreme F → F
  midpoint high low = div (add (Extreme.value high) (Extreme.value low)) (decimal 2 0)

  unfoldable pub level : Ichimoku F → F → List F
  unfolding midpoint
  level s close =
      let tenkan = midpoint s.tenkan_high s.tenkan_low in
      let kijun = midpoint s.kijun_high s.kijun_low in
      tenkan
      ∷ kijun
      ∷ div (add tenkan kijun) (decimal 2 0)
      ∷ midpoint s.senkou_high s.senkou_low
      ∷ close
      ∷ []

  unfoldable pub update : Ichimoku F → Candle F → Ichimoku F
  unfolding level ready
  update s c =
      let pushed : Ichimoku F = record s {
        tenkan_high = Extreme.push s.tenkan_high c.high;
        tenkan_low = Extreme.push s.tenkan_low c.low;
        kijun_high = Extreme.push s.kijun_high c.high;
        kijun_low = Extreme.push s.kijun_low c.low;
        senkou_high = Extreme.push s.senkou_high c.high;
        senkou_low = Extreme.push s.senkou_low c.low;
      } in
      record pushed { out = if ready pushed then level pushed c.close else s.out }

  unfoldable pub reset : Ichimoku F → Ichimoku F
  reset s = record s {
    tenkan_high = Extreme.reset s.tenkan_high;
    tenkan_low = Extreme.reset s.tenkan_low;
    kijun_high = Extreme.reset s.kijun_high;
    kijun_low = Extreme.reset s.kijun_low;
    senkou_high = Extreme.reset s.senkou_high;
    senkou_low = Extreme.reset s.senkou_low;
    out = zeros;
  }

  unfoldable pub methods : Indicator (Ichimoku F) F
  unfolding update reset
  methods = record {
    update = update;
    values = values;
    ready = ready;
    warmup = warmup;
    reset = reset;
  }
