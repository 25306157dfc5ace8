-- ===== src/Indicator/SuperTrend.antt =====
-- internal/indicator/supertrend.go: the trailing bands of the average range.
use Prim.Native.Nat.{max}
use alvo_backtester.Base.{
  ℕ, ◌*◌, Bool, true, false, not, ◌&&◌, ◌||◌, List, [], ◌∷◌, if◌then◌else◌, Float,
}
use alvo_backtester.Indicator.{Candle, Indicator, path_prime_bars}
use alvo_backtester.Indicator.Atr
use alvo_backtester.Indicator.Atr.{Range}
use alvo_backtester.Indicator.Wilder.{wilder_prime_factor}

pub record SuperTrend (F : Type 0) : Type 0 where
  pub mult : F
  pub span : Range F
  pub upper : F
  pub lower : F
  pub close : F
  pub rising : Bool
  pub started : Bool
  pub out : List F

module _ {F : Type 0} where
  unfoldable pub values : SuperTrend F → List F
  values s = s.out

  unfoldable pub ready : SuperTrend F → Bool
  ready s = Atr.settled s.span

  unfoldable pub warmup : SuperTrend F → ℕ
  warmup s = s.span.period

  unfoldable pub prime_bars : SuperTrend F → ℕ
  prime_bars s = max (s.span.period * wilder_prime_factor) path_prime_bars

module _ {F : Type 0} ⦃fl : Float F⦄ where
  open fl use {
    decimal, of_int, to_int, add, sub, mul, div, lt, le, eq, min as min_float, max as max_float,
    abs, neg, sqrt, log, round,
  }

  unfoldable pub new : ℕ → F → SuperTrend F
  new period mult = record {
    mult = mult;
    span = Atr.start period;
    upper = decimal 0 0;
    lower = decimal 0 0;
    close = decimal 0 0;
    rising = false;
    started = false;
    out = decimal 0 0 ∷ decimal 0 0 ∷ [];
  }

  -- The two bands that `SuperTrend.Update` keeps.
  unfoldable pub upper_band : SuperTrend F → F → F
  upper_band s upper =
      if s.started then if lt upper s.upper || lt s.upper s.close then upper else s.upper else upper

  unfoldable pub lower_band : SuperTrend F → F → F
  lower_band s lower =
      if s.started then if lt s.lower lower || lt s.close s.lower then lower else s.lower else lower

  unfoldable pub turned : SuperTrend F → F → F → F → Bool
  turned s close upper lower =
      if s.started
      then if s.rising && lt close lower
        then false
        else if not s.rising && lt upper close
        then true
        else s.rising
      else lt upper close

  -- The rest of `SuperTrend.Update` once the average range is there.
  unfoldable pub advance : SuperTrend F → Range F → Candle F → SuperTrend F
  unfolding upper_band lower_band turned
  advance s span c =
      let middle = div (add c.high c.low) (decimal 2 0) in
      let band = mul s.mult (Atr.level span) in
      let upper = upper_band s (add middle band) in
      let lower = lower_band s (sub middle band) in
      let rising = turned s c.close upper lower in
      record s {
        span = span;
        upper = upper;
        lower = lower;
        close = c.close;
        rising = rising;
        started = true;
        out = if rising then lower ∷ decimal 1 0 ∷ [] else upper ∷ neg (decimal 1 0) ∷ [];
      }

  unfoldable pub update : SuperTrend F → Candle F → SuperTrend F
  unfolding advance
  update s c =
      let span : Range F = Atr.push s.span c in
      if Atr.settled span then advance s span c else record s { span = span }

  unfoldable pub reset : SuperTrend F → SuperTrend F
  reset s = record s {
    span = Atr.clear s.span;
    upper = decimal 0 0;
    lower = decimal 0 0;
    close = decimal 0 0;
    rising = false;
    started = false;
    out = decimal 0 0 ∷ decimal 0 0 ∷ [];
  }

  unfoldable pub methods : Indicator (SuperTrend F) F
  unfolding update reset
  methods = record {
    update = update;
    values = values;
    ready = ready;
    warmup = warmup;
    reset = reset;
  }
