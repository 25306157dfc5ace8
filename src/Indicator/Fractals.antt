-- ===== src/Indicator/Fractals.antt =====
-- internal/indicator/fractals.go: the last peak and trough. They are the two entries of the array `values`.
use Prim.Native.Nat.{max}
use alvo_backtester.Base.{
  ℕ, zero, suc, ◌+◌, ◌-◌, ◌*◌, Bool, true, false, List, [], ◌∷◌, ◌==◌, if◌then◌else◌, Float, Option,
  none, some,
}
use alvo_backtester.Indicator.{Candle, Indicator, path_prime_bars}
use alvo_backtester.Indicator.Ring
use alvo_backtester.Indicator.Ring.{Ring}

pub record Fractals (F : Type 0) : Type 0 where
  pub period : ℕ
  pub span : ℕ
  pub highs : Ring F
  pub lows : Ring F
  pub filled : Bool
  pub peak : F
  pub trough : F

module _ {F : Type 0} where
  unfoldable pub values : Fractals F → List F
  values s = s.peak ∷ s.trough ∷ []

  unfoldable pub ready : Fractals F → Bool
  ready s = s.filled

  unfoldable pub warmup : Fractals F → ℕ
  warmup s = 2 * s.period

  unfoldable pub prime_bars : Fractals F → ℕ
  prime_bars s = path_prime_bars

module _ {F : Type 0} ⦃fl : Float F⦄ where
  open fl use {
    decimal, of_int, to_int, add, sub, mul, div, lt, le, eq, min as min_float, max as max_float,
    abs, neg, sqrt, log, round,
  }

  unfoldable pub new : ℕ → Fractals F
  new period = record {
    period = max period 1;
    span = 2 * max period 1 + 1;
    highs = Ring.new (2 * max period 1 + 1);
    lows = Ring.new (2 * max period 1 + 1);
    filled = false;
    peak = decimal 0 0;
    trough = decimal 0 0;
  }

  -- The loop of the first full window, with `n` rounds to go.
  unfoldable pub spread : (F → F → F) → ℕ → ℕ → Ring F → F → F
  spread widen zero i window value = value
  spread widen (suc n) i window value =
      spread widen n (i + 1) window (widen value (Ring.at window i))

  -- The loop of `pivot`: no other value of the window reaches the centre.
  unfoldable pub alone : Bool → ℕ → ℕ → ℕ → Ring F → F → Bool
  alone peak zero i period window centre = true
  alone peak (suc n) i period window centre =
      let rest = alone peak n (i + 1) period window centre in
      let value = Ring.at window i in
      if i == period
      then rest
      else if if peak then le centre value else le value centre
      then false
      else rest

  unfoldable pub pivot : Fractals F → Ring F → Bool → Option F
  unfolding alone
  pivot s window peak =
      let centre = Ring.at window s.period in
      if alone peak s.span 0 s.period window centre then some centre else none

  unfoldable pub or_else : Option F → F → F
  or_else (some value) old = value
  or_else none old = old

  unfoldable pub update : Fractals F → Candle F → Fractals F
  unfolding spread pivot or_else
  update s c =
      let highs : Ring F = Ring.push s.highs c.high in
      let lows : Ring F = Ring.push s.lows c.low in
      let full = Ring.full highs in
      let top = spread max_float (s.span - 1) 1 highs (Ring.at highs 0) in
      let bottom = spread min_float (s.span - 1) 1 lows (Ring.at lows 0) in
      record s {
        highs = highs;
        lows = lows;
        filled = if full then true else s.filled;
        peak =
            if full
            then or_else (pivot s highs true) (if s.filled then s.peak else top)
            else s.peak;
        trough =
            if full
            then or_else (pivot s lows false) (if s.filled then s.trough else bottom)
            else s.trough;
      }

  unfoldable pub reset : Fractals F → Fractals F
  reset s = record s {
    highs = Ring.reset s.highs;
    lows = Ring.reset s.lows;
    filled = false;
    peak = decimal 0 0;
    trough = decimal 0 0;
  }

  unfoldable pub methods : Indicator (Fractals F) F
  unfolding update reset
  methods = record {
    update = update;
    values = values;
    ready = ready;
    warmup = warmup;
    reset = reset;
  }
