-- ===== src/Indicator/Keltner.antt =====
-- internal/indicator/keltner.go: the Keltner channel.
use Prim.Native.Nat.{max}
use alvo_backtester.Base.{ℕ, ◌-◌, ◌*◌, Bool, not, ◌&&◌, ◌||◌, List, [], ◌∷◌, if◌then◌else◌, Float}
use alvo_backtester.Indicator.{Candle, Indicator}
use alvo_backtester.Indicator.Ema
use alvo_backtester.Indicator.Ema.{Average, ema_prime_factor}
use alvo_backtester.Indicator.Atr
use alvo_backtester.Indicator.Atr.{Range}
use alvo_backtester.Indicator.Wilder.{wilder_prime_factor}

pub record Keltner (F : Type 0) : Type 0 where
  pub period : ℕ
  pub mult : F
  pub basis : Average F
  pub span : Range F
  pub out : List F

module _ {F : Type 0} where
  unfoldable pub values : Keltner F → List F
  values s = s.out

  unfoldable pub ready : Keltner F → Bool
  ready s = s.basis.ready && Atr.settled s.span

  unfoldable pub warmup : Keltner F → ℕ
  warmup s = max (s.period - 1) s.span.period

  unfoldable pub prime_bars : Keltner F → ℕ
  prime_bars s = max (s.period * ema_prime_factor) (s.span.period * wilder_prime_factor)

module _ {F : Type 0} ⦃fl : Float F⦄ where
  open fl use {
    decimal, of_int, to_int, add, sub, mul, div, lt, le, eq, min as min_float, max as max_float,
    abs, neg, sqrt, log, round,
  }

  unfoldable pub new : ℕ → F → ℕ → Keltner F
  new period mult atr_period = record {
    period = max period 1;
    mult = mult;
    basis = Ema.start (max period 1);
    span = Atr.start atr_period;
    out = decimal 0 0 ∷ decimal 0 0 ∷ decimal 0 0 ∷ [];
  }

  unfoldable pub update : Keltner F → Candle F → Keltner F
  update s c =
      let basis : Average F = Ema.push s.basis c.close in
      let span : Range F = Atr.push s.span c in
      let band = mul s.mult (Atr.level span) in
      record s {
        basis = basis;
        span = span;
        out =
            if not basis.ready || not (Atr.settled span)
            then s.out
            else add basis.value band ∷ basis.value ∷ sub basis.value band ∷ [];
      }

  unfoldable pub reset : Keltner F → Keltner F
  reset s = record s {
    basis = Ema.clear s.basis;
    span = Atr.clear s.span;
    out = decimal 0 0 ∷ decimal 0 0 ∷ decimal 0 0 ∷ [];
  }

  unfoldable pub methods : Indicator (Keltner F) F
  unfolding update reset
  methods = record {
    update = update;
    values = values;
    ready = ready;
    warmup = warmup;
    reset = reset;
  }
