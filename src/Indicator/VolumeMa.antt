-- ===== src/Indicator/VolumeMa.antt =====
-- internal/indicator/volumema.go: the mean volume.
use Prim.Native.Nat.{max}
use alvo_backtester.Base.{ℕ, ◌-◌, Bool, List, [], ◌∷◌, if◌then◌else◌, Float}
use alvo_backtester.Indicator.{Candle, Indicator}
use alvo_backtester.Indicator.Ring
use alvo_backtester.Indicator.Ring.{Ring}

pub record VolumeMa (F : Type 0) : Type 0 where
  pub period : ℕ
  pub window : Ring F
  pub out : List F

module _ {F : Type 0} where
  unfoldable pub values : VolumeMa F → List F
  values s = s.out

  unfoldable pub ready : VolumeMa F → Bool
  ready s = Ring.full s.window

  unfoldable pub warmup : VolumeMa F → ℕ
  warmup s = s.period - 1

module _ {F : Type 0} ⦃fl : Float F⦄ where
  open fl use {
    decimal, of_int, to_int, add, sub, mul, div, lt, le, eq, min as min_float, max as max_float,
    abs, neg, sqrt, log, round,
  }

  unfoldable pub new : ℕ → VolumeMa F
  new period = record {
    period = max period 1;
    window = Ring.new (max period 1);
    out = decimal 0 0 ∷ [];
  }

  unfoldable pub update : VolumeMa F → Candle F → VolumeMa F
  update s c =
      let window : Ring F = Ring.push s.window c.volume in
      record s { window = window; out = if Ring.full window then Ring.mean window ∷ [] else s.out }

  unfoldable pub reset : VolumeMa F → VolumeMa F
  reset s = record s { window = Ring.reset s.window; out = decimal 0 0 ∷ [] }

  unfoldable pub methods : Indicator (VolumeMa F) F
  unfolding update reset
  methods = record {
    update = update;
    values = values;
    ready = ready;
    warmup = warmup;
    reset = reset;
  }
