-- ===== src/Indicator/Ema.antt =====
-- internal/indicator/ema.go: the exponential average, seeded by a mean, and the indicator on it.
use Prim.Native.Nat.{max}
use alvo_backtester.Base.{ℕ, ◌+◌, ◌-◌, ◌*◌, Bool, true, false, List, [], ◌∷◌, if◌then◌else◌, Float}
use alvo_backtester.Indicator.{Indicator, Candle, Source, value as price_of}
use alvo_backtester.Indicator.Ring
use alvo_backtester.Indicator.Ring.{Ring}

-- `type ema`
pub record Average (F : Type 0) : Type 0 where
  pub period : ℕ
  pub alpha : F
  pub seed : Ring F
  pub value : F
  pub ready : Bool

abbrev pub ema_prime_factor : ℕ
ema_prime_factor = 8

module _ {F : Type 0} ⦃fl : Float F⦄ where
  open fl use {decimal, of_int, add, sub, mul, div}

  -- `newEMA`
  unfoldable pub start : ℕ → Average F
  start period = record {
    period = max period 1;
    alpha = div (decimal 2 0) (of_int (max period 1 + 1));
    seed = Ring.new (max period 1);
    value = decimal 0 0;
    ready = false;
  }

  -- The part of `ema.push` before the average is ready.
  unfoldable pub seeded : Average F → Ring F → Average F
  seeded e seed =
      if Ring.full seed
      then record e { seed = seed; value = Ring.mean seed; ready = true }
      else record e { seed = seed }

  -- `ema.push`
  unfoldable pub push : Average F → F → Average F
  unfolding seeded
  push e x =
      if e.ready
      then record e { value = add e.value (mul e.alpha (sub x e.value)) }
      else seeded e (Ring.push e.seed x)

  -- `ema.reset`
  unfoldable pub clear : Average F → Average F
  clear e = record e { seed = Ring.reset e.seed; value = decimal 0 0; ready = false }

pub record Ema (F : Type 0) : Type 0 where
  pub source : Source
  pub inner : Average F
  pub out : List F

module _ {F : Type 0} where
  unfoldable pub values : Ema F → List F
  values e = e.out

  unfoldable pub ready : Ema F → Bool
  ready e = e.inner.ready

  unfoldable pub warmup : Ema F → ℕ
  warmup e = e.inner.period - 1

  unfoldable pub prime_bars : Ema F → ℕ
  prime_bars e = e.inner.period * ema_prime_factor

module _ {F : Type 0} ⦃fl : Float F⦄ where
  open fl use {decimal}

  unfoldable pub new : ℕ → Source → Ema F
  unfolding start
  new period source = record { source = source; inner = start period; out = decimal 0 0 ∷ [] }

  unfoldable pub update : Ema F → Candle F → Ema F
  unfolding push
  update e c =
      let inner : Average F = push e.inner (price_of e.source c) in
      record e { inner = inner; out = inner.value ∷ [] }

  unfoldable pub reset : Ema F → Ema F
  unfolding clear
  reset e = record e { inner = clear e.inner; out = decimal 0 0 ∷ [] }

  unfoldable pub methods : Indicator (Ema F) F
  unfolding update reset
  methods = record {
    update = update;
    values = values;
    ready = ready;
    warmup = warmup;
    reset = reset;
  }
