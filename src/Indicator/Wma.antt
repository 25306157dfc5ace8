-- ===== src/Indicator/Wma.antt =====
-- internal/indicator/wma.go: the weighted average, and the indicator on it.
use Prim.Native.Nat.{max}
use alvo_backtester.Base.{
  ℕ, zero, suc, ◌+◌, ◌-◌, ◌*◌, Bool, true, false, List, [], ◌∷◌, if◌then◌else◌, Float,
}
use alvo_backtester.Indicator.{Indicator, Candle, Source, value as price_of}
use alvo_backtester.Indicator.Ring
use alvo_backtester.Indicator.Ring.{Ring}

-- `type wma`
pub record Weighted (F : Type 0) : Type 0 where
  pub period : ℕ
  pub weight : F
  pub window : Ring F
  pub numerator : F
  pub seeded : Bool
  pub value : F
  pub ready : Bool

module _ {F : Type 0} ⦃fl : Float F⦄ where
  open fl use {decimal, of_int, add, sub, mul, div}

  -- `newWMA`
  unfoldable pub start : ℕ → Weighted F
  start period = record {
    period = max period 1;
    weight = div (of_int (max period 1 * (max period 1 + 1))) (decimal 2 0);
    window = Ring.new (max period 1);
    numerator = decimal 0 0;
    seeded = false;
    value = decimal 0 0;
    ready = false;
  }

  -- The loop of `wma.push`, with `n` rounds to go.
  unfoldable pub weigh : ℕ → ℕ → Ring F → F → F
  weigh zero i window numerator = numerator
  weigh (suc n) i window numerator =
      weigh n (i + 1) window (add numerator (mul (of_int (i + 1)) (Ring.at window i)))

  -- `wma.push`
  unfoldable pub push : Weighted F → F → Weighted F
  unfolding weigh
  push w x =
      let previous = Ring.sum w.window in
      let window : Ring F = Ring.push w.window x in
      let numerator =
        if w.seeded
        then add w.numerator (sub (mul (of_int w.period) x) previous)
        else weigh w.period 0 window (decimal 0 0) in
      if Ring.full window
      then record w {
        window = window;
        numerator = numerator;
        seeded = true;
        value = div numerator w.weight;
        ready = true;
      }
      else record w { window = window }

  -- `wma.reset`
  unfoldable pub clear : Weighted F → Weighted F
  clear w = record w {
    window = Ring.reset w.window;
    numerator = decimal 0 0;
    seeded = false;
    value = decimal 0 0;
    ready = false;
  }

pub record Wma (F : Type 0) : Type 0 where
  pub source : Source
  pub inner : Weighted F
  pub out : List F

module _ {F : Type 0} where
  unfoldable pub values : Wma F → List F
  values e = e.out

  unfoldable pub ready : Wma F → Bool
  ready w = w.inner.ready

  unfoldable pub warmup : Wma F → ℕ
  warmup w = w.inner.period - 1

module _ {F : Type 0} ⦃fl : Float F⦄ where
  open fl use {decimal}

  unfoldable pub new : ℕ → Source → Wma F
  unfolding start
  new period source = record { source = source; inner = start period; out = decimal 0 0 ∷ [] }

  unfoldable pub update : Wma F → Candle F → Wma F
  unfolding push
  update w c =
      let inner : Weighted F = push w.inner (price_of w.source c) in
      record w { inner = inner; out = inner.value ∷ [] }

  unfoldable pub reset : Wma F → Wma F
  unfolding clear
  reset w = record w { inner = clear w.inner; out = decimal 0 0 ∷ [] }

  unfoldable pub methods : Indicator (Wma F) F
  unfolding update reset
  methods = record {
    update = update;
    values = values;
    ready = ready;
    warmup = warmup;
    reset = reset;
  }
