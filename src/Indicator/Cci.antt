-- ===== src/Indicator/Cci.antt =====
-- internal/indicator/cci.go: the commodity channel index.
use Prim.Native.Nat.{max}
use alvo_backtester.Base.{ℕ, zero, suc, ◌+◌, ◌-◌, Bool, List, [], ◌∷◌, if◌then◌else◌, Float}
use alvo_backtester.Indicator.{Candle, Indicator}
use alvo_backtester.Indicator.Ring
use alvo_backtester.Indicator.Ring.{Ring}

pub record Cci (F : Type 0) : Type 0 where
  pub period : ℕ
  pub window : Ring F
  pub out : List F

module _ {F : Type 0} where
  unfoldable pub values : Cci F → List F
  values s = s.out

  unfoldable pub ready : Cci F → Bool
  ready s = Ring.full s.window

  unfoldable pub warmup : Cci F → ℕ
  warmup s = s.period - 1

module _ {F : Type 0} ⦃fl : Float F⦄ where
  open fl use {
    decimal, of_int, to_int, add, sub, mul, div, lt, le, eq, min as min_float, max as max_float,
    abs, neg, sqrt, log, round,
  }

  -- `cciFactor`
  abbrev cci_factor : F
  cci_factor = decimal 15 3

  unfoldable pub new : ℕ → Cci F
  new period = record {
    period = max period 1;
    window = Ring.new (max period 1);
    out = decimal 0 0 ∷ [];
  }

  -- The loop of `CCI.Update`, with `n` rounds to go.
  unfoldable pub deviation : ℕ → ℕ → Ring F → F → F → F
  deviation zero i window mean spread = spread
  deviation (suc n) i window mean spread =
      deviation n (i + 1) window mean (add spread (abs (sub (Ring.at window i) mean)))

  unfoldable pub level : ℕ → Ring F → F
  level period window =
      let mean = Ring.mean window in
      let spread = div (deviation period 0 window mean (decimal 0 0)) (of_int period) in
      if eq spread (decimal 0 0)
      then decimal 0 0
      else div (sub (Ring.at window (period - 1)) mean) (mul cci_factor spread)

  unfoldable pub update : Cci F → Candle F → Cci F
  unfolding level deviation
  update s c =
      let window : Ring F =
        Ring.push s.window (div (add (add c.high c.low) c.close) (decimal 3 0)) in
      record s {
        window = window;
        out = if Ring.full window then level s.period window ∷ [] else s.out;
      }

  unfoldable pub reset : Cci F → Cci F
  reset s = record s { window = Ring.reset s.window; out = decimal 0 0 ∷ [] }

  unfoldable pub methods : Indicator (Cci F) F
  unfolding update reset
  methods = record {
    update = update;
    values = values;
    ready = ready;
    warmup = warmup;
    reset = reset;
  }
