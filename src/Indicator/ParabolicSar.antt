-- ===== src/Indicator/ParabolicSar.antt =====
-- internal/indicator/psar.go: the parabolic stop.
use alvo_backtester.Base.{ℕ, ◌+◌, Bool, true, false, List, [], ◌∷◌, ltb, ◌==◌, if◌then◌else◌, Float}
use alvo_backtester.Indicator.{Candle, Indicator, blank, path_prime_bars}

pub record ParabolicSar (F : Type 0) : Type 0 where
  pub step : F
  pub ceiling : F
  pub previous : Candle F
  pub older : Candle F
  pub bars : ℕ
  pub sar : F
  pub extreme : F
  pub rate : F
  pub rising : Bool
  pub out : List F

module _ {F : Type 0} where
  unfoldable pub values : ParabolicSar F → List F
  values s = s.out

  unfoldable pub ready : ParabolicSar F → Bool
  ready s = ltb 1 s.bars

  unfoldable pub warmup : ParabolicSar F → ℕ
  warmup s = 1

  unfoldable pub prime_bars : ParabolicSar F → ℕ
  prime_bars s = path_prime_bars

module _ {F : Type 0} ⦃fl : Float F⦄ where
  open fl use {
    decimal, of_int, to_int, add, sub, mul, div, lt, le, eq, min as min_float, max as max_float,
    abs, neg, sqrt, log, round,
  }

  unfoldable pub new : F → F → ParabolicSar F
  new step ceiling = record {
    step = step;
    ceiling = ceiling;
    previous = blank;
    older = blank;
    bars = 0;
    sar = decimal 0 0;
    extreme = decimal 0 0;
    rate = decimal 0 0;
    rising = false;
    out = decimal 0 0 ∷ decimal 0 0 ∷ [];
  }

  -- The second bar.
  unfoldable pub begin : ParabolicSar F → Candle F → ParabolicSar F
  begin s c =
      let rising = le s.previous.close c.close in
      let bottom = min_float s.previous.low c.low in
      let top = max_float s.previous.high c.high in
      record s {
        rising = rising;
        sar = if rising then bottom else top;
        extreme = if rising then top else bottom;
        rate = s.step;
      }

  -- A turn: the stop starts again at the last extreme.
  unfoldable pub turned : ParabolicSar F → Bool → F → ParabolicSar F
  turned s rising extreme = record s {
    rising = rising;
    sar = s.extreme;
    extreme = extreme;
    rate = s.step;
  }

  unfoldable pub pressed : ParabolicSar F → F → F → ParabolicSar F
  pressed s sar extreme = record s {
    sar = sar;
    extreme = extreme;
    rate = min_float (add s.rate s.step) s.ceiling;
  }

  -- The two halves of `ParabolicSAR.advance`, with the stop moved towards the extreme.
  unfoldable pub climb : ParabolicSar F → F → Candle F → ParabolicSar F
  unfolding turned pressed
  climb s moved c =
      let sar = min_float moved (min_float s.previous.low s.older.low) in
      if lt c.low sar
      then turned s false c.low
      else if lt s.extreme c.high
      then pressed s sar c.high
      else record s { sar = sar }

  unfoldable pub sink : ParabolicSar F → F → Candle F → ParabolicSar F
  unfolding turned pressed
  sink s moved c =
      let sar = max_float moved (max_float s.previous.high s.older.high) in
      if lt sar c.high
      then turned s true c.high
      else if lt c.low s.extreme
      then pressed s sar c.low
      else record s { sar = sar }

  unfoldable pub advance : ParabolicSar F → Candle F → ParabolicSar F
  unfolding climb sink
  advance s c =
      let moved = add s.sar (mul s.rate (sub s.extreme s.sar)) in
      if s.rising then climb s moved c else sink s moved c

  unfoldable pub emit : ParabolicSar F → List F
  emit s = s.sar ∷ (if s.rising then decimal 1 0 else neg (decimal 1 0)) ∷ []

  unfoldable pub update : ParabolicSar F → Candle F → ParabolicSar F
  unfolding begin advance emit
  update s c =
      let moved : ParabolicSar F = if s.bars == 1 then begin s c else advance s c in
      if s.bars == 0
      then record s { previous = c; bars = 1 }
      else record moved { older = s.previous; previous = c; bars = s.bars + 1; out = emit moved }

  unfoldable pub reset : ParabolicSar F → ParabolicSar F
  unfolding new
  reset s = new s.step s.ceiling

  unfoldable pub methods : Indicator (ParabolicSar F) F
  unfolding update reset
  methods = record {
    update = update;
    values = values;
    ready = ready;
    warmup = warmup;
    reset = reset;
  }
