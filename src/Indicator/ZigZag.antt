-- ===== src/Indicator/ZigZag.antt =====
-- internal/indicator/zigzag.go: the last swing and its direction.
use alvo_backtester.Base.{ℕ, Bool, true, false, ◌&&◌, List, [], ◌∷◌, if◌then◌else◌, Float}
use alvo_backtester.Indicator.{Candle, Indicator, path_prime_bars}

pub record ZigZag (F : Type 0) : Type 0 where
  pub threshold : F
  pub pivot : F
  pub extreme : F
  pub direction : F
  pub started : Bool
  pub out : List F

module _ {F : Type 0} where
  unfoldable pub values : ZigZag F → List F
  values s = s.out

  unfoldable pub ready : ZigZag F → Bool
  ready s = s.started

  unfoldable pub warmup : ZigZag F → ℕ
  warmup s = 0

  unfoldable pub prime_bars : ZigZag F → ℕ
  prime_bars s = path_prime_bars

module _ {F : Type 0} ⦃fl : Float F⦄ where
  open fl use {
    decimal, of_int, to_int, add, sub, mul, div, lt, le, eq, min as min_float, max as max_float,
    abs, neg, sqrt, log, round,
  }

  unfoldable pub new : F → ZigZag F
  new deviation = record {
    threshold = div deviation (decimal 100 0);
    pivot = decimal 0 0;
    extreme = decimal 0 0;
    direction = decimal 0 0;
    started = false;
    out = decimal 0 0 ∷ decimal 0 0 ∷ [];
  }

  unfoldable pub moved : ZigZag F → F → F → Bool
  moved s start end =
      if le start (decimal 0 0) then false else le s.threshold (div (abs (sub end start)) start)

  unfoldable pub climb : ZigZag F → Candle F → ZigZag F
  unfolding moved
  climb s c =
      let extreme = max_float s.extreme c.high in
      if moved s extreme c.low
      then record s { pivot = extreme; extreme = c.low; direction = neg (decimal 1 0) }
      else record s { extreme = extreme }

  unfoldable pub sink : ZigZag F → Candle F → ZigZag F
  unfolding moved
  sink s c =
      let extreme = min_float s.extreme c.low in
      if moved s extreme c.high
      then record s { pivot = extreme; extreme = c.high; direction = decimal 1 0 }
      else record s { extreme = extreme }

  -- The bars before the first swing.
  unfoldable pub wait : ZigZag F → Candle F → ZigZag F
  unfolding moved
  wait s c =
      if lt s.pivot c.high && moved s s.pivot c.high
      then record s { extreme = c.high; direction = decimal 1 0 }
      else if lt c.low s.pivot && moved s s.pivot c.low
      then record s { extreme = c.low; direction = neg (decimal 1 0) }
      else s

  unfoldable pub swing : ZigZag F → Candle F → ZigZag F
  unfolding climb sink wait
  swing s c =
      if lt (decimal 0 0) s.direction
      then climb s c
      else if lt s.direction (decimal 0 0)
      then sink s c
      else wait s c

  unfoldable pub update : ZigZag F → Candle F → ZigZag F
  unfolding swing
  update s c =
      let next : ZigZag F =
        if s.started then swing s c else record s { pivot = c.close; extreme = c.close } in
      record next { started = true; out = next.extreme ∷ next.direction ∷ [] }

  unfoldable pub reset : ZigZag F → ZigZag F
  reset s = record s {
    pivot = decimal 0 0;
    extreme = decimal 0 0;
    direction = decimal 0 0;
    started = false;
    out = decimal 0 0 ∷ decimal 0 0 ∷ [];
  }

  unfoldable pub methods : Indicator (ZigZag F) F
  unfolding update reset
  methods = record {
    update = update;
    values = values;
    ready = ready;
    warmup = warmup;
    reset = reset;
  }
