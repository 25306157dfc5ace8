-- ===== src/Indicator/Warmup/Bands.antt =====
-- internal/indicator: the bands and the volatilities.
use Prim.Native.Nat.{max, ◌+◌, ◌-◌}
use alvo_backtester.Base.{ℕ, ◌≡◌, true, refl, ap, arith, leb, Float}
use alvo_backtester.Indicator.{Source}
use alvo_backtester.Indicator.Warm.{
  RingAfter, WindowAfter, ExtremeAfter, EmaAfter, RangeAfter, gate, gate_reset, positive, ring_new,
  ring_push, ring_reset, ring_full, window_new, window_push, window_reset, window_full, extreme_new,
  extreme_push, extreme_reset, extreme_full, ema_raw, ema_new, ema_push, ema_reset, range_raw,
  range_push, range_reset, range_settled,
}
use alvo_backtester.Indicator.Warmup.{WarmsUp}
use alvo_backtester.Indicator.Ring
use alvo_backtester.Indicator.Atr
use alvo_backtester.Indicator.StdDev
use alvo_backtester.Indicator.StdDev.{StdDev}
use alvo_backtester.Indicator.BollingerBands
use alvo_backtester.Indicator.BollingerBands.{BollingerBands}
use alvo_backtester.Indicator.Donchian
use alvo_backtester.Indicator.Donchian.{Donchian}
use alvo_backtester.Indicator.Keltner
use alvo_backtester.Indicator.Keltner.{Keltner}
use alvo_backtester.Indicator.HistoricalVolatility
use alvo_backtester.Indicator.HistoricalVolatility.{HistoricalVolatility}
use alvo_backtester.Indicator.ChaikinOscillator
use alvo_backtester.Indicator.ChaikinOscillator.{ChaikinOscillator}
use alvo_backtester.Indicator.ChaikinVolatility
use alvo_backtester.Indicator.ChaikinVolatility.{ChaikinVolatility}
use alvo_backtester.Indicator.Atr.{Atr}

module _ {F : Type 0} ⦃fl : Float F⦄ where
  pub std_dev_warms :
      (n : ℕ) (source : Source)
      → WarmsUp {S = StdDev F} StdDev.methods (StdDev.new n source) (max n 1 - 1)
  unfolding StdDev.methods StdDev.new StdDev.update StdDev.reset StdDev.ready StdDev.warmup
  std_dev_warms n source = record {
    After = λ k s. (s.period ≡ max n 1) × WindowAfter (max n 1) k s.window;
    initial = (refl, window_new F (max n 1) (positive n));
    update = λ k s c (period, window).
        let window' = window_push (max n 1) k s.window _ window in (period, window');
    reset = λ k s (period, window).
        let window' = window_reset (max n 1) k s.window window in (period, window');
    ready =
        λ k s (period, window). let full = window_full (max n 1) k s.window window in ground arith;
    warmup = λ k s (period, window). ap (λ p. p - 1) period;
  }

  pub bollinger_bands_warms :
      (n : ℕ) (mult : F) (source : Source)
      → WarmsUp {S = BollingerBands F} BollingerBands.methods
          (BollingerBands.new n mult source)
          (max n 1 - 1)
  unfolding BollingerBands.methods BollingerBands.new BollingerBands.update BollingerBands.reset
      BollingerBands.ready BollingerBands.warmup
  bollinger_bands_warms n mult source = record {
    After = λ k s. (s.period ≡ max n 1) × WindowAfter (max n 1) k s.window;
    initial = (refl, window_new F (max n 1) (positive n));
    update = λ k s c (period, window).
        let window' = window_push (max n 1) k s.window _ window in (period, window');
    reset = λ k s (period, window).
        let window' = window_reset (max n 1) k s.window window in (period, window');
    ready =
        λ k s (period, window). let full = window_full (max n 1) k s.window window in ground arith;
    warmup = λ k s (period, window). ap (λ p. p - 1) period;
  }

  pub donchian_warms :
      (n : ℕ) → WarmsUp {S = Donchian F} Donchian.methods (Donchian.new n) (max n 1 - 1)
  unfolding Donchian.methods Donchian.new Donchian.update Donchian.reset Donchian.ready
      Donchian.warmup
  donchian_warms n = record {
    After = λ k s. (s.period ≡ max n 1) × ExtremeAfter (max n 1) k s.high;
    initial = (refl, extreme_new F (max n 1) true (positive n));
    update = λ k s c (period, high).
        let high' = extreme_push (max n 1) k s.high _ high in (period, high');
    reset =
        λ k s (period, high). let high' = extreme_reset (max n 1) k s.high high in (period, high');
    ready = λ k s (period, high). let full = extreme_full (max n 1) k s.high high in ground arith;
    warmup = λ k s (period, high). ap (λ p. p - 1) period;
  }

  pub atr_warms : (n : ℕ) → WarmsUp {S = Atr F} Atr.methods (Atr.new n) (max n 1)
  unfolding Atr.methods Atr.new Atr.update Atr.reset Atr.ready Atr.warmup
  atr_warms n = record {
    After = λ k s. RangeAfter (max n 1) k s.inner;
    initial = range_raw F n;
    update =
        λ k s c inner. let inner' = range_push (max n 1) k s.inner c (positive n) inner in inner';
    reset = λ k s inner. let inner' = range_reset (max n 1) k s.inner (positive n) inner in inner';
    ready = λ k s inner. let settled = range_settled (max n 1) k s.inner inner in ground arith;
    warmup = λ k s inner. inner.0;
  }

  pub keltner_warms :
      (n : ℕ) (mult : F) (m : ℕ)
      → WarmsUp {S = Keltner F} Keltner.methods (Keltner.new n mult m) (max (max n 1 - 1) (max m 1))
  unfolding Keltner.methods Keltner.new Keltner.update Keltner.reset Keltner.ready Keltner.warmup
  keltner_warms n mult m = record {
    After =
        λ k s. (s.period ≡ max n 1) × EmaAfter (max n 1) k s.basis × RangeAfter (max m 1) k s.span;
    initial = (refl, ema_new F (max n 1) (positive n), range_raw F m);
    update = λ k s c (period, basis, span).
        let basis' = ema_push (max n 1) k s.basis _ (positive n) basis in
        let span' = range_push (max m 1) k s.span c (positive m) span in (period, basis', span');
    reset = λ k s (period, basis, span).
        let basis' = ema_reset (max n 1) k s.basis (positive n) basis in
        let span' = range_reset (max m 1) k s.span (positive m) span in (period, basis', span');
    ready = λ k s (period, basis, span).
        let settled = range_settled (max m 1) k s.span span in ground arith;
    warmup = λ k s (period, basis, span). ground arith;
  }

  abbrev LogAfter : ℕ → ℕ → HistoricalVolatility F → Type 0
  LogAfter n k s = (s.period ≡ n) × WindowAfter n k s.window

  pub historical_volatility_warms :
      (n annual : ℕ) (source : Source)
      → WarmsUp {S = HistoricalVolatility F} HistoricalVolatility.methods
          (HistoricalVolatility.new n annual source)
          (max n 1)
  unfolding HistoricalVolatility.methods HistoricalVolatility.new HistoricalVolatility.update
      HistoricalVolatility.reset HistoricalVolatility.ready HistoricalVolatility.warmup
      HistoricalVolatility.advance
  historical_volatility_warms n annual source = record {
    After = λ k s. (s.seen ≡ leb 1 k) × LogAfter (max n 1) (k - 1) s;
    initial = (ground arith, (refl, window_new F (max n 1) (positive n)));
    update = λ k s c (seen, rest).
        let rest' =
          gate (LogAfter (max n 1)) s.seen _ _ 1 k (ground arith) rest
            (rest.0, window_push (max n 1) (k - 1) s.window _ rest.1) in
        (ground arith, rest');
    reset = λ k s (seen, rest).
        (ground arith, (rest.0, window_reset (max n 1) (k - 1) s.window rest.1));
    ready = λ k s (seen, rest).
        let full = window_full (max n 1) (k - 1) s.window rest.1 in ground arith;
    warmup = λ k s (seen, rest). rest.0;
  }

  pub chaikin_oscillator_warms :
      (fast slow : ℕ)
      → WarmsUp {S = ChaikinOscillator F} ChaikinOscillator.methods
          (ChaikinOscillator.new fast slow)
          (max slow 1 - 1)
  unfolding ChaikinOscillator.methods ChaikinOscillator.new ChaikinOscillator.update
      ChaikinOscillator.reset ChaikinOscillator.ready ChaikinOscillator.warmup
  chaikin_oscillator_warms fast slow = record {
    After = λ k s. EmaAfter (max slow 1) k s.slow;
    initial = ema_raw F slow;
    update = λ k s c average.
        let average' = ema_push (max slow 1) k s.slow _ (positive slow) average in average';
    reset = λ k s average.
        let average' = ema_reset (max slow 1) k s.slow (positive slow) average in average';
    ready = λ k s average. ground arith;
    warmup = λ k s average. ground arith;
  }

  pub chaikin_volatility_warms :
      (n m : ℕ)
      → WarmsUp {S = ChaikinVolatility F} ChaikinVolatility.methods
          (ChaikinVolatility.new n m)
          (max n 1 - 1 + max m 1)
  unfolding ChaikinVolatility.methods ChaikinVolatility.new ChaikinVolatility.update
      ChaikinVolatility.reset ChaikinVolatility.ready ChaikinVolatility.warmup
  chaikin_volatility_warms n m = record {
    After = λ k s.
        (s.period ≡ max n 1)
        × (s.change ≡ max m 1)
        × EmaAfter (max n 1) k s.spread
        × RingAfter (max m 1 + 1) (k - (max n 1 - 1)) s.window;
    initial = (
      refl,
      refl,
      ema_new F (max n 1) (positive n),
      gate_reset (RingAfter (max m 1 + 1)) (Ring.new (max m 1 + 1)) (max n 1 - 1)
          (ring_new F (max m 1 + 1) (omega arith)),
    );
    update = λ k s c (period, change, spread, window).
        let spread' = ema_push (max n 1) k s.spread _ (positive n) spread in
        let window' =
          gate (RingAfter (max m 1 + 1)) _ _ _ (max n 1 - 1) k (ground arith) window
            (ring_push (max m 1 + 1) (k - (max n 1 - 1)) s.window _ window) in
        (period, change, spread', window');
    reset = λ k s (period, change, spread, window).
        let spread' = ema_reset (max n 1) k s.spread (positive n) spread in
        let window' =
          gate_reset (RingAfter (max m 1 + 1)) (Ring.reset s.window) (max n 1 - 1)
            (ring_reset (max m 1 + 1) (k - (max n 1 - 1)) s.window window) in
        (period, change, spread', window');
    ready = λ k s (period, change, spread, window).
        let full = ring_full (max m 1 + 1) (k - (max n 1 - 1)) s.window window in ground arith;
    warmup = λ k s (period, change, spread, window). ground arith;
  }
