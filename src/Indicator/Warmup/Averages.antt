-- ===== src/Indicator/Warmup/Averages.antt =====
-- internal/indicator: the averages.
use Prim.Native.Nat.{max, ◌+◌, ◌-◌, ◌*◌}
use alvo_backtester.Base.{ℕ, ◌≡◌, refl, ap, arith, Float}
use alvo_backtester.Indicator.{Source}
use alvo_backtester.Indicator.Warm.{
  RingAfter, EmaAfter, WmaAfter, gate, gate_reset, positive, ring_raw, ring_new, ring_push,
  ring_reset, ring_full, ema_raw, ema_new, ema_push, ema_reset, wma_raw, wma_new, wma_push,
  wma_reset,
}
use alvo_backtester.Indicator.Warmup.{WarmsUp}
use alvo_backtester.Indicator.Ema
use alvo_backtester.Indicator.Wma
use alvo_backtester.Indicator.Sma
use alvo_backtester.Indicator.Sma.{Sma}
use alvo_backtester.Indicator.Dema
use alvo_backtester.Indicator.Dema.{Dema}
use alvo_backtester.Indicator.Tema
use alvo_backtester.Indicator.Tema.{Tema}
use alvo_backtester.Indicator.Hma
use alvo_backtester.Indicator.Hma.{Hma}
use alvo_backtester.Indicator.VolumeMa
use alvo_backtester.Indicator.VolumeMa.{VolumeMa}
use alvo_backtester.Indicator.Vwap
use alvo_backtester.Indicator.Vwap.{Vwap}
use alvo_backtester.Indicator.Vwma
use alvo_backtester.Indicator.Vwma.{Vwma}
use alvo_backtester.Indicator.Ema.{Ema}
use alvo_backtester.Indicator.Wma.{Wma}

module _ {F : Type 0} ⦃fl : Float F⦄ where
  pub sma_warms :
      (n : ℕ) (source : Source) → WarmsUp {S = Sma F} Sma.methods (Sma.new n source) (max n 1 - 1)
  unfolding Sma.methods Sma.new Sma.update Sma.reset Sma.ready Sma.warmup
  sma_warms n source = record {
    After = λ k s. (s.period ≡ max n 1) × RingAfter (max n 1) k s.window;
    initial = (refl, ring_raw F n);
    update = λ k s c (period, window).
        let window' = ring_push (max n 1) k s.window _ window in (period, window');
    reset = λ k s (period, window).
        let window' = ring_reset (max n 1) k s.window window in (period, window');
    ready =
        λ k s (period, window). let full = ring_full (max n 1) k s.window window in ground arith;
    warmup = λ k s (period, window). ap (λ p. p - 1) period;
  }

  pub ema_warms :
      (n : ℕ) (source : Source) → WarmsUp {S = Ema F} Ema.methods (Ema.new n source) (max n 1 - 1)
  unfolding Ema.methods Ema.new Ema.update Ema.reset Ema.ready Ema.warmup
  ema_warms n source = record {
    After = λ k s. EmaAfter (max n 1) k s.inner;
    initial = ema_raw F n;
    update =
        λ k s c inner. let inner' = ema_push (max n 1) k s.inner _ (positive n) inner in inner';
    reset = λ k s inner. let inner' = ema_reset (max n 1) k s.inner (positive n) inner in inner';
    ready = λ k s inner. ground arith;
    warmup = λ k s inner. ground arith;
  }

  pub wma_warms :
      (n : ℕ) (source : Source) → WarmsUp {S = Wma F} Wma.methods (Wma.new n source) (max n 1 - 1)
  unfolding Wma.methods Wma.new Wma.update Wma.reset Wma.ready Wma.warmup
  wma_warms n source = record {
    After = λ k s. WmaAfter (max n 1) k s.inner;
    initial = wma_raw F n;
    update = λ k s c inner. let inner' = wma_push (max n 1) k s.inner _ inner in inner';
    reset = λ k s inner. let inner' = wma_reset (max n 1) k s.inner (positive n) inner in inner';
    ready = λ k s inner. ground arith;
    warmup = λ k s inner. ground arith;
  }

  pub dema_warms :
      (n : ℕ) (source : Source)
      → WarmsUp {S = Dema F} Dema.methods (Dema.new n source) (2 * (max n 1 - 1))
  unfolding Dema.methods Dema.new Dema.update Dema.reset Dema.ready Dema.warmup
  dema_warms n source = record {
    After = λ k s.
        (s.period ≡ max n 1)
        × EmaAfter (max n 1) k s.first
        × EmaAfter (max n 1) (k - (max n 1 - 1)) s.second;
    initial = (
      refl,
      ema_new F (max n 1) (positive n),
      gate_reset (EmaAfter (max n 1)) (Ema.start (max n 1)) (max n 1 - 1)
          (ema_new F (max n 1) (positive n)),
    );
    update = λ k s c (period, first, second).
        let first' = ema_push (max n 1) k s.first _ (positive n) first in
        let second' =
          gate (EmaAfter (max n 1)) _ _ _ (max n 1 - 1) k (ground arith) second
            (ema_push (max n 1) (k - (max n 1 - 1)) s.second _ (positive n) second) in
        (period, first', second');
    reset = λ k s (period, first, second).
        let first' = ema_reset (max n 1) k s.first (positive n) first in
        let second' =
          gate_reset (EmaAfter (max n 1)) (Ema.clear s.second) (max n 1 - 1)
            (ema_reset (max n 1) (k - (max n 1 - 1)) s.second (positive n) second) in
        (period, first', second');
    ready = λ k s (period, first, second). ground arith;
    warmup = λ k s (period, first, second). ap (λ p. 2 * (p - 1)) period;
  }

  pub tema_warms :
      (n : ℕ) (source : Source)
      → WarmsUp {S = Tema F} Tema.methods (Tema.new n source) (3 * (max n 1 - 1))
  unfolding Tema.methods Tema.new Tema.update Tema.reset Tema.ready Tema.warmup
  tema_warms n source = record {
    After = λ k s.
        (s.period ≡ max n 1)
        × EmaAfter (max n 1) k s.first
        × EmaAfter (max n 1) (k - (max n 1 - 1)) s.second
        × EmaAfter (max n 1) (k - (2 * (max n 1 - 1))) s.third;
    initial = (
      refl,
      ema_new F (max n 1) (positive n),
      gate_reset (EmaAfter (max n 1)) (Ema.start (max n 1)) (max n 1 - 1)
          (ema_new F (max n 1) (positive n)),
      gate_reset (EmaAfter (max n 1)) (Ema.start (max n 1)) (2 * (max n 1 - 1))
          (ema_new F (max n 1) (positive n)),
    );
    update = λ k s c (period, first, second, third).
        let first' = ema_push (max n 1) k s.first _ (positive n) first in
        let second' =
          gate (EmaAfter (max n 1)) _ _ _ (max n 1 - 1) k (ground arith) second
            (ema_push (max n 1) (k - (max n 1 - 1)) s.second _ (positive n) second) in
        let third' =
          gate (EmaAfter (max n 1)) _ _ _ (2 * (max n 1 - 1)) k (ground arith) third
            (ema_push (max n 1) (k - (2 * (max n 1 - 1))) s.third _ (positive n) third) in
        (period, first', second', third');
    reset = λ k s (period, first, second, third).
        let first' = ema_reset (max n 1) k s.first (positive n) first in
        let second' =
          gate_reset (EmaAfter (max n 1)) (Ema.clear s.second) (max n 1 - 1)
            (ema_reset (max n 1) (k - (max n 1 - 1)) s.second (positive n) second) in
        let third' =
          gate_reset (EmaAfter (max n 1)) (Ema.clear s.third) (2 * (max n 1 - 1))
            (ema_reset (max n 1) (k - (2 * (max n 1 - 1))) s.third (positive n) third) in
        (period, first', second', third');
    ready = λ k s (period, first, second, third). ground arith;
    warmup = λ k s (period, first, second, third). ap (λ p. 3 * (p - 1)) period;
  }

  pub hma_warms :
      (n : ℕ) (source : Source)
      → WarmsUp {S = Hma F} Hma.methods (Hma.new n source) (max n 1 + Hma.root_of F (max n 1) - 2)
  unfolding Hma.methods Hma.new Hma.update Hma.reset Hma.ready Hma.warmup Hma.root_of
  hma_warms n source = record {
    After = λ k s.
        (s.period ≡ max n 1)
        × (s.root ≡ (Hma.root_of F (max n 1)))
        × WmaAfter (max n 1) k s.full
        × WmaAfter (Hma.root_of F (max n 1)) (k - (max n 1 - 1)) s.hull;
    initial = (
      refl,
      refl,
      wma_new F (max n 1) (positive n),
      gate_reset (WmaAfter (Hma.root_of F (max n 1))) (Wma.start (Hma.root_of F (max n 1)))
          (max n 1 - 1) (wma_new F (Hma.root_of F (max n 1)) (positive _)),
    );
    update = λ k s c (period, root, full, hull).
        let full' = wma_push (max n 1) k s.full _ full in
        let hull' =
          gate (WmaAfter (Hma.root_of F (max n 1))) _ _ _ (max n 1 - 1) k (ground arith) hull
            (wma_push (Hma.root_of F (max n 1)) (k - (max n 1 - 1)) s.hull _ hull) in
        (period, root, full', hull');
    reset = λ k s (period, root, full, hull).
        let full' = wma_reset (max n 1) k s.full (positive n) full in
        let hull' =
          gate_reset (WmaAfter (Hma.root_of F (max n 1))) (Wma.clear s.hull) (max n 1 - 1)
            (wma_reset (Hma.root_of F (max n 1)) (k - (max n 1 - 1)) s.hull (positive _) hull) in
        (period, root, full', hull');
    ready = λ k s (period, root, full, hull). ground arith;
    warmup = λ k s (period, root, full, hull). ground arith;
  }

  pub volume_ma_warms :
      (n : ℕ) → WarmsUp {S = VolumeMa F} VolumeMa.methods (VolumeMa.new n) (max n 1 - 1)
  unfolding VolumeMa.methods VolumeMa.new VolumeMa.update VolumeMa.reset VolumeMa.ready
      VolumeMa.warmup
  volume_ma_warms n = record {
    After = λ k s. (s.period ≡ max n 1) × RingAfter (max n 1) k s.window;
    initial = (refl, ring_new F (max n 1) (positive n));
    update = λ k s c (period, window).
        let window' = ring_push (max n 1) k s.window _ window in (period, window');
    reset = λ k s (period, window).
        let window' = ring_reset (max n 1) k s.window window in (period, window');
    ready =
        λ k s (period, window). let full = ring_full (max n 1) k s.window window in ground arith;
    warmup = λ k s (period, window). ap (λ p. p - 1) period;
  }

  pub vwap_warms : (n : ℕ) → WarmsUp {S = Vwap F} Vwap.methods (Vwap.new n) (max n 1 - 1)
  unfolding Vwap.methods Vwap.new Vwap.update Vwap.reset Vwap.ready Vwap.warmup
  vwap_warms n = record {
    After = λ k s. (s.period ≡ max n 1) × RingAfter (max n 1) k s.typical;
    initial = (refl, ring_new F (max n 1) (positive n));
    update = λ k s c (period, typical).
        let typical' = ring_push (max n 1) k s.typical _ typical in (period, typical');
    reset = λ k s (period, typical).
        let typical' = ring_reset (max n 1) k s.typical typical in (period, typical');
    ready =
        λ k s (period, typical). let full = ring_full (max n 1) k s.typical typical in ground arith;
    warmup = λ k s (period, typical). ap (λ p. p - 1) period;
  }

  pub vwma_warms :
      (n : ℕ) (source : Source)
      → WarmsUp {S = Vwma F} Vwma.methods (Vwma.new n source) (max n 1 - 1)
  unfolding Vwma.methods Vwma.new Vwma.update Vwma.reset Vwma.ready Vwma.warmup
  vwma_warms n source = record {
    After = λ k s. (s.period ≡ max n 1) × RingAfter (max n 1) k s.price;
    initial = (refl, ring_new F (max n 1) (positive n));
    update = λ k s c (period, price).
        let price' = ring_push (max n 1) k s.price _ price in (period, price');
    reset = λ k s (period, price).
        let price' = ring_reset (max n 1) k s.price price in (period, price');
    ready = λ k s (period, price). let full = ring_full (max n 1) k s.price price in ground arith;
    warmup = λ k s (period, price). ap (λ p. p - 1) period;
  }
