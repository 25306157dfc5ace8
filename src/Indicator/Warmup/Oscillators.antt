-- ===== src/Indicator/Warmup/Oscillators.antt =====
-- internal/indicator: the oscillators on prices.
use Prim.Native.Nat.{max, ◌+◌, ◌-◌}
use alvo_backtester.Base.{ℕ, ◌≡◌, true, refl, ap, arith, Float}
use alvo_backtester.Indicator.{Source}
use alvo_backtester.Indicator.Warm.{
  RingAfter, ExtremeAfter, EmaAfter, gate, gate_reset, positive, ring_new, ring_push, ring_reset,
  ring_full, extreme_new, extreme_push, extreme_reset, extreme_full, ema_raw, ema_push, ema_reset,
}
use alvo_backtester.Indicator.Warmup.{WarmsUp}
use alvo_backtester.Indicator.Ema
use alvo_backtester.Indicator.Momentum
use alvo_backtester.Indicator.Momentum.{Momentum}
use alvo_backtester.Indicator.Roc
use alvo_backtester.Indicator.Roc.{Roc}
use alvo_backtester.Indicator.Cci
use alvo_backtester.Indicator.Cci.{Cci}
use alvo_backtester.Indicator.Macd
use alvo_backtester.Indicator.Macd.{Macd}
use alvo_backtester.Indicator.WilliamsR
use alvo_backtester.Indicator.WilliamsR.{WilliamsR}
use alvo_backtester.Indicator.Aroon
use alvo_backtester.Indicator.Aroon.{Aroon}

module _ {F : Type 0} ⦃fl : Float F⦄ where
  pub momentum_warms :
      (n : ℕ) (source : Source)
      → WarmsUp {S = Momentum F} Momentum.methods (Momentum.new n source) (max n 1)
  unfolding Momentum.methods Momentum.new Momentum.update Momentum.reset Momentum.ready
      Momentum.warmup
  momentum_warms n source = record {
    After = λ k s. (s.period ≡ max n 1) × RingAfter (max n 1 + 1) k s.window;
    initial = (refl, ring_new F (max n 1 + 1) (omega arith));
    update = λ k s c (period, window).
        let window' = ring_push (max n 1 + 1) k s.window _ window in (period, window');
    reset = λ k s (period, window).
        let window' = ring_reset (max n 1 + 1) k s.window window in (period, window');
    ready = λ k s (period, window).
        let full = ring_full (max n 1 + 1) k s.window window in ground arith;
    warmup = λ k s (period, window). period;
  }

  pub roc_warms :
      (n : ℕ) (source : Source) → WarmsUp {S = Roc F} Roc.methods (Roc.new n source) (max n 1)
  unfolding Roc.methods Roc.new Roc.update Roc.reset Roc.ready Roc.warmup
  roc_warms n source = record {
    After = λ k s. (s.period ≡ max n 1) × RingAfter (max n 1 + 1) k s.window;
    initial = (refl, ring_new F (max n 1 + 1) (omega arith));
    update = λ k s c (period, window).
        let window' = ring_push (max n 1 + 1) k s.window _ window in (period, window');
    reset = λ k s (period, window).
        let window' = ring_reset (max n 1 + 1) k s.window window in (period, window');
    ready = λ k s (period, window).
        let full = ring_full (max n 1 + 1) k s.window window in ground arith;
    warmup = λ k s (period, window). period;
  }

  pub cci_warms : (n : ℕ) → WarmsUp {S = Cci F} Cci.methods (Cci.new n) (max n 1 - 1)
  unfolding Cci.methods Cci.new Cci.update Cci.reset Cci.ready Cci.warmup
  cci_warms n = record {
    After = λ k s. (s.period ≡ max n 1) × RingAfter (max n 1) k s.window;
    initial = (refl, ring_new F (max n 1) (positive n));
    update = λ k s c (period, window).
        let window' = ring_push (max n 1) k s.window _ window in (period, window');
    reset = λ k s (period, window).
        let window' = ring_reset (max n 1) k s.window window in (period, window');
    ready =
        λ k s (period, window). let full = ring_full (max n 1) k s.window window in ground arith;
    warmup = λ k s (period, window). ap (λ p. p - 1) period;
  }

  pub williams_r_warms :
      (n : ℕ) → WarmsUp {S = WilliamsR F} WilliamsR.methods (WilliamsR.new n) (max n 1 - 1)
  unfolding WilliamsR.methods WilliamsR.new WilliamsR.update WilliamsR.reset WilliamsR.ready
      WilliamsR.warmup
  williams_r_warms n = record {
    After = λ k s. (s.period ≡ max n 1) × ExtremeAfter (max n 1) k s.high;
    initial = (refl, extreme_new F (max n 1) true (positive n));
    update = λ k s c (period, high).
        let high' = extreme_push (max n 1) k s.high _ high in (period, high');
    reset =
        λ k s (period, high). let high' = extreme_reset (max n 1) k s.high high in (period, high');
    ready = λ k s (period, high). let full = extreme_full (max n 1) k s.high high in ground arith;
    warmup = λ k s (period, high). ap (λ p. p - 1) period;
  }

  pub aroon_warms : (n : ℕ) → WarmsUp {S = Aroon F} Aroon.methods (Aroon.new n) (max n 1)
  unfolding Aroon.methods Aroon.new Aroon.update Aroon.reset Aroon.ready Aroon.warmup
  aroon_warms n = record {
    After = λ k s. (s.period ≡ max n 1) × ExtremeAfter (max n 1 + 1) k s.high;
    initial = (refl, extreme_new F (max n 1 + 1) true (omega arith));
    update = λ k s c (period, high).
        let high' = extreme_push (max n 1 + 1) k s.high _ high in (period, high');
    reset = λ k s (period, high).
        let high' = extreme_reset (max n 1 + 1) k s.high high in (period, high');
    ready =
        λ k s (period, high). let full = extreme_full (max n 1 + 1) k s.high high in ground arith;
    warmup = λ k s (period, high). period;
  }

  pub macd_warms :
      (fast slow signal : ℕ) (source : Source)
      → WarmsUp {S = Macd F} Macd.methods
          (Macd.new fast slow signal source)
          (max slow 1 - 1 + max signal 1 - 1)
  unfolding Macd.methods Macd.new Macd.update Macd.reset Macd.ready Macd.warmup
  macd_warms fast slow signal source = record {
    After = λ k s.
        EmaAfter (max slow 1) k s.slow × EmaAfter (max signal 1) (k - (max slow 1 - 1)) s.signal;
    initial = (
      ema_raw F slow,
      gate_reset (EmaAfter (max signal 1)) (Ema.start signal) (max slow 1 - 1) (ema_raw F signal),
    );
    update = λ k s c (slow_after, signal_after).
        let slow_after' = ema_push (max slow 1) k s.slow _ (positive slow) slow_after in
        let signal_after' =
          gate (EmaAfter (max signal 1)) _ _ _ (max slow 1 - 1) k (ground arith) signal_after (
            ema_push (max signal 1) (k - (max slow 1 - 1)) s.signal _ (positive signal)
              signal_after) in
        (slow_after', signal_after');
    reset = λ k s (slow_after, signal_after).
        let slow_after' = ema_reset (max slow 1) k s.slow (positive slow) slow_after in
        let signal_after' =
          gate_reset (EmaAfter (max signal 1)) (Ema.clear s.signal) (max slow 1 - 1) (
            ema_reset (max signal 1) (k - (max slow 1 - 1)) s.signal (positive signal)
              signal_after) in
        (slow_after', signal_after');
    ready = λ k s (slow_after, signal_after). ground arith;
    warmup = λ k s (slow_after, signal_after). ground arith;
  }
