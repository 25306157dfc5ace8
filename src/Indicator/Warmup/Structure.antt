-- ===== src/Indicator/Warmup/Structure.antt =====
-- internal/indicator: the structures of the price, and the running totals.
use Prim.Native.Nat.{max, ◌+◌, ◌-◌, ◌*◌}
use alvo_backtester.Base.{ℕ, ◌≡◌, Bool, true, refl, ap, arith, leb, Float, Bool-cases, inl, inr}
use alvo_backtester.Indicator.Warm.{
  RingAfter, ExtremeAfter, RangeAfter, positive, ring_new, ring_push, ring_reset, ring_full,
  extreme_new, extreme_push, extreme_reset, range_raw, range_push, range_reset, range_settled,
}
use alvo_backtester.Indicator.Warmup.{WarmsUp}
use alvo_backtester.Indicator.Ring
use alvo_backtester.Indicator.Extreme
use alvo_backtester.Indicator.Atr
use alvo_backtester.Indicator.Ichimoku
use alvo_backtester.Indicator.Ichimoku.{Ichimoku}
use alvo_backtester.Indicator.Fractals
use alvo_backtester.Indicator.Fractals.{Fractals}
use alvo_backtester.Indicator.PivotPoints
use alvo_backtester.Indicator.PivotPoints.{PivotPoints}
use alvo_backtester.Indicator.SuperTrend
use alvo_backtester.Indicator.SuperTrend.{SuperTrend}
use alvo_backtester.Indicator.ParabolicSar
use alvo_backtester.Indicator.ParabolicSar.{ParabolicSar}
use alvo_backtester.Indicator.ZigZag
use alvo_backtester.Indicator.ZigZag.{ZigZag}
use alvo_backtester.Indicator.AdLine
use alvo_backtester.Indicator.AdLine.{AdLine}
use alvo_backtester.Indicator.Obv
use alvo_backtester.Indicator.Obv.{Obv}

module _ {F : Type 0} ⦃fl : Float F⦄ where
  pub ichimoku_warms :
      (a b c : ℕ)
      → WarmsUp {S = Ichimoku F} Ichimoku.methods
          (Ichimoku.new a b c)
          (max (max (max a 1) (max b 1)) (max c 1) - 1)
  unfolding Ichimoku.methods Ichimoku.new Ichimoku.update Ichimoku.reset Ichimoku.ready
      Ichimoku.warmup Extreme.full
  ichimoku_warms a b c = record {
    After = λ k s.
        (s.tenkan ≡ max a 1)
        × (s.kijun ≡ max b 1)
        × (s.senkou ≡ max c 1)
        × ExtremeAfter (max a 1) k s.tenkan_high
        × ExtremeAfter (max b 1) k s.kijun_high
        × ExtremeAfter (max c 1) k s.senkou_high;
    initial = (
      refl,
      refl,
      refl,
      extreme_new F (max a 1) true (positive a),
      extreme_new F (max b 1) true (positive b),
      extreme_new F (max c 1) true (positive c),
    );
    update = λ k s bar (tenkan_is, kijun_is, senkou_is, tenkan, kijun, senkou).
        let tenkan' = extreme_push (max a 1) k s.tenkan_high _ tenkan in
        let kijun' = extreme_push (max b 1) k s.kijun_high _ kijun in
        let senkou' = extreme_push (max c 1) k s.senkou_high _ senkou in
        (tenkan_is, kijun_is, senkou_is, tenkan', kijun', senkou');
    reset = λ k s (tenkan_is, kijun_is, senkou_is, tenkan, kijun, senkou).
        let tenkan' = extreme_reset (max a 1) k s.tenkan_high tenkan in
        let kijun' = extreme_reset (max b 1) k s.kijun_high kijun in
        let senkou' = extreme_reset (max c 1) k s.senkou_high senkou in
        (tenkan_is, kijun_is, senkou_is, tenkan', kijun', senkou');
    ready = λ k s (tenkan_is, kijun_is, senkou_is, tenkan, kijun, senkou). ground arith;
    warmup = λ k s (tenkan_is, kijun_is, senkou_is, tenkan, kijun, senkou). ground arith;
  }

  pub fractals_warms :
      (n : ℕ) → WarmsUp {S = Fractals F} Fractals.methods (Fractals.new n) (2 * max n 1)
  unfolding Fractals.methods Fractals.new Fractals.update Fractals.reset Fractals.ready
      Fractals.warmup
  fractals_warms n = record {
    After = λ k s.
        (s.period ≡ max n 1)
        × (s.filled ≡ leb (2 * max n 1 + 1) k)
        × RingAfter (2 * max n 1 + 1) k s.highs;
    initial = (refl, ground arith, ring_new F (2 * max n 1 + 1) (omega arith));
    update = λ k s c (period, filled, highs).
        let highs' = ring_push (2 * max n 1 + 1) k s.highs _ highs in
        (
          period,
          ground (
            arith,
            ring_full (2 * max n 1 + 1) (k + 1) (Ring.push s.highs c.high)
                (ring_push (2 * max n 1 + 1) k s.highs c.high highs),
          ),
          highs',
        );
    reset = λ k s (period, filled, highs).
        let highs' = ring_reset (2 * max n 1 + 1) k s.highs highs in (period, ground arith, highs');
    ready = λ k s (period, filled, highs). filled;
    warmup = λ k s (period, filled, highs). ap (λ p. 2 * p) period;
  }

  pub pivot_points_warms :
      (n : ℕ) (fib : Bool)
      → WarmsUp {S = PivotPoints F} PivotPoints.methods (PivotPoints.new n fib) (max n 1)
  unfolding PivotPoints.methods PivotPoints.new PivotPoints.update PivotPoints.reset
      PivotPoints.ready PivotPoints.warmup Extreme.full
  pivot_points_warms n fib = record {
    After = λ k s.
        (s.period ≡ max n 1) × (s.filled ≡ leb (max n 1 + 1) k) × ExtremeAfter (max n 1) k s.high;
    initial = (refl, ground arith, extreme_new F (max n 1) true (positive n));
    update = λ k s c (period, filled, high).
        let high' = extreme_push (max n 1) k s.high _ high in (period, ground arith, high');
    reset = λ k s (period, filled, high).
        let high' = extreme_reset (max n 1) k s.high high in (period, ground arith, high');
    ready = λ k s (period, filled, high). filled;
    warmup = λ k s (period, filled, high). period;
  }

  pub super_trend_warms :
      (n : ℕ) (mult : F)
      → WarmsUp {S = SuperTrend F} SuperTrend.methods (SuperTrend.new n mult) (max n 1)
  unfolding SuperTrend.methods SuperTrend.new SuperTrend.update SuperTrend.reset SuperTrend.ready
      SuperTrend.warmup SuperTrend.advance
  super_trend_warms n mult = record {
    After = λ k s. RangeAfter (max n 1) k s.span;
    initial = range_raw F n;
    update = λ k s c span. elim (Bool-cases (Atr.settled (Atr.push s.span c))) [
      | inl there ↦ rw there (range_push (max n 1) k s.span c (positive n) span)
      | inr early ↦ rw early (range_push (max n 1) k s.span c (positive n) span)
    ];
    reset = λ k s span. let span' = range_reset (max n 1) k s.span (positive n) span in span';
    ready = λ k s span. let settled = range_settled (max n 1) k s.span span in ground arith;
    warmup = λ k s span. span.0;
  }

  pub parabolic_sar_warms :
      (step ceiling : F)
      → WarmsUp {S = ParabolicSar F} ParabolicSar.methods (ParabolicSar.new step ceiling) (1)
  unfolding ParabolicSar.methods ParabolicSar.new ParabolicSar.update ParabolicSar.reset
      ParabolicSar.ready ParabolicSar.warmup ParabolicSar.begin ParabolicSar.advance
      ParabolicSar.climb ParabolicSar.sink ParabolicSar.turned ParabolicSar.pressed
  parabolic_sar_warms step ceiling = record {
    After = λ k s. (s.bars ≡ k);
    initial = refl;
    update = λ k s c bars. ground arith;
    reset = λ k s bars. ground arith;
    ready = λ k s bars. ground arith;
    warmup = λ k s bars. refl;
  }

  pub zig_zag_warms :
      (deviation : F) → WarmsUp {S = ZigZag F} ZigZag.methods (ZigZag.new deviation) (0)
  unfolding ZigZag.methods ZigZag.new ZigZag.update ZigZag.reset ZigZag.ready ZigZag.warmup
  zig_zag_warms deviation = record {
    After = λ k s. (s.started ≡ leb 1 k);
    initial = ground arith;
    update = λ k s c started. ground arith;
    reset = λ k s started. ground arith;
    ready = λ k s started. ground arith;
    warmup = λ k s started. refl;
  }

  pub ad_line_warms : WarmsUp {S = AdLine F} AdLine.methods (AdLine.new) (0)
  unfolding AdLine.methods AdLine.new AdLine.update AdLine.reset AdLine.ready AdLine.warmup
  ad_line_warms = record {
    After = λ k s. (s.filled ≡ leb 1 k);
    initial = ground arith;
    update = λ k s c filled. ground arith;
    reset = λ k s filled. ground arith;
    ready = λ k s filled. ground arith;
    warmup = λ k s filled. refl;
  }

  pub obv_warms : WarmsUp {S = Obv F} Obv.methods (Obv.new) (1)
  unfolding Obv.methods Obv.new Obv.update Obv.reset Obv.is_ready Obv.warmup
  obv_warms = record {
    After = λ k s. (s.seen ≡ leb 1 k) × (s.ready ≡ leb 2 k);
    initial = (ground arith, ground arith);
    update = λ k s c (seen, ready). (ground arith, ground arith);
    reset = λ k s (seen, ready). (ground arith, ground arith);
    ready = λ k s (seen, ready). ground arith;
    warmup = λ k s (seen, ready). refl;
  }
