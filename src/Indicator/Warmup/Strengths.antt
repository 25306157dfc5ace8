-- ===== src/Indicator/Warmup/Strengths.antt =====
-- internal/indicator: the oscillators on gains and losses, and the stochastic ones.
use Prim.Native.Nat.{max, ◌+◌, ◌-◌, ◌*◌}
use alvo_backtester.Base.{ℕ, ◌<◌, ◌≡◌, true, refl, ap, arith, leb, Float}
use alvo_backtester.Indicator.{Candle, Source}
use alvo_backtester.Indicator.Warm.{
  RingAfter, ExtremeAfter, WilderAfter, gate, gate_reset, positive, ring_new, ring_push, ring_reset,
  ring_full, extreme_new, extreme_push, extreme_reset, wilder_new, wilder_push, wilder_reset,
}
use alvo_backtester.Indicator.Warmup.{WarmsUp}
use alvo_backtester.Indicator.Ring
use alvo_backtester.Indicator.Extreme
use alvo_backtester.Indicator.Wilder
use alvo_backtester.Indicator.Rsi
use alvo_backtester.Indicator.Rsi.{Rsi}
use alvo_backtester.Indicator.Mfi
use alvo_backtester.Indicator.Mfi.{Mfi}
use alvo_backtester.Indicator.Adx
use alvo_backtester.Indicator.Adx.{Adx}
use alvo_backtester.Indicator.Stochastic
use alvo_backtester.Indicator.Stochastic.{Stochastic}
use alvo_backtester.Indicator.StochRsi
use alvo_backtester.Indicator.StochRsi.{StochRsi}

module _ {F : Type 0} ⦃fl : Float F⦄ where
  abbrev RsiLater : ℕ → ℕ → Rsi F → Type 0
  RsiLater n k s = (s.period ≡ n) × WilderAfter n k s.gains

  abbrev RsiAfter : ℕ → ℕ → Rsi F → Type 0
  RsiAfter n k s = (s.seen ≡ leb 1 k) × RsiLater n (k - 1) s

  rsi_push :
      (n k : ℕ) (s : Rsi F) (c : Candle F)
      → 0 < n
      → RsiAfter n k s
      → RsiAfter n (k + 1) (Rsi.update s c)
  unfolding Rsi.update Rsi.advance
  rsi_push n k s c p (seen, (period, gains)) =
      let gains' = wilder_push n (k - 1) s.gains _ p gains in
      (
        ground arith,
        gate (RsiLater n) s.seen _ _ 1 k (ground arith) (period, gains) (period, gains'),
      )

  rsi_reset : (n k : ℕ) (s : Rsi F) → 0 < n → RsiAfter n k s → RsiAfter n 0 (Rsi.reset s)
  unfolding Rsi.reset
  rsi_reset n k s p (seen, (period, gains)) =
      (ground arith, (period, wilder_reset n (k - 1) s.gains p gains))

  abbrev MfiAfter : ℕ → ℕ → Mfi F → Type 0
  MfiAfter n k s = (s.period ≡ n) × RingAfter n k s.positive

  pub rsi_warms :
      (n : ℕ) (source : Source) → WarmsUp {S = Rsi F} Rsi.methods (Rsi.new n source) (max n 1)
  unfolding Rsi.methods Rsi.new Rsi.update Rsi.reset Rsi.ready Rsi.warmup
  rsi_warms n source = record {
    After = λ k s. RsiAfter (max n 1) k s;
    initial = (ground arith, (refl, wilder_new F (max n 1) (positive n)));
    update = λ k s c after. let after' = rsi_push (max n 1) k s c (positive n) after in after';
    reset = λ k s after. let after' = rsi_reset (max n 1) k s (positive n) after in after';
    ready = λ k s after. ground arith;
    warmup = λ k s after. ground arith;
  }

  pub mfi_warms : (n : ℕ) → WarmsUp {S = Mfi F} Mfi.methods (Mfi.new n) (max n 1)
  unfolding Mfi.methods Mfi.new Mfi.update Mfi.reset Mfi.ready Mfi.warmup Mfi.advance
  mfi_warms n = record {
    After = λ k s. (s.seen ≡ leb 1 k) × MfiAfter (max n 1) (k - 1) s;
    initial = (ground arith, (refl, ring_new F (max n 1) (positive n)));
    update = λ k s c (seen, rest).
        let rest' =
          gate (MfiAfter (max n 1)) s.seen _ _ 1 k (ground arith) rest
            (rest.0, ring_push (max n 1) (k - 1) s.positive _ rest.1) in
        (ground arith, rest');
    reset = λ k s (seen, rest).
        (ground arith, (rest.0, ring_reset (max n 1) (k - 1) s.positive rest.1));
    ready = λ k s (seen, rest).
        let full = ring_full (max n 1) (k - 1) s.positive rest.1 in ground arith;
    warmup = λ k s (seen, rest). rest.0;
  }

  abbrev AdxAfter : ℕ → ℕ → Adx F → Type 0
  AdxAfter n k s = (s.period ≡ n) × WilderAfter n k s.span × WilderAfter n (k - (n - 1)) s.index

  adx_advance :
      (n k : ℕ) (s : Adx F) (c : Candle F)
      → 0 < n
      → AdxAfter n k s
      → AdxAfter n (k + 1) (Adx.advance s c)
  unfolding Adx.advance
  adx_advance n k s c p (period, span, index) =
      let span' = wilder_push n k s.span _ p span in
      let index' = wilder_push n (k - (n - 1)) s.index _ p index in
      (period, span', gate (WilderAfter n) _ _ _ (n - 1) k (ground arith) index index')

  pub adx_warms : (n : ℕ) → WarmsUp {S = Adx F} Adx.methods (Adx.new n) (2 * max n 1 - 1)
  unfolding Adx.methods Adx.new Adx.update Adx.reset Adx.ready Adx.warmup
  adx_warms n = record {
    After = λ k s. (s.seen ≡ leb 1 k) × AdxAfter (max n 1) (k - 1) s;
    initial = (
      ground arith,
      (
        refl,
        wilder_new F (max n 1) (positive n),
        gate_reset (WilderAfter (max n 1)) (Wilder.new (max n 1)) (max n 1 - 1)
            (wilder_new F (max n 1) (positive n)),
      ),
    );
    update = λ k s c (seen, rest).
        let rest' =
          gate (AdxAfter (max n 1)) s.seen _ _ 1 k (ground arith) rest
            (adx_advance (max n 1) (k - 1) s c (positive n) rest) in
        (ground arith, rest');
    reset = λ k s (seen, rest). (
      ground arith,
      (
        rest.0,
        wilder_reset (max n 1) (k - 1) s.span (positive n) rest.1,
        gate_reset (WilderAfter (max n 1)) (Wilder.reset s.index) (max n 1 - 1)
            (wilder_reset (max n 1) (k - 1 - (max n 1 - 1)) s.index (positive n) rest.2),
      ),
    );
    ready = λ k s (seen, rest). ground arith;
    warmup = λ k s (seen, rest). ap (λ p. 2 * p - 1) rest.0;
  }

  pub stochastic_warms :
      (size smooth d : ℕ)
      → WarmsUp {S = Stochastic F} Stochastic.methods
          (Stochastic.new size smooth d)
          (max size 1 + max smooth 1 + max d 1 - 3)
  unfolding Stochastic.methods Stochastic.new Stochastic.update Stochastic.reset Stochastic.ready
      Stochastic.warmup Ring.full Extreme.full
  stochastic_warms size smooth d = record {
    After = λ k s.
        (s.k ≡ max size 1)
        × (s.smooth ≡ max smooth 1)
        × (s.d ≡ max d 1)
        × ExtremeAfter (max size 1) k s.high
        × RingAfter (max smooth 1) (k - (max size 1 - 1)) s.fast
        × RingAfter (max d 1) (k - (max size 1 + max smooth 1 - 2)) s.slow;
    initial = (
      refl,
      refl,
      refl,
      extreme_new F (max size 1) true (positive size),
      gate_reset (RingAfter (max smooth 1)) (Ring.new (max smooth 1)) (max size 1 - 1)
          (ring_new F (max smooth 1) (positive smooth)),
      gate_reset (RingAfter (max d 1)) (Ring.new (max d 1)) (max size 1 + max smooth 1 - 2)
          (ring_new F (max d 1) (positive d)),
    );
    update = λ k s c (size_is, smooth_is, d_is, high, fast, slow).
        let high' = extreme_push (max size 1) k s.high _ high in
        let fast' =
          gate (RingAfter (max smooth 1)) _ _ _ (max size 1 - 1) k (ground arith) fast
            (ring_push (max smooth 1) (k - (max size 1 - 1)) s.fast _ fast) in
        let slow' =
          gate (RingAfter (max d 1)) _ _ _ (max size 1 + max smooth 1 - 2) k (ground arith) slow
            (ring_push (max d 1) (k - (max size 1 + max smooth 1 - 2)) s.slow _ slow) in
        (size_is, smooth_is, d_is, high', fast', slow');
    reset = λ k s (size_is, smooth_is, d_is, high, fast, slow).
        let high' = extreme_reset (max size 1) k s.high high in
        let fast' =
          gate_reset (RingAfter (max smooth 1)) (Ring.reset s.fast) (max size 1 - 1)
            (ring_reset (max smooth 1) (k - (max size 1 - 1)) s.fast fast) in
        let slow' =
          gate_reset (RingAfter (max d 1)) (Ring.reset s.slow) (max size 1 + max smooth 1 - 2)
            (ring_reset (max d 1) (k - (max size 1 + max smooth 1 - 2)) s.slow slow) in
        (size_is, smooth_is, d_is, high', fast', slow');
    ready = λ k s (size_is, smooth_is, d_is, high, fast, slow). ground arith;
    warmup = λ k s (size_is, smooth_is, d_is, high, fast, slow). ground arith;
  }

  pub stoch_rsi_warms :
      (n size smooth d : ℕ) (source : Source)
      → WarmsUp {S = StochRsi F} StochRsi.methods
          (StochRsi.new n size smooth d source)
          (max n 1 + max size 1 + max smooth 1 + max d 1 - 3)
  unfolding StochRsi.methods StochRsi.new StochRsi.update StochRsi.reset StochRsi.ready
      StochRsi.warmup Ring.full Extreme.full Rsi.new Rsi.ready Rsi.warmup
  stoch_rsi_warms n size smooth d source = record {
    After = λ k s.
        (s.stoch ≡ max size 1)
        × (s.k ≡ max smooth 1)
        × (s.d ≡ max d 1)
        × RsiAfter (max n 1) k s.rsi
        × ExtremeAfter (max size 1) (k - (max n 1)) s.high
        × RingAfter (max smooth 1) (k - (max n 1 + max size 1 - 1)) s.fast
        × RingAfter (max d 1) (k - (max n 1 + max size 1 + max smooth 1 - 2)) s.slow;
    initial = (
      refl,
      refl,
      refl,
      (ground arith, (refl, wilder_new F (max n 1) (positive n))),
      gate_reset (ExtremeAfter (max size 1)) (Extreme.new (max size 1) true) (max n 1)
          (extreme_new F (max size 1) true (positive size)),
      gate_reset (RingAfter (max smooth 1)) (Ring.new (max smooth 1)) (max n 1 + max size 1 - 1)
          (ring_new F (max smooth 1) (positive smooth)),
      gate_reset (RingAfter (max d 1)) (Ring.new (max d 1))
          (max n 1 + max size 1 + max smooth 1 - 2) (ring_new F (max d 1) (positive d)),
    );
    update = λ k s c (size_is, smooth_is, d_is, rsi, high, fast, slow).
        let rsi' = rsi_push (max n 1) k s.rsi c (positive n) rsi in
        let high' =
          gate (ExtremeAfter (max size 1)) _ _ _ (max n 1) k (ground arith) high
            (extreme_push (max size 1) (k - (max n 1)) s.high _ high) in
        let fast' =
          gate (RingAfter (max smooth 1)) _ _ _ (max n 1 + max size 1 - 1) k (ground arith) fast
            (ring_push (max smooth 1) (k - (max n 1 + max size 1 - 1)) s.fast _ fast) in
        let slow' =
          gate (RingAfter (max d 1)) _ _ _ (max n 1 + max size 1 + max smooth 1 - 2) k
            (ground arith) slow
            (ring_push (max d 1) (k - (max n 1 + max size 1 + max smooth 1 - 2)) s.slow _ slow) in
        (size_is, smooth_is, d_is, rsi', high', fast', slow');
    reset = λ k s (size_is, smooth_is, d_is, rsi, high, fast, slow).
        let rsi' = rsi_reset (max n 1) k s.rsi (positive n) rsi in
        let high' =
          gate_reset (ExtremeAfter (max size 1)) (Extreme.reset s.high) (max n 1)
            (extreme_reset (max size 1) (k - (max n 1)) s.high high) in
        let fast' =
          gate_reset (RingAfter (max smooth 1)) (Ring.reset s.fast) (max n 1 + max size 1 - 1)
            (ring_reset (max smooth 1) (k - (max n 1 + max size 1 - 1)) s.fast fast) in
        let slow' =
          gate_reset (RingAfter (max d 1)) (Ring.reset s.slow)
            (max n 1 + max size 1 + max smooth 1 - 2)
            (ring_reset (max d 1) (k - (max n 1 + max size 1 + max smooth 1 - 2)) s.slow slow) in
        (size_is, smooth_is, d_is, rsi', high', fast', slow');
    ready = λ k s (size_is, smooth_is, d_is, rsi, high, fast, slow). ground arith;
    warmup = λ k s (size_is, smooth_is, d_is, rsi, high, fast, slow). ground arith;
  }
