-- ===== src/Market/Resample/Volume.antt =====
-- internal/market/resample.go: the volume of folded bars.
use alvo_backtester.Base.{
  ℕ, ◌+◌, ◌%◌, ◌==◌, ◌≡◌, refl, arith, Bool, true, false, not, ◌||◌, Option, none, some, List, [],
  ◌∷◌, ◌++◌, add64, word_size, if◌then◌else◌, Float,
}
use alvo_backtester.Market.Bar.{Candle}
use alvo_backtester.Market.Page.{Timeframe, tf_5m, tf_15m, tf_30m, tf_1h, tf_1d}
use alvo_backtester.Market.Resample.{
  Session, Folding, flushed, begun, merged, fold_into, opened, extended, placed, fold_bar,
  fold_bars, nothing_yet, resample, bucket_open,
}

module _ {F : Type 0} where
  abbrev pub volume_of : List (Candle F) → ℕ
  volume_of [] = 0
  volume_of (c ∷ cs) = c.volume + volume_of cs

  volume_of-snoc :
      (cs : List (Candle F)) (c : Candle F) → volume_of (cs ++ (c ∷ [])) ≡ volume_of cs + c.volume
  volume_of-snoc [] c = omega arith
  volume_of-snoc (d ∷ cs) c = let rest = volume_of-snoc cs c in omega arith

module _ {F : Type 0} ⦃fl : Float F⦄ where
  opened-volume :
      (f : Folding F) (c : Candle F) (start : ℕ)
      → volume_of (flushed (opened f c start)) % word_size
        ≡ (volume_of (flushed f) + c.volume) % word_size
  unfolding opened flushed merged begun add64
  opened-volume f c start =
      let out = volume_of-snoc (flushed f) (merged (begun start c) c) in omega (arith, out)

  extended-volume :
      (f : Folding F) (c : Candle F)
      → f.is_open ≡ true
      → volume_of (flushed (extended f c)) % word_size
        ≡ (volume_of (flushed f) + c.volume) % word_size
  unfolding extended flushed merged add64
  extended-volume f c some_open =
      let more = volume_of-snoc f.out (merged f.current c) in
      let was = volume_of-snoc f.out f.current in simp (some_open) (omega (arith, more, was))

  either-volume :
      (f : Folding F) (c : Candle F) (start : ℕ) (new : Bool)
      → (new ≡ false → f.is_open ≡ true)
      → volume_of (flushed (if new then opened f c start else extended f c)) % word_size
        ≡ (volume_of (flushed f) + c.volume) % word_size
  either-volume f c start true h = opened-volume f c start
  either-volume f c start false h = extended-volume f c (h refl)

  fold_into-volume :
      (f : Folding F) (c : Candle F) (start : ℕ)
      → volume_of (flushed (fold_into f c start)) % word_size
        ≡ (volume_of (flushed f) + c.volume) % word_size
  unfolding fold_into
  fold_into-volume f c start =
      either-volume f c start (not f.is_open || not (start == f.bucket)) (λ e. ground arith)

  -- A fold, if there is one, holds so much volume.
  abbrev Holds : ℕ → Option (Folding F) → Type 0
  Holds n none = Unit
  Holds n (some f) = volume_of (flushed f) % word_size ≡ n % word_size

  abbrev Trades : ℕ → Option (List (Candle F)) → Type 0
  Trades n none = Unit
  Trades n (some out) = volume_of out % word_size ≡ n % word_size

  placed-Holds :
      (n : ℕ) (f : Folding F) (c : Candle F) (start : Option ℕ)
      → Holds n (some f)
      → Holds (n + c.volume) (placed f c start)
  unfolding placed
  placed-Holds n f c none h = tt
  placed-Holds n f c (some start) h =
      let step = fold_into-volume f c start in omega (arith, step, h)

  unless-Holds :
      (n : ℕ) (fails : Bool) (o : Option (Folding F))
      → Holds n o
      → Holds n (if fails then none else o)
  unless-Holds n true o h = tt
  unless-Holds n false o h = h

  fold_bar-Holds :
      (session_at : ℕ → Option Session) (target : Timeframe) (n : ℕ) (f : Folding F) (c : Candle F)
      → Holds n (some f)
      → Holds (n + c.volume) (fold_bar session_at target f c)
  unfolding fold_bar
  fold_bar-Holds session_at target n f c h =
      unless-Holds (n + c.volume) _ _ (placed-Holds n f c (bucket_open session_at target c.ts) h)

  fold_bars-Trades :
      (session_at : ℕ → Option Session) (target : Timeframe) (cs : List (Candle F)) (n : ℕ)
      (o : Option (Folding F))
      → Holds n o
      → Trades (n + volume_of cs) (fold_bars session_at target o cs)
  unfolding fold_bars
  fold_bars-Trades session_at target cs n none h = tt
  fold_bars-Trades session_at target [] n (some f) h =
      let same : n + 0 ≡ n = omega arith in rw same h
  fold_bars-Trades session_at target (c ∷ cs) n (some f) h =
      let step = fold_bar-Holds session_at target n f c h in
      let same : n + c.volume + volume_of cs ≡ n + volume_of (c ∷ cs) = omega arith in
      rw same at
        (fold_bars-Trades session_at target cs (n + c.volume) (fold_bar session_at target f c) step)

  resample-Trades :
      (session_at : ℕ → Option Session) (target : Timeframe) (cs : List (Candle F))
      → Trades (0 + volume_of cs) (resample session_at target cs)
  unfolding resample nothing_yet flushed
  resample-Trades session_at tf_1d cs = tt
  resample-Trades session_at tf_5m cs =
      fold_bars-Trades session_at tf_5m cs 0 (some nothing_yet) refl
  resample-Trades session_at tf_15m cs =
      fold_bars-Trades session_at tf_15m cs 0 (some nothing_yet) refl
  resample-Trades session_at tf_30m cs =
      fold_bars-Trades session_at tf_30m cs 0 (some nothing_yet) refl
  resample-Trades session_at tf_1h cs =
      fold_bars-Trades session_at tf_1h cs 0 (some nothing_yet) refl

  -- Folding bars into longer ones keeps their volume: what the longer bars trade together is what the bars
  -- trade together, but for multiples of 2 ^ 64.
  pub resample-volume :
      (session_at : ℕ → Option Session) (target : Timeframe) (cs out : List (Candle F))
      → resample session_at target cs ≡ some out
      → volume_of out % word_size ≡ volume_of cs % word_size
  resample-volume session_at target cs out e =
      let all : Trades (0 + volume_of cs) (some out) =
        rw e at (resample-Trades session_at target cs) in
      omega (arith, all)
