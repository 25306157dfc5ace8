-- ===== src/Market/Resample.antt =====
-- internal/market/candle.go and resample.go: the check of a bar, its bucket, and the folding of five-minute
-- bars. A stamp is in nanoseconds from Go's zero time. The session of a day, which rests on time zones, is
-- the argument `session_at`. An error is `none`.
pub mod Buckets
pub mod Volume
use alvo_backtester.Base.{
  ℕ, zero, suc, ◌+◌, ◌-◌, ◌*◌, ◌/◌, ◌==◌, Bool, true, false, not, ◌&&◌, ◌||◌, Option, none, some,
  List, [], ◌∷◌, ◌++◌, ltb, leb, lt64, add64, if◌then◌else◌, Float,
}
use alvo_backtester.Zone.{minute}
use alvo_backtester.Market.Bar.{Candle}
use alvo_backtester.Market.Page.{Timeframe, tf_5m, tf_15m, tf_30m, tf_1h, tf_1d, bucket_width}

-- `type Session`, less its day.
pub record Session : Type 0 where
  pub opens : ℕ
  pub closes : ℕ

-- The end of `BucketOpen`.
unfoldable pub open_in : Timeframe → Session → ℕ → Option ℕ
unfolding bucket_width
open_in tf_1d s ts = some s.opens
open_in tf s ts =
    let width = bucket_width tf * minute in
    if ltb ts s.opens || leb s.closes ts
    then none
    else some (s.opens + (ts - s.opens) / width * width)

-- `BucketOpen`
unfoldable pub bucket_open : (ℕ → Option Session) → Timeframe → ℕ → Option ℕ
unfolding open_in
bucket_open session_at tf ts = elim (session_at ts) [ none ↦ none | some s ↦ open_in tf s ts ]

unfoldable pub starts_bucket : Option ℕ → ℕ → Bool
starts_bucket none ts = false
starts_bucket (some a) ts = a == ts

-- The variables of `Resample`: `prev` is 0 before the first bar, as Go's zero time.
pub record Folding (F : Type 0) : Type 0 where
  pub out : List (Candle F)
  pub current : Candle F
  pub bucket : ℕ
  pub is_open : Bool
  pub prev : ℕ

module _ {F : Type 0} where
  -- `flush`, less the reset of `is_open`, which the caller sets or no longer reads.
  unfoldable pub flushed : Folding F → List (Candle F)
  flushed f = if f.is_open then f.out ++ (f.current ∷ []) else f.out

  unfoldable pub latest : Option F → Option F → Option F
  latest old none = old
  latest old (some value) = some value

module _ {F : Type 0} ⦃fl : Float F⦄ where
  open fl use {decimal, lt, le, min, max}

  unfoldable pub is_unpriced : Option F → Bool
  is_unpriced none = false
  is_unpriced (some value) = le value (decimal 0 0)

  -- `Validate`: whether there is no error.
  unfoldable pub is_valid : Candle F → Bool
  unfolding is_unpriced
  is_valid c =
      not (c.ts == 0)
      && not (
          le c.opening (decimal 0 0)
          || le c.high (decimal 0 0)
          || le c.low (decimal 0 0)
          || le c.close (decimal 0 0))
      && not (lt c.high c.low)
      && not (lt c.high c.opening || lt c.high c.close)
      && not (lt c.opening c.low || lt c.close c.low)
      && not (is_unpriced c.adj_close)
      && not (lt64 c.volume 0)

  unfoldable pub begun : ℕ → Candle F → Candle F
  begun start c = record {
    ts = start;
    opening = c.opening;
    high = c.high;
    low = c.low;
    close = decimal 0 0;
    adj_close = none;
    volume = 0;
  }

  -- The last five statements of the loop.
  unfoldable pub merged : Candle F → Candle F → Candle F
  unfolding latest
  merged current c = record current {
    high = max current.high c.high;
    low = min current.low c.low;
    close = c.close;
    adj_close = latest current.adj_close c.adj_close;
    volume = add64 current.volume c.volume;
  }

  -- The body of the loop once the bucket is known: a bar of a new bucket, and one of the bucket that is
  -- open.
  unfoldable pub opened : Folding F → Candle F → ℕ → Folding F
  unfolding flushed begun merged
  opened f c start = record {
    out = flushed f;
    current = merged (begun start c) c;
    bucket = start;
    is_open = true;
    prev = c.ts;
  }

  unfoldable pub extended : Folding F → Candle F → Folding F
  unfolding merged
  extended f c = record f { current = merged f.current c; prev = c.ts }

  unfoldable pub fold_into : Folding F → Candle F → ℕ → Folding F
  unfolding opened extended
  fold_into f c start =
      if not f.is_open || not (start == f.bucket) then opened f c start else extended f c

  unfoldable pub placed : Folding F → Candle F → Option ℕ → Option (Folding F)
  unfolding fold_into
  placed f c none = none
  placed f c (some start) = some (fold_into f c start)

  -- The body of the loop.
  unfoldable pub fold_bar :
      (ℕ → Option Session) → Timeframe → Folding F → Candle F → Option (Folding F)
  unfolding placed starts_bucket
  fold_bar session_at target f c =
      if not (is_valid c)
        || not (f.prev == 0) && leb c.ts f.prev
        || not (starts_bucket (bucket_open session_at tf_5m c.ts) c.ts)
      then none
      else placed f c (bucket_open session_at target c.ts)

  unfoldable pub fold_bars :
      (ℕ → Option Session)
      → Timeframe
      → Option (Folding F)
      → List (Candle F)
      → Option (List (Candle F))
  unfolding fold_bar flushed
  fold_bars session_at target none cs = none
  fold_bars session_at target (some f) [] = some (flushed f)
  fold_bars session_at target (some f) (c ∷ cs) =
      fold_bars session_at target (fold_bar session_at target f c) cs

  unfoldable pub nothing_yet : Folding F
  nothing_yet = record {
    out = [];
    current = record {
      ts = 0;
      opening = decimal 0 0;
      high = decimal 0 0;
      low = decimal 0 0;
      close = decimal 0 0;
      adj_close = none;
      volume = 0;
    };
    bucket = 0;
    is_open = false;
    prev = 0;
  }

  unfoldable pub resample :
      (ℕ → Option Session) → Timeframe → List (Candle F) → Option (List (Candle F))
  unfolding fold_bars nothing_yet
  resample session_at tf_1d cs = none
  resample session_at target cs = fold_bars session_at target (some nothing_yet) cs
