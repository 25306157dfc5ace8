-- ===== src/Market/Resample/Buckets.antt =====
-- internal/market/candle.go: where the bucket of an instant opens.
use alvo_backtester.Base.{
  ℕ, ◌+◌, ◌-◌, ◌*◌, ◌/◌, ◌<◌, ◌≤◌, ◌≡◌, refl, ap, arith, Bool, true, false, ◌||◌, Option, none,
  some, ltb, leb, if◌then◌else◌,
}
use alvo_backtester.Zone.{minute}
use alvo_backtester.Market.Page.{
  Timeframe, tf_5m, tf_15m, tf_30m, tf_1h, tf_1d, bucket_width, intraday,
}
use alvo_backtester.Market.Resample.{Session, open_in}

-- The bucket of a width that an instant of a session is in.
abbrev of_width : ℕ → Session → ℕ → Option ℕ
of_width width s ts =
    if ltb ts s.opens || leb s.closes ts
    then none
    else some (s.opens + (ts - s.opens) / width * width)

-- The bucket opens in the session, at the instant or before it and less than its width before, and it
-- is the bucket of its own opening.
abbrev pub IsBucket : ℕ → Timeframe → Session → ℕ → Option ℕ → Type 0
IsBucket width tf s ts none = Unit
IsBucket width tf s ts (some b) =
    (s.opens ≤ b) × (b ≤ ts) × (ts < b + width) × (ts < s.closes) × (open_in tf s b ≡ some b)

outside :
    (b : Bool) (width : ℕ) (tf : Timeframe) (s : Session) (ts at : ℕ)
    → (b ≡ false → IsBucket width tf s ts (some at))
    → IsBucket width tf s ts (if b then none else some at)
outside true width tf s ts at h = tt
outside false width tf s ts at h = h refl

some_if : (b : Bool) (at to : ℕ) → b ≡ false → at ≡ to → (if b then none else some at) ≡ some to
some_if true at to e same = absurd (ground arith)
some_if false at to e same = ap some same

open_in-IsBucket :
    (tf : Timeframe) (s : Session) (ts : ℕ)
    → intraday tf ≡ true
    → IsBucket (bucket_width tf * minute) tf s ts (open_in tf s ts)
unfolding open_in bucket_width intraday
open_in-IsBucket tf_1d s ts h = absurd (ground arith)
open_in-IsBucket tf_5m s ts h = outside _ (5 * minute) tf_5m s ts _ (λ e. (
  ground arith,
  ground arith,
  ground arith,
  ground arith,
  some_if _ _ _ (ground arith) (ground arith),
))
open_in-IsBucket tf_15m s ts h = outside _ (15 * minute) tf_15m s ts _ (λ e. (
  ground arith,
  ground arith,
  ground arith,
  ground arith,
  some_if _ _ _ (ground arith) (ground arith),
))
open_in-IsBucket tf_30m s ts h = outside _ (30 * minute) tf_30m s ts _ (λ e. (
  ground arith,
  ground arith,
  ground arith,
  ground arith,
  some_if _ _ _ (ground arith) (ground arith),
))
open_in-IsBucket tf_1h s ts h = outside _ (60 * minute) tf_1h s ts _ (λ e. (
  ground arith,
  ground arith,
  ground arith,
  ground arith,
  some_if _ _ _ (ground arith) (ground arith),
))

-- The bucket of an instant inside a session, at a timeframe below a day, opens in the session, at the
-- instant or before it and less than a bucket's width before it, and the opening of that bucket is in the
-- same bucket. The instant is before the close of the session.
pub open_in_bucket :
    (tf : Timeframe) (s : Session) (ts b : ℕ)
    → intraday tf ≡ true
    → open_in tf s ts ≡ some b
    → (s.opens ≤ b)
      × (b ≤ ts)
      × (ts < b + bucket_width tf * minute)
      × (ts < s.closes)
      × (open_in tf s b ≡ some b)
open_in_bucket tf s ts b h e =
    let it : IsBucket (bucket_width tf * minute) tf s ts (some b) =
      rw e at (open_in-IsBucket tf s ts h) in
    it
