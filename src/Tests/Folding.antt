-- ===== src/Tests/Folding.antt =====
-- The theorems on buckets and on folding, applied to three five-minute bars in two buckets of a quarter of
-- an hour.
use alvo_backtester.Base.{
  ℕ, ◌+◌, ◌*◌, ◌%◌, ◌<◌, ◌≤◌, ◌≡◌, refl, Option, some, none, List, [], ◌∷◌, length, add64, lt64,
  word_size, Hundredths, hundredths,
}
use alvo_backtester.Zone.{minute}
use alvo_backtester.Market.Bar.{Candle}
use alvo_backtester.Market.Page.{tf_15m, bucket_width, intraday}
use alvo_backtester.Market.Resample.{
  Session, open_in, bucket_open, starts_bucket, flushed, latest, is_unpriced, is_valid, begun,
  merged, opened, extended, fold_into, placed, fold_bar, fold_bars, nothing_yet, resample,
}
use alvo_backtester.Market.Resample.Volume.{volume_of, resample-volume}
use alvo_backtester.Market.Resample.Buckets.{open_in_bucket}
use alvo_backtester.Tests.Sample.{cents}

abbrev short_session : Session
short_session = record { opens = 570 * minute; closes = 600 * minute }

abbrev five : ℕ → ℕ → Candle Hundredths
five at traded = record {
  ts = at * minute;
  opening = cents 1000;
  high = cents 1200;
  low = cents 900;
  close = cents 1100;
  adj_close = none;
  volume = traded;
}

abbrev fives : List (Candle Hundredths)
fives = five 570 4 ∷ five 580 5 ∷ five 585 6 ∷ []

abbrev or_none : Option (List (Candle Hundredths)) → List (Candle Hundredths)
or_none none = []
or_none (some out) = out

abbrev quarters : List (Candle Hundredths)
quarters = or_none (resample (λ ts. some short_session) tf_15m fives)

fives_fold : resample (λ ts. some short_session) tf_15m fives ≡ some quarters
unfolding resample fold_bars fold_bar placed fold_into opened extended flushed begun merged latest
    is_valid is_unpriced starts_bucket bucket_open open_in bucket_width nothing_yet add64 lt64
fives_fold = refl

two_quarters : length quarters ≡ 2
unfolding resample fold_bars fold_bar placed fold_into opened extended flushed begun merged latest
    is_valid is_unpriced starts_bucket bucket_open open_in bucket_width nothing_yet add64 lt64
two_quarters = refl

resample-volume_example : volume_of quarters % word_size ≡ volume_of fives % word_size
resample-volume_example =
    resample-volume (λ ts. some short_session) tf_15m fives quarters fives_fold

within : open_in tf_15m short_session (588 * minute) ≡ some (585 * minute)
unfolding open_in bucket_width
within = refl

open_in_bucket_example :
    (short_session.opens ≤ 585 * minute)
    × (585 * minute ≤ 588 * minute)
    × (588 * minute < 585 * minute + bucket_width tf_15m * minute)
    × (588 * minute < short_session.closes)
    × (open_in tf_15m short_session (585 * minute) ≡ some (585 * minute))
unfolding intraday
open_in_bucket_example =
    open_in_bucket tf_15m short_session (588 * minute) (585 * minute) refl within
