-- ===== src/Market/Page.antt =====
-- internal/market/timeframe.go and page.go: timeframes, and the trimming of a page of candles.
pub mod Newest
pub mod Rows
use alvo_backtester.Base.{
  ℕ, zero, suc, ◌+◌, ◌-◌, ◌*◌, ◌/◌, ◌==◌, Bool, true, false, ◌&&◌, ◌||◌, not, Option, none, some,
  List, [], ◌∷◌, map, drop, length, ltb, lt64, add64, mul64, if◌then◌else◌,
}
use alvo_backtester.Market.Bar.{Candle}

-- `type Timeframe`, the valid ones.
pub data Timeframe : Type 0 where
  tf_5m tf_15m tf_30m tf_1h tf_1d : Timeframe

-- `Timeframe.BucketWidth`, in minutes.
unfoldable pub bucket_width : Timeframe → ℕ
bucket_width tf_5m = 5
bucket_width tf_15m = 15
bucket_width tf_30m = 30
bucket_width tf_1h = 60
bucket_width tf_1d = 0

unfoldable pub intraday : Timeframe → Bool
intraday tf_1d = false
intraday _ = true

-- `Timeframe.Base`
unfoldable pub base : Timeframe → Timeframe
base tf_1d = tf_1d
base _ = tf_5m

-- `Timeframe.BaseBars`; the base bucket is five minutes.
unfoldable pub base_bars : Timeframe → ℕ
unfolding intraday bucket_width
base_bars tf = if not (intraday tf) then 0 else bucket_width tf / 5

-- `tf != tf.Base()`
unfoldable pub is_derived : Timeframe → Bool
is_derived tf_5m = false
is_derived tf_1d = false
is_derived _ = true

-- `ClampPageLimit`
unfoldable pub clamp_page_limit : ℕ → ℕ
clamp_page_limit limit = if lt64 limit 1 then 1000 else if lt64 5000 limit then 5000 else limit

abbrev pub max_int32 : ℕ
max_int32 = 2147483647

-- `baseRowCap`
unfoldable pub base_row_cap : Timeframe → ℕ → ℕ
unfolding is_derived base_bars
base_row_cap tf limit =
    let rows = if is_derived tf then add64 (mul64 limit (base_bars tf)) 1 else add64 limit 1 in
    if lt64 rows 1 || lt64 max_int32 rows then max_int32 else rows

-- The part of `Page` that `trimPage` fills; a cursor that is not set is `none`.
pub record Page (F : Type 0) : Type 0 where
  pub candles : List (Candle F)
  pub cursor : Option ℕ
  pub has_more : Bool

module _ {F : Type 0} where
  -- The first `if` of `trimPage`.
  unfoldable pub drop_oldest : Bool → List (Candle F) → List (Candle F) × Bool
  drop_oldest true (c ∷ candles) = (candles, true)
  drop_oldest _ candles = (candles, false)

  -- The second.
  unfoldable pub keep_newest : ℕ → List (Candle F) × Bool → List (Candle F) × Bool
  keep_newest limit (candles, more) =
      if ltb limit (length candles)
      then (drop (length candles - limit) candles, true)
      else (candles, more)

  unfoldable pub cursor_of : List (Candle F) → Bool → Option ℕ
  cursor_of (c ∷ candles) true = some c.ts
  cursor_of _ more = none

  -- `trimPage`
  unfoldable pub trim_page : List (Candle F) → ℕ → Bool → Page F
  unfolding drop_oldest keep_newest cursor_of
  trim_page candles limit truncated =
      let (kept, more) = keep_newest limit (drop_oldest truncated candles) in
      record { candles = kept; cursor = cursor_of kept more; has_more = more }
