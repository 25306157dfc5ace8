-- ===== src/Market/Page/Rows.antt =====
-- internal/market/page.go: how many rows a page reads.
use Prim.Native.Nat.{max}
use alvo_backtester.Base.{ℕ, ◌+◌, ◌*◌, ◌<◌, ◌≤◌, ◌≡◌, arith, lt64, add64, mul64, word_size}
use alvo_backtester.Market.Page.{
  Timeframe, tf_5m, tf_15m, tf_30m, tf_1h, tf_1d, bucket_width, base_bars, is_derived, intraday,
  clamp_page_limit, base_row_cap,
}

clamp_bounds :
    (limit : ℕ) → limit < word_size → (1 ≤ clamp_page_limit limit) × (clamp_page_limit limit ≤ 5000)
unfolding clamp_page_limit lt64
clamp_bounds limit word = ground arith

rows_of :
    (tf : Timeframe) (limit : ℕ)
    → limit ≤ 5000
    → base_row_cap tf limit ≡ limit * max 1 (base_bars tf) + 1
unfolding base_row_cap is_derived base_bars intraday bucket_width add64 mul64 lt64
rows_of tf_5m limit h = ground arith
rows_of tf_15m limit h = ground arith
rows_of tf_30m limit h = ground arith
rows_of tf_1h limit h = ground arith
rows_of tf_1d limit h = ground arith

-- Whatever `int` is asked for, the clamped limit is between one and five thousand, and the cap on the rows to
-- read for it is one more than the limit times the stored bars that a candle of the timeframe takes, at least
-- one for each candle: neither the `int` nor the cap of an `int32` is exceeded.
pub base_row_cap-rows :
    (tf : Timeframe) (limit : ℕ)
    → limit < word_size
    → (1 ≤ clamp_page_limit limit)
      × (clamp_page_limit limit ≤ 5000)
      × (base_row_cap tf (clamp_page_limit limit)
          ≡ clamp_page_limit limit * max 1 (base_bars tf) + 1)
base_row_cap-rows tf limit word =
    let (low, high) = clamp_bounds limit word in
    (low, high, rows_of tf (clamp_page_limit limit) high)
