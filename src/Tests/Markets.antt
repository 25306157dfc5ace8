-- ===== src/Tests/Markets.antt =====
-- The theorems on pages and on grids, applied.
use Prim.Native.Nat.{max}
use alvo_backtester.Base.{
  ℕ, String, arith, some, none, hundredths, Hundredths, List, [], ◌∷◌, ◌≡◌, ◌+◌, ◌*◌, ◌≤◌, ◌<◌,
  true, false, length,
}
use alvo_backtester.Market.Page.{Page, trim_page, tf_1h, base_bars, clamp_page_limit, base_row_cap}
use alvo_backtester.Market.Page.Rows.{base_row_cap-rows}
use alvo_backtester.Market.Page.Newest.{Suffix, trim_page-newest}
use alvo_backtester.Sweep.Grid.{Axis, Point, sizes, max_points, grid}
use alvo_backtester.Sweep.Grid.Odometer.{product}
use alvo_backtester.Sweep.Grid.Count.{Numbered, grid-Numbered}
use alvo_backtester.Sweep.Folds.Days.{Tiles}
use alvo_backtester.Tests.Sample.{cents, first_bars}

abbrev sample_page : Page Hundredths
sample_page = trim_page first_bars 3 true

trim_page-newest_example :
    (length sample_page.candles ≤ 3)
    × Suffix first_bars sample_page.candles
    × (sample_page.has_more ≡ false → sample_page.candles ≡ first_bars)
    × (sample_page.has_more ≡ true → length sample_page.candles < length first_bars)
trim_page-newest_example = trim_page-newest first_bars 3 true

abbrev two_axes : List (Axis Hundredths)
two_axes =
    record { path = "/sizing/value"; values = cents 100 ∷ cents 200 ∷ [] }
    ∷ record {
      path = "/inputs/fast/params/period";
      values = cents 500 ∷ cents 1000 ∷ cents 1500 ∷ [];
    }
    ∷ []

abbrev chosen : List (String × Hundredths) → ℕ
chosen values = length values

grid-Numbered_example :
    (product (sizes two_axes) ≤ max_points
      → (points : List (Point Hundredths ℕ)) × (grid (λ v. some (chosen v)) two_axes ≡ some points)
        × (length points ≡ product (sizes two_axes))
        × Numbered 0 two_axes points)
    × (max_points < product (sizes two_axes) → grid (λ v. some (chosen v)) two_axes ≡ none)
grid-Numbered_example = grid-Numbered chosen two_axes (ground arith)

base_row_cap-rows_example :
    (1 ≤ clamp_page_limit 9000)
    × (clamp_page_limit 9000 ≤ 5000)
    × (base_row_cap tf_1h (clamp_page_limit 9000)
        ≡ clamp_page_limit 9000 * max 1 (base_bars tf_1h) + 1)
base_row_cap-rows_example = base_row_cap-rows tf_1h 9000 (omega arith)
