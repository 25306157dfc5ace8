-- ===== src/Backtest/Basket.antt =====
-- internal/backtest/basket.go: a basket, every instrument a run of its own on its share of the
-- capital, and the sum of their curves.
pub mod Split
pub mod Align
pub mod Whole
use alvo_backtester.Base.{
  ℕ, zero, suc, ◌+◌, List, [], ◌∷◌, map, leb, replicate, length, if◌then◌else◌, Float, add64,
  quot64, rem64, lt64,
}
use alvo_backtester.Indicator.{Indicator}
use alvo_backtester.Strategy.Plan.{PlanUnit}
use alvo_backtester.Backtest.Book.{Instrument, EquityPoint, Engine, Request}
use alvo_backtester.Backtest.Book.Timeline.{union_of, sort}
use alvo_backtester.Backtest.Run.{run}

-- The loop of `splitCapital`, at share `i` with `n` shares to go.
unfoldable pub shares_from : ℕ → ℕ → ℕ → ℕ → List ℕ
shares_from zero i base extra = []
shares_from (suc n) i base extra =
    (if lt64 i extra then add64 base 1 else base) ∷ shares_from n (i + 1) base extra

-- `splitCapital`
unfoldable pub split_capital : ℕ → ℕ → List ℕ
unfolding shares_from
split_capital total n = shares_from n 0 (quot64 total n) (rem64 total n)

-- The inner loop of `alignSleeve`: `own` and `values` are one list of points, the ones before `at`
-- taken off.
unfoldable pub catch_up : ℕ → ℕ → List EquityPoint → ℕ × List EquityPoint
catch_up ts last [] = (last, [])
catch_up ts last (p ∷ own) = if leb p.ts ts then catch_up ts p.cents own else (last, p ∷ own)

unfoldable pub align_from : List ℕ → ℕ → List EquityPoint → List ℕ
unfolding catch_up
align_from [] last own = []
align_from (ts ∷ stamps) last own =
    let (now, rest) = catch_up ts last own in now ∷ align_from stamps now rest

-- `alignSleeve`
unfoldable pub align_sleeve : List ℕ → List EquityPoint → ℕ → List ℕ
unfolding align_from
align_sleeve stamps own start = align_from stamps start own

-- `pointsOf`
unfoldable pub points_of : List ℕ → List ℕ → List EquityPoint
points_of (ts ∷ stamps) (c ∷ cents) = record { ts = ts; cents = c } ∷ points_of stamps cents
points_of _ _ = []

-- `total[k] += cents`, over a curve as long as the total.
unfoldable pub add_curve : List ℕ → List ℕ → List ℕ
add_curve (t ∷ total) (c ∷ curve) = add64 t c ∷ add_curve total curve
add_curve total _ = total

unfoldable pub add_curves : List ℕ → List (List ℕ) → List ℕ
unfolding add_curve
add_curves total [] = total
add_curves total (curve ∷ curves) = add_curves (add_curve total curve) curves

-- `sumAligned`
unfoldable pub sum_aligned : List (List ℕ) → List ℕ → List EquityPoint
unfolding add_curves points_of
sum_aligned curves stamps = points_of stamps (add_curves (replicate (length stamps) 0) curves)

module _ {F S : Type 0} where
  -- `unionStamps`
  unfoldable pub union_stamps : List (Engine F S) → List ℕ
  unfolding union_of sort
  union_stamps sleeves = sort (union_of (map (λ e. map (λ p. p.ts) e.equity) sleeves) [])

  -- `aligned` of `runBasket`.
  unfoldable pub aligned : List ℕ → List (Engine F S) → List ℕ → List (List ℕ)
  unfolding align_sleeve
  aligned stamps (e ∷ sleeves) (share ∷ shares) =
      align_sleeve stamps e.equity share ∷ aligned stamps sleeves shares
  aligned stamps _ _ = []

module _ {F S : Type 0} ⦃fl : Float F⦄ ⦃ind : Indicator S F⦄ where
  -- `runSleeve`, with the units of the plan as the sleeve before it left them.
  unfoldable pub run_sleeve : Request F S → List (PlanUnit S) → Instrument F → ℕ → Engine F S
  run_sleeve req us i capital =
      (run (record req { instruments = i ∷ []; capital = capital; units = us })).0

  -- The loop of `runBasket` over the instruments.
  unfoldable pub run_sleeves :
      Request F S → List (PlanUnit S) → List (Instrument F) → List ℕ → List (Engine F S)
  unfolding run_sleeve
  run_sleeves req us (i ∷ is) (share ∷ shares) =
      let e = run_sleeve req us i share in e ∷ run_sleeves req e.units is shares
  run_sleeves req us _ _ = []

  -- `runBasket`, as far as the sleeves and the curve of their sum.
  unfoldable pub run_basket : Request F S → List ℕ → List (Engine F S) × List EquityPoint
  unfolding run_sleeves union_stamps aligned sum_aligned
  run_basket req shares =
      let sleeves = run_sleeves req req.units req.instruments shares in
      let stamps = union_stamps sleeves in
      (sleeves, sum_aligned (aligned stamps sleeves shares) stamps)
