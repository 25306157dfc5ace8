-- ===== src/Backtest/Basket/Whole.antt =====
-- internal/backtest/basket.go: the money of a whole basket.
use alvo_backtester.Base.{
  ℕ, ◌+◌, ◌%◌, ◌<◌, ◌^◌, ◌≡◌, refl, ap, ◌∙◌, List, [], ◌∷◌, length, All, arith, word_size, add64,
  Float,
}
use alvo_backtester.Indicator.{Indicator}
use alvo_backtester.Strategy.Plan.{PlanUnit}
use alvo_backtester.Backtest.Book.{Instrument, Engine, Request}
use alvo_backtester.Backtest.Book.Timeline.{stamps_of}
use alvo_backtester.Backtest.Book.Timeline.Union.{IsAscending}
use alvo_backtester.Backtest.Ledger.{profits}
use alvo_backtester.Backtest.Closing.Whole.{IsOrderly, run_cash}
use alvo_backtester.Backtest.Basket.{run_sleeve, run_sleeves, run_basket, split_capital}
use alvo_backtester.Backtest.Basket.Split.{sum, split_capital-sum}

abbrev pub cash_of : {F S : Type 0} → List (Engine F S) → ℕ
cash_of [] = 0
cash_of (e ∷ sleeves) = e.cash + cash_of sleeves

abbrev pub profits_of : {F S : Type 0} → List (Engine F S) → ℕ
profits_of [] = 0
profits_of (e ∷ sleeves) = profits e.trades + profits_of sleeves

join :
    (cash profit share cashes gains shares : ℕ)
    → cash % word_size ≡ add64 share profit
    → cashes % word_size ≡ add64 shares gains
    → (cash + cashes) % word_size ≡ add64 (share + shares) (profit + gains)
unfolding add64
join cash profit share cashes gains shares p q = omega arith

module _ {F S : Type 0} ⦃fl : Float F⦄ ⦃ind : Indicator S F⦄ where
  run_sleeves-cash :
      (req : Request F S) (us : List (PlanUnit S)) (is : List (Instrument F)) (shares : List ℕ)
      → All (λ i. IsAscending (stamps_of i.candles)) is
      → length shares ≡ length is
      → let sleeves = run_sleeves req us is shares in
        cash_of sleeves % word_size ≡ add64 (sum shares) (profits_of sleeves)
  unfolding run_sleeves run_sleeve add64
  run_sleeves-cash req us [] [] a h = refl
  run_sleeves-cash req us [] (share ∷ shares) a h = cc
  run_sleeves-cash req us (i ∷ is) [] a h = cc
  run_sleeves-cash req us (i ∷ is) (share ∷ shares) a h =
      let e : Engine F S = run_sleeve req us i share in
      let rest = run_sleeves req e.units is shares in
      join e.cash (profits e.trades) share (cash_of rest) (profits_of rest) (sum shares)
        (run_cash (record req { instruments = i ∷ []; capital = share; units = us }) (a.0, tt))
        (run_sleeves-cash req e.units is shares a.1 (omega arith))

  -- When every instrument's bars are in the order of their stamps, and no two of one instrument
  -- have one stamp, there is an instrument, and the capital and the number of instruments are
  -- below 2 ^ 62: the sleeves of a basket that is given the capital in the shares of
  -- `splitCapital` end with cash that adds up, modulo 2 ^ 64, to the capital and the profits of
  -- all their trades.
  pub basket_cash :
      (req : Request F S)
      → IsOrderly req
      → req.capital < 2 ^ 62
      → 0 < length req.instruments
      → length req.instruments < 2 ^ 62
      → let sleeves = (run_basket req (split_capital req.capital (length req.instruments))).0 in
        cash_of sleeves % word_size ≡ add64 req.capital (profits_of sleeves)
  unfolding run_basket
  basket_cash req orderly c p k =
      let shares = split_capital req.capital (length req.instruments) in
      let (count, near, whole) = split_capital-sum req.capital (length req.instruments) c p k in
      let sleeves = run_sleeves req req.units req.instruments shares in
      run_sleeves-cash req req.units req.instruments shares orderly count
      ∙ ap (λ capital. add64 capital (profits_of sleeves)) whole
