-- ===== src/Backtest/Sizing.antt =====
-- internal/backtest/sizing.go: how many shares an entry buys or sells.
pub mod Fits
use alvo_backtester.Base.{
  ℕ, zero, suc, Bool, true, false, ◌&&◌, ◌||◌, if◌then◌else◌, Float, add64, sub64, mul64, quot64,
  lt64, le64, min64, max64,
}
use alvo_backtester.Strategy.Spec.{
  Sizing, SizingType, size_fixed_qty, size_pct_equity, size_fixed_cash, size_risk_pct,
}
use alvo_backtester.Backtest.Broker.{Costing, notional, fees}

module _ {F : Type 0} ⦃fl : Float F⦄ where
  open fl use {decimal, of_int, to_int, add, mul, div, le, floor, round}

  unfoldable pub shares_for : ℕ → F → ℕ
  shares_for cents price =
      if lt64 cents 1 || le price (decimal 0 0)
      then 0
      else to_int (floor (div (of_int cents) (mul price (decimal 100 0))))

  -- What the quantity costs, fees included.
  unfoldable pub cost : Costing F → ℕ → F → ℕ
  cost c qty price = let n = notional c qty price in add64 n (fees c n)

  unfoldable pub affordable : ℕ → Costing F → F → ℕ
  affordable cash c price =
      let budget = of_int (sub64 cash c.costs.brokerage_cents) in
      let unit =
        mul (mul price (decimal 100 0))
          (add (decimal 1 0) (div c.costs.fee_bps (decimal 10000 0))) in
      if le budget (decimal 0 0) || le unit (decimal 0 0)
      then 0
      else to_int (floor (div budget unit))

  -- The quantity that the sizing of the strategy asks for.
  unfoldable pub wanted : SizingType → F → ℕ → F → F → ℕ
  unfolding shares_for
  wanted size_fixed_qty value cash price stop = to_int value
  wanted size_pct_equity value cash price stop =
      shares_for (to_int (round (mul (of_int cash) value))) price
  wanted size_fixed_cash value cash price stop = shares_for (to_int value) price
  wanted size_risk_pct value cash price stop =
      if le stop (decimal 0 0)
      then 0
      else to_int (floor (div (div (mul (of_int cash) value) (decimal 100 0)) stop))

  -- `for qty > 0 && e.cost(b, qty, price) > e.cash { qty -= lot }`, on fuel.
  unfoldable pub shrink : ℕ → ℕ → ℕ → Costing F → F → ℕ → ℕ
  shrink zero cash lot c price qty = qty
  shrink (suc fuel) cash lot c price qty =
      let rest = shrink fuel cash lot c price (sub64 qty lot) in
      if lt64 0 qty && lt64 cash (cost c qty price) then rest else qty

  -- `engine.size`, from the cash, the lot of the symbol, the costs, the price and the distance of
  -- the stop. A round takes off one share at least, so the quantity is fuel enough.
  unfoldable pub size : Sizing F → ℕ → ℕ → Costing F → F → F → ℕ
  unfolding wanted affordable shrink
  size sizing cash lot_size c price stop =
      let lot = max64 lot_size 1 in
      let capped =
        min64 (wanted sizing.kind sizing.value cash price stop) (affordable cash c price) in
      let lots = mul64 (quot64 capped lot) lot in
      if le price (decimal 0 0) then 0 else max64 (shrink lots cash lot c price lots) 0
