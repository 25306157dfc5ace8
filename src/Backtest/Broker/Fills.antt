-- ===== src/Backtest/Broker/Fills.antt =====
-- internal/backtest/broker.go: the price at which an order fills.
use mathlib.Core.Option.{some-injective}
use alvo_backtester.Base.{
  ◌≡◌, refl, sym, Bool, true, false, none, some, arith, Float, ◌≼◌, IsOrdered, if◌then◌else◌,
}
use alvo_backtester.Backtest.Broker.{
  Order, OrderKind, OrderSide, Bar, order_limit, order_stop, order_market, buy, sell, order_fill,
  fill_by,
}

-- The open of the bar lies between its low and its high.
abbrev pub IsBar : {F : Type 0} ⦃fl : Float F⦄ → Bar F → Type 0
IsBar bar = (bar.low ≼ bar.opening) × (bar.opening ≼ bar.high)

-- A limit order fills at its price or better, a stop order at its price or worse.
abbrev pub Honours : {F : Type 0} ⦃fl : Float F⦄ → OrderKind → OrderSide → F → F → Type 0
Honours order_market side price p = Unit
Honours order_limit buy price p = p ≼ price
Honours order_limit sell price p = price ≼ p
Honours order_stop buy price p = price ≼ p
Honours order_stop sell price p = p ≼ price

filled :
    {F : Type 0} (missed : Bool) (x p : F)
    → (if missed then none else some x) ≡ some p
    → (missed ≡ false) × (x ≡ p)
filled true x p e = cc
filled false x p e = (refl, some-injective _ _ e)

module _ {F : Type 0} ⦃fl : Float F⦄ (ord : IsOrdered F) where
  open fl use {lt, le, min, max}
  open ord use {
    refl_of_le, le_trans, lt-eq-not-le, min-le_left, min-le_right, le-min, le-max_left,
    le-max_right, max-le,
  }

  abbrev Within : Bar F → F → Type 0
  Within bar p = (bar.low ≼ p) × (p ≼ bar.high)

  not_lt : (x y : F) → x ≼ x → y ≼ y → lt x y ≡ false → y ≼ x
  not_lt x y px py h = ground (arith, lt-eq-not-le x y px py)

  lower_fill :
      (bar : Bar F) (price p : F)
      → IsBar bar
      → price ≼ price
      → (if lt price bar.low then none else some (min bar.opening price)) ≡ some p
      → Within bar p × (p ≼ price)
  lower_fill bar price p (low, high) self e =
      let (met, is) = filled (lt price bar.low) (min bar.opening price) p e in
      let reached = not_lt price bar.low self (refl_of_le bar.low bar.opening low).0 met in
      let op = (refl_of_le bar.low bar.opening low).1 in
      rw (sym is) (
        (
          le-min bar.opening price bar.low low reached,
          le_trans (min bar.opening price) bar.opening bar.high
              (min-le_left bar.opening price op self) high,
        ),
        min-le_right bar.opening price op self,
      )

  upper_fill :
      (bar : Bar F) (price p : F)
      → IsBar bar
      → price ≼ price
      → (if lt bar.high price then none else some (max bar.opening price)) ≡ some p
      → Within bar p × (price ≼ p)
  upper_fill bar price p (low, high) self e =
      let (met, is) = filled (lt bar.high price) (max bar.opening price) p e in
      let reached = not_lt bar.high price (refl_of_le bar.opening bar.high high).1 self met in
      let op = (refl_of_le bar.low bar.opening low).1 in
      rw (sym is) (
        (
          le_trans bar.low bar.opening (max bar.opening price) low
              (le-max_left bar.opening price op self),
          max-le bar.opening price bar.high high reached,
        ),
        le-max_right bar.opening price op self,
      )

  fill_by-bounds :
      (kind : OrderKind) (side : OrderSide) (price p : F) (bar : Bar F)
      → IsBar bar
      → price ≼ price
      → fill_by kind side price bar ≡ some p
      → Within bar p × Honours kind side price p
  unfolding fill_by
  fill_by-bounds order_market side price p bar within self e =
      let is : bar.opening ≡ p = some-injective _ _ e in rw (sym is) (within, tt)
  fill_by-bounds order_limit buy price p bar within self e = lower_fill bar price p within self e
  fill_by-bounds order_limit sell price p bar within self e = upper_fill bar price p within self e
  fill_by-bounds order_stop buy price p bar within self e = upper_fill bar price p within self e
  fill_by-bounds order_stop sell price p bar within self e = lower_fill bar price p within self e

-- On a bar whose open lies between its low and its high, an order with a price that is a number
-- fills at a price between the bar's low and high; a limit order fills at its own price or better,
-- and a stop order at its own price or worse.
pub order_fill-bounds :
    {F : Type 0} ⦃fl : Float F⦄ (ord : IsOrdered F) (o : Order F) (bar : Bar F) (p : F)
    → IsBar bar
    → o.price ≼ o.price
    → order_fill o bar ≡ some p
    → ((bar.low ≼ p) × (p ≼ bar.high)) × Honours o.kind o.side o.price p
unfolding order_fill
order_fill-bounds ord o bar p within self e =
    fill_by-bounds ord o.kind o.side o.price p bar within self e
