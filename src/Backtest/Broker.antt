-- ===== src/Backtest/Broker.antt =====
-- internal/backtest/broker.go: when an order fills, at what price, and what it costs.
pub mod Fills
use alvo_backtester.Base.{
  ℕ, ◌≡◌, Bool, true, false, ◌||◌, Option, none, some, if◌then◌else◌, Float, add64, neg64, lt64,
}
use alvo_backtester.Market.Bar.{Candle}
use alvo_backtester.Strategy.Spec.{Costs}

pub data OrderKind : Type 0 where
  order_market order_limit order_stop : OrderKind

pub data OrderSide : Type 0 where
  buy sell : OrderSide

pub record Order (F : Type 0) : Type 0 where
  pub kind : OrderKind
  pub side : OrderSide
  pub price : F

pub record Bar (F : Type 0) : Type 0 where
  pub opening : F
  pub high : F
  pub low : F
  pub close : F

unfoldable pub bar_of : {F : Type 0} → Candle F → Bar F
bar_of c = record { opening = c.opening; high = c.high; low = c.low; close = c.close }

unfoldable pub close_of : {F : Type 0} → Candle F → Bar F
close_of c = record { opening = c.close; high = c.close; low = c.close; close = c.close }

pub record Costing (F : Type 0) : Type 0 where
  pub costs : Costs F
  pub tick_size : F

is_buy : OrderSide → Bool
is_buy buy = true
is_buy sell = false

module _ {F : Type 0} ⦃fl : Float F⦄ where
  open fl use {
    decimal, of_int, to_int, add, sub, mul, div, lt, le, min, max, abs, floor, ceil, round,
  }

  unfoldable pub fill_by : OrderKind → OrderSide → F → Bar F → Option F
  fill_by order_market side price bar = some bar.opening
  fill_by order_limit buy price bar =
      if lt price bar.low then none else some (min bar.opening price)
  fill_by order_limit sell price bar =
      if lt bar.high price then none else some (max bar.opening price)
  fill_by order_stop buy price bar =
      if lt bar.high price then none else some (max bar.opening price)
  fill_by order_stop sell price bar =
      if lt price bar.low then none else some (min bar.opening price)

  -- `Order.Fill`; `none` is the result `0, false`.
  unfoldable pub order_fill : Order F → Bar F → Option F
  unfolding fill_by
  order_fill o bar = fill_by o.kind o.side o.price bar

  unfoldable pub resting : Order F → Bar F → Bool
  unfolding order_fill
  resting o bar = elim (order_fill o bar) [ none ↦ false | some p ↦ true ]

  unfoldable pub slipped : F → F → Bool → F
  slipped price bps buying =
      let move = div (mul price bps) (decimal 10000 0) in
      if buying then add price move else sub price move

  abbrev pub tick_epsilon : F
  tick_epsilon = decimal 1 9

  unfoldable pub round_tick : F → F → Bool → F
  round_tick price tick up =
      let steps = div price tick in
      let nearest = round steps in
      if le tick (decimal 0 0) || le price (decimal 0 0)
      then price
      else if le (abs (sub steps nearest)) (mul tick_epsilon (max (decimal 1 0) (abs steps)))
      then price
      else if up
      then mul (ceil steps) tick
      else mul (floor steps) tick

  slipped_by : OrderKind → F → F → OrderSide → F
  unfolding slipped is_buy
  slipped_by order_limit price bps side = price
  slipped_by _ price bps side = slipped price bps (is_buy side)

  -- `Costing.Fill`: a limit order does not slip.
  unfoldable pub costing_fill : Costing F → Order F → F → F
  unfolding slipped_by round_tick is_buy
  costing_fill c o raw =
      round_tick (slipped_by o.kind raw c.costs.slippage_bps o.side) c.tick_size (is_buy o.side)

  -- `Costing.Notional`, in cents.
  unfoldable pub notional : Costing F → ℕ → F → ℕ
  notional c qty price = to_int (round (mul (mul (of_int qty) price) (decimal 100 0)))

  -- `Costing.Fees`
  unfoldable pub fees : Costing F → ℕ → ℕ
  fees c cents =
      let size = if lt64 cents 0 then neg64 cents else cents in
      add64 c.costs.brokerage_cents
        (to_int (round (div (mul (of_int size) c.costs.fee_bps) (decimal 10000 0))))
