-- ===== src/Backtest/Place.antt =====
-- internal/backtest/engine.go: no method but `advance` moves a book along its bars.
use alvo_backtester.Base.{ℕ, ◌≡◌, refl, ◌∙◌, List, arith, Float, Option-cases, inl, inr}
use alvo_backtester.Market.Bar.{Candle}
use alvo_backtester.Backtest.Broker.{Bar, Order, order_fill}
use alvo_backtester.Backtest.Book.{
  Reason, Intent, IntentKind, intent_none, intent_enter, intent_exit, Book,
}
use alvo_backtester.Backtest.Engine.{
  State, credit, settle_borrow, charge, cash_out, book_trade, record_trade, settle, carry_split,
  adjust,
}
use alvo_backtester.Backtest.Orders.{
  close_at, exit, open_at, enter, fill_intent, fill, brackets, close_out, offer, signal,
}
use alvo_backtester.Backtest.Run.{settle_bar, decide_bar}

-- A book's bars and its place among them.
abbrev pub place : {F : Type 0} → Book F → List (Candle F) × ℕ
place b = (b.candles, b.at)

module _ {F S : Type 0} ⦃fl : Float F⦄ where
  credit-place : (at : ℕ) (s : State F S) → place (credit at s).1 ≡ place s.1
  unfolding credit
  credit-place at s = ground arith

  settle_borrow-place : (cents : ℕ) (s : State F S) → place (settle_borrow cents s).1 ≡ place s.1
  unfolding settle_borrow
  settle_borrow-place cents s = ground arith

  charge-place : (at : ℕ) (s : State F S) → place (charge at s).1 ≡ place s.1
  unfolding charge settle_borrow
  charge-place at s = ground arith

  record_trade-place :
      (ts : ℕ) (price : F) (gross fee : ℕ) (reason : Reason) (s : State F S)
      → place (record_trade ts price gross fee reason s).1 ≡ place s.1
  unfolding record_trade book_trade
  record_trade-place ts price gross fee reason s = settle_borrow-place _ s

  cash_out-place :
      (shares price : F) (s : State F S) → place (cash_out shares price s).1 ≡ place s.1
  unfolding cash_out
  cash_out-place shares price s = ground arith

  settle-place :
      (c : Candle F) (price shares : F) (s : State F S)
      → place (settle c price shares s).1 ≡ place s.1
  unfolding settle
  settle-place c price shares s = record_trade-place _ _ _ _ _ _ ∙ cash_out-place shares price s

  carry_split-place :
      (factor : F) (qty : ℕ) (exact price : F) (s : State F S)
      → place (carry_split factor qty exact price s).1 ≡ place s.1
  unfolding carry_split
  carry_split-place factor qty exact price s = cash_out-place _ price s

  adjust-place : (at : ℕ) (c : Candle F) (s : State F S) → place (adjust at c s).1 ≡ place s.1
  unfolding adjust
  adjust-place at c (e, b) = grind (arith, settle-place, carry_split-place)

  close_at-place :
      (ts : ℕ) (price : F) (value fee : ℕ) (reason : Reason) (s : State F S)
      → place (close_at ts price value fee reason s).1 ≡ place s.1
  unfolding close_at
  close_at-place ts price value fee reason (e, b) = grind (arith, record_trade-place)

  exit-place :
      (c : Candle F) (bar : Bar F) (o : Order F) (reason : Reason) (s : State F S)
      → place (exit c bar o reason s).1 ≡ place s.1
  unfolding exit
  exit-place c bar o reason (e, b) = elim (Option-cases (order_fill o bar)) [
    | inl missed ↦ rw (missed, exit)
    | inr (raw, filled) ↦ rw (filled, exit) (close_at-place _ _ _ _ reason (e, b))
  ]

  enter-place :
      (c : Candle F) (want : Intent F) (s : State F S) → place (enter c want s).1 ≡ place s.1
  unfolding enter open_at order_fill
  enter-place c want s = ground arith

  fill_intent-place :
      (kind : IntentKind) (c : Candle F) (want : Intent F) (s : State F S)
      → place (fill_intent kind c want s).1 ≡ place s.1
  unfolding fill_intent
  fill_intent-place intent_none c want s = refl
  fill_intent-place intent_enter c want s = grind (arith, enter-place)
  fill_intent-place intent_exit c want s = grind (arith, exit-place)

  fill-place : (c : Candle F) (s : State F S) → place (fill c s).1 ≡ place s.1
  unfolding fill
  fill-place c (e, b) = fill_intent-place b.pending.kind c b.pending _

  brackets-place : (c : Candle F) (s : State F S) → place (brackets c s).1 ≡ place s.1
  unfolding brackets
  brackets-place c (e, b) = grind (arith, exit-place)

  signal-place : (s : State F S) → place (signal s).1 ≡ place s.1
  unfolding signal offer
  signal-place s = ground arith

  close_out-place : (c : Candle F) (s : State F S) → place (close_out c s).1 ≡ place s.1
  unfolding close_out
  close_out-place c (e, b) = grind (arith, exit-place)

  pub settle_bar-place :
      (c : Candle F) (at : ℕ) (s : State F S) → place (settle_bar c at s).1 ≡ place s.1
  unfolding settle_bar
  settle_bar-place c at s =
      brackets-place c _
      ∙ fill-place c _
      ∙ adjust-place at c _
      ∙ charge-place at _
      ∙ credit-place at s

  pub decide_bar-place :
      (c : Candle F) (at : ℕ) (s : State F S) → place (decide_bar c at s).1 ≡ place s.1
  unfolding decide_bar
  decide_bar-place c at s = grind (arith, close_out-place, signal-place)
