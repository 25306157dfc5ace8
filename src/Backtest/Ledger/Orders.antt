-- ===== src/Backtest/Ledger/Orders.antt =====
-- internal/backtest/engine.go: entries and exits keep the balance.
use alvo_backtester.Base.{
  ℕ, ◌≡◌, refl, Bool, true, false, arith, if◌then◌else◌, Float, add64, sub64, ◌&&◌, neg64,
  Option-cases, inl, inr,
}
use alvo_backtester.Market.Bar.{Candle}
use alvo_backtester.Backtest.Broker.{
  Bar, Order, order_fill, resting, costing_fill, notional, fees, buy, sell, bar_of, close_of,
}
use alvo_backtester.Backtest.Sizing.{size}
use alvo_backtester.Backtest.Book.{
  Reason, reason_signal, reason_stop, reason_target, reason_end_of_run, Intent, Metrics, Engine,
  Book, no_intent, IntentKind, intent_none, intent_enter, intent_exit,
}
use alvo_backtester.Backtest.Engine.{State}
use alvo_backtester.Backtest.Orders.{
  close_at, exit, open_at, skipped, stop_order, target_order, count_ambiguous, enter, fill,
  fill_intent, brackets, close_out, offer, signal, market_order, closing_side, distance,
}
use alvo_backtester.Backtest.Ledger.{carried, balance, record_trade-balance}

module _ {F S : Type 0} ⦃fl : Float F⦄ where
  -- `engine.exit` moves the value of the position less the fee into the cash, and the trade that it
  -- records has the same in its profit.
  close_at-balance :
      (ts : ℕ) (price : F) (value fee : ℕ) (reason : Reason) (s : State F S)
      → s.1.pos.is_open ≡ true
      → balance (close_at ts price value fee reason s) ≡ balance s
  unfolding close_at balance add64 sub64 neg64
  close_at-balance ts price value fee reason (e, b) h =
      let bought : State F S = (record e { cash = sub64 e.cash (add64 value fee) }, b) in
      let sold : State F S = (record e { cash = add64 e.cash (sub64 value fee) }, b) in
      ground (
        arith,
        record_trade-balance ts price (sub64 b.pos.entry_cents value) fee reason bought h,
        record_trade-balance ts price (sub64 value b.pos.entry_cents) fee reason sold h,
      )

  exit-balance :
      (c : Candle F) (bar : Bar F) (o : Order F) (reason : Reason) (s : State F S)
      → s.1.pos.is_open ≡ true
      → balance (exit c bar o reason s) ≡ balance s
  unfolding exit
  exit-balance c bar o reason (e, b) h = elim (Option-cases (order_fill o bar)) [
    | inl missed ↦ rw (missed, exit)
    | inr (raw, filled) ↦ rw (filled, exit) (close_at-balance c.ts _ _ _ reason (e, b) h)
  ]

  open_at-balance :
      (ts : ℕ) (price : F) (qty value fee : ℕ) (want : Intent F) (s : State F S)
      → s.1.pos.is_open ≡ false
      → balance (open_at ts price qty value fee want s) ≡ balance s
  unfolding open_at balance carried add64 sub64
  open_at-balance ts price qty value fee want s h = ground arith

  metrics-balance :
      (m : Metrics) (e : Engine F S) (b : Book F)
      → balance (record e { metrics = m }, b) ≡ balance (e, b)
  unfolding balance
  metrics-balance m e b = refl

  enter-balance :
      (c : Candle F) (want : Intent F) (s : State F S)
      → s.1.pos.is_open ≡ false
      → balance (enter c want s) ≡ balance s
  unfolding enter order_fill bar_of
  enter-balance c want (e, b) h =
      let order : Order F = market_order (if want.short then sell else buy) in
      let price = costing_fill b.costing order c.opening in
      let qty =
        size e.plan.sizing e.cash b.symbol.lot_size b.costing price (distance want.stop price) in
      let value = notional b.costing qty price in
      ground (
        arith,
        metrics-balance
            (skipped
              (record (e.metrics) { shorts_unavailable = add64 e.metrics.shorts_unavailable 1 }))
            e b,
        metrics-balance (skipped e.metrics) e b,
        open_at-balance c.ts price qty value (fees b.costing value) want (e, b) h,
      )

  fill_intent-balance :
      (kind : IntentKind) (c : Candle F) (want : Intent F) (s : State F S)
      → balance (fill_intent kind c want s) ≡ balance s
  unfolding fill_intent
  fill_intent-balance intent_none c want s = refl
  fill_intent-balance intent_enter c want s = ground (arith, enter-balance c want s)
  fill_intent-balance intent_exit c want s =
      ground (
        arith,
        exit-balance c (bar_of c) (market_order (closing_side s.1.pos.short)) reason_signal s,
      )

  -- Whatever becomes of the order that is pending, filling it leaves the cash, less the profits of the
  -- closed trades and what the open position has moved in the cash, as it was.
  pub fill-balance : (c : Candle F) (s : State F S) → balance (fill c s) ≡ balance s
  unfolding fill balance
  fill-balance c (e, b) = fill_intent-balance b.pending.kind c b.pending _

  count_ambiguous-balance :
      (both : Bool) (e : Engine F S) (b : Book F)
      → balance (count_ambiguous both e, b) ≡ balance (e, b)
  unfolding count_ambiguous balance
  count_ambiguous-balance true e b = refl
  count_ambiguous-balance false e b = refl

  -- Whether the stop, the target or neither is met, the brackets leave the cash, less the profits of
  -- the closed trades and what the open position has moved in the cash, as it was.
  pub brackets-balance : (c : Candle F) (s : State F S) → balance (brackets c s) ≡ balance s
  unfolding brackets
  brackets-balance c (e, b) =
      let bar = bar_of c in
      let stop = stop_order b.pos in
      let target = target_order b.pos in
      let hit_stop = fl.lt (fl.decimal 0 0) b.pos.stop && resting stop bar in
      let hit_target = fl.lt (fl.decimal 0 0) b.pos.target && resting target bar in
      let seen = count_ambiguous (hit_stop && hit_target) e in
      ground (
        arith,
        count_ambiguous-balance (hit_stop && hit_target) e b,
        exit-balance c bar stop reason_stop (seen, b),
        exit-balance c bar target reason_target (seen, b),
      )

  idle-balance :
      (i : Intent F) (e : Engine F S) (b : Book F)
      → balance (e, record b { pending = i }) ≡ balance (e, b)
  unfolding balance
  idle-balance i e b = refl

  pub close_out-balance : (c : Candle F) (s : State F S) → balance (close_out c s) ≡ balance s
  unfolding close_out
  close_out-balance c (e, b) = ground (
    arith,
    idle-balance no_intent e b,
    exit-balance c (close_of c) (market_order (closing_side b.pos.short)) reason_end_of_run
        (e, record b { pending = no_intent }),
  )

  pub signal-balance : (s : State F S) → balance (signal s) ≡ balance s
  unfolding signal offer balance
  signal-balance (e, b) = ground arith
