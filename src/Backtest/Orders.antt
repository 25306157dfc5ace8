-- ===== src/Backtest/Orders.antt =====
-- internal/backtest/engine.go: signals, entries, brackets and exits.
use alvo_backtester.Base.{
  ℕ, Bool, true, false, not, ◌&&◌, ◌||◌, Option, none, some, if◌then◌else◌, Float, add64, sub64,
  lt64,
}
use alvo_backtester.Market.Bar.{Candle}
use alvo_backtester.Strategy.Spec.{LevelType, level_pct, level_atr}
use alvo_backtester.Strategy.Plan.{Bracket, trades, leg_of}
use alvo_backtester.Strategy.Tape.{tape_slot, entry_fires, exit_fires}
use alvo_backtester.Backtest.Broker.{
  Order, OrderSide, order_market, order_limit, order_stop, buy, sell, Bar, bar_of, close_of,
  order_fill, resting, costing_fill, notional, fees,
}
use alvo_backtester.Backtest.Sizing.{size}
use alvo_backtester.Backtest.Book.{
  Reason, reason_signal, reason_stop, reason_target, reason_end_of_run, Distance, Intent,
  IntentKind, intent_none, intent_enter, intent_exit, no_intent, Metrics, Position, Book, Engine,
}
use alvo_backtester.Backtest.Engine.{State, record_trade}

unfoldable pub closing_side : Bool → OrderSide
closing_side true = buy
closing_side false = sell

abbrev pub skipped : Metrics → Metrics
skipped m = record m { skipped_entries = add64 m.skipped_entries 1 }

module _ {F : Type 0} ⦃fl : Float F⦄ where
  open fl use {decimal, add, sub, mul, le}

  by_kind : LevelType → F → F → F
  by_kind level_pct entry value = mul entry value
  by_kind level_atr entry value = value

  -- `bracket.distance` and `bracket.level`
  unfoldable pub distance : Option (Distance F) → F → F
  unfolding by_kind
  distance none entry = decimal 0 0
  distance (some d) entry = by_kind d.kind entry d.value

  unfoldable pub level : Option (Distance F) → F → Bool → F
  unfolding distance
  level none entry above = decimal 0 0
  level (some d) entry above =
      let far = distance (some d) entry in if above then add entry far else sub entry far

  span_of : Bracket F → LevelType → Book F → Option (Option (Distance F))
  span_of br level_pct b = some (some (record { kind = level_pct; value = br.level.value }))
  span_of br level_atr b = elim (tape_slot b.tape br.slot 0) [
    | none ↦ none
    | some span ↦
        if le span (decimal 0 0)
        then none
        else some (some (record { kind = level_atr; value = mul br.level.mult span }))
  ]

  -- `engine.bracketFor`: `none` where the distance cannot be told yet.
  unfoldable pub bracket_for : Book F → Option (Bracket F) → Option (Option (Distance F))
  unfolding span_of
  bracket_for b none = some none
  bracket_for b (some br) = span_of br br.level.kind b

abbrev pub market_order : {F : Type 0} ⦃fl : Float F⦄ → OrderSide → Order F
market_order ⦃fl⦄ side = record { kind = order_market; side = side; price = fl.decimal 0 0 }

abbrev pub stop_order : {F : Type 0} → Position F → Order F
stop_order p = record { kind = order_stop; side = closing_side p.short; price = p.stop }

abbrev pub target_order : {F : Type 0} → Position F → Order F
target_order p = record { kind = order_limit; side = closing_side p.short; price = p.target }

module _ {F S : Type 0} ⦃fl : Float F⦄ where
  open fl use {decimal, le, lt}

  -- One round of the loop of `engine.signal` over the two sides: `some` where it returns.
  unfoldable pub offer : Bool → State F S → Option (State F S)
  offer short (e, b) =
      let leg = leg_of e.plan short in
      let skip : State F S = (record e { metrics = skipped e.metrics }, b) in
      if not (trades leg) || not (entry_fires leg b.tape)
      then none
      else elim (bracket_for b leg.stop) [
        | none ↦ some skip
        | some stop ↦ elim (bracket_for b leg.target) [
          | none ↦ some skip
          | some target ↦ some (
            e,
            record b {
              pending = record { kind = intent_enter; short = short; stop = stop; target = target };
            },
          )
        ]
      ]

  -- `engine.signal`: long is offered the bar first.
  unfoldable pub signal : State F S → State F S
  signal (e, b) =
      let idle = record b { pending = no_intent } in
      if b.pos.is_open
      then (if exit_fires (leg_of e.plan b.pos.short) b.tape
          then (
            e,
            record b {
              pending = record { kind = intent_exit; short = false; stop = none; target = none };
            },
          )
          else (e, idle))
      else elim (offer false (e, idle)) [
        | some s ↦ s
        | none ↦ elim (offer true (e, idle)) [ some s ↦ s | none ↦ (e, idle) ]
      ]

  -- The end of `engine.exit`, at the price and with the fee of the fill.
  unfoldable pub close_at : ℕ → F → ℕ → ℕ → Reason → State F S → State F S
  close_at ts price value fee reason (e, b) =
      if b.pos.short
      then record_trade ts price (sub64 b.pos.entry_cents value) fee reason
          (record e { cash = sub64 e.cash (add64 value fee) }, b)
      else record_trade ts price (sub64 value b.pos.entry_cents) fee reason
          (record e { cash = add64 e.cash (sub64 value fee) }, b)

  -- `engine.exit`
  unfoldable pub exit : Candle F → Bar F → Order F → Reason → State F S → State F S
  exit candle bar order reason (e, b) = elim (order_fill order bar) [
    | none ↦ (e, b)
    | some raw ↦
        let price = costing_fill b.costing order raw in
        let value = notional b.costing b.pos.qty price in
        close_at candle.ts price value (fees b.costing value) reason (e, b)
  ]

  -- Whether the borrow table bars the short entry.
  unfoldable pub unavailable : ℕ → Bool → State F S → Bool
  unavailable ts short (e, b) = elim e.borrow [
    | none ↦ false
    | some table ↦ short && not (table.available b.symbol.ticker ts)
  ]

  -- The end of `engine.enter`, with the quantity, its value and the fee.
  unfoldable pub open_at : ℕ → F → ℕ → ℕ → ℕ → Intent F → State F S → State F S
  open_at ts price qty value fee want (e, b) = (
    record e {
      cash = if want.short then add64 e.cash (sub64 value fee) else sub64 e.cash (add64 value fee);
    },
    record b {
      pos = record {
        is_open = true;
        short = want.short;
        qty = qty;
        entry_ts = ts;
        entry_price = price;
        entry_cents = value;
        fees_cents = fee;
        div_cents = 0;
        borrow_cents = 0;
        borrow_owed = decimal 0 0;
        split_cents = 0;
        stop = level want.stop price want.short;
        target = level want.target price (not want.short);
      };
    },
  )

  -- `engine.enter`. A market order always fills, at the open.
  unfoldable pub enter : Candle F → Intent F → State F S → State F S
  enter candle want (e, b) =
      let order : Order F = market_order (if want.short then sell else buy) in
      if unavailable candle.ts want.short (e, b)
      then (
        record e {
          metrics =
              skipped
                (record (e.metrics) { shorts_unavailable = add64 e.metrics.shorts_unavailable 1 });
        },
        b,
      )
      else elim (order_fill order (bar_of candle)) [
        | none ↦ (e, b)
        | some raw ↦
            let price = costing_fill b.costing order raw in
            let qty =
              size e.plan.sizing e.cash b.symbol.lot_size b.costing price
                (distance want.stop price) in
            let value = notional b.costing qty price in
            if le price (decimal 0 0)
            then (e, b)
            else if lt64 qty 1
            then (record e { metrics = skipped e.metrics }, b)
            else open_at candle.ts price qty value (fees b.costing value) want (e, b)
      ]

  unfoldable pub fill_intent : IntentKind → Candle F → Intent F → State F S → State F S
  fill_intent intent_none candle want s = s
  fill_intent intent_enter candle want s = if s.1.pos.is_open then s else enter candle want s
  fill_intent intent_exit candle want s =
      if s.1.pos.is_open
      then exit candle (bar_of candle) (market_order (closing_side s.1.pos.short)) reason_signal s
      else s

  -- `engine.fill`
  unfoldable pub fill : Candle F → State F S → State F S
  fill candle (e, b) =
      fill_intent b.pending.kind candle b.pending (e, record b { pending = no_intent })

  unfoldable pub count_ambiguous : Bool → Engine F S → Engine F S
  count_ambiguous both e =
      if both
      then record e {
        metrics = record (e.metrics) { ambiguous_bars = add64 e.metrics.ambiguous_bars 1 };
      }
      else e

  -- `engine.brackets`: a bar that reaches both is taken to have hit the stop.
  unfoldable pub brackets : Candle F → State F S → State F S
  brackets candle (e, b) =
      let bar = bar_of candle in
      let stop = stop_order b.pos in
      let target = target_order b.pos in
      let hit_stop = lt (decimal 0 0) b.pos.stop && resting stop bar in
      let hit_target = lt (decimal 0 0) b.pos.target && resting target bar in
      let seen = count_ambiguous (hit_stop && hit_target) e in
      if not b.pos.is_open
      then (e, b)
      else if hit_stop
      then exit candle bar stop reason_stop (seen, b)
      else if hit_target
      then exit candle bar target reason_target (seen, b)
      else (seen, b)

  -- `engine.closeOut`
  unfoldable pub close_out : Candle F → State F S → State F S
  close_out candle (e, b) =
      let idle = record b { pending = no_intent } in
      if not b.pos.is_open
      then (e, idle)
      else exit candle (close_of candle) (market_order (closing_side b.pos.short)) reason_end_of_run
          (e, idle)
