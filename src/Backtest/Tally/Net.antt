-- ===== src/Backtest/Tally/Net.antt =====
-- internal/backtest/engine.go and metrics.go: the profit of a summary is the profit of its trades.
use alvo_backtester.Base.{
  ℕ, ◌≡◌, refl, ◌∙◌, Bool, false, Option, none, some, List, [], ◌∷◌, ◌++◌, arith, Float, add64,
  sub64, All,
}
use alvo_backtester.Indicator.{Indicator}
use alvo_backtester.Market.Bar.{Candle}
use alvo_backtester.Backtest.Book.{EquityPoint, Book, Engine, Request, held}
use alvo_backtester.Backtest.Run.{
  mark_book, mark_books, mark, noted, step_books, run_stamps, new_engine, run,
}
use alvo_backtester.Backtest.Closing.Whole.{IsOrderly, run_closes, run_cash}
use alvo_backtester.Backtest.Tally.{no_tally, tally_trades, final_equity, pnl_cents}
use alvo_backtester.Backtest.Tally.Counts.{tally_trades-adds_up}

final_equity-append :
    (cash : ℕ) (xs : List EquityPoint) (p : EquityPoint)
    → final_equity cash (xs ++ p ∷ []) ≡ p.cents
unfolding final_equity
final_equity-append cash [] p = refl
final_equity-append cash (x ∷ xs) p = final_equity-append x.cents xs p

module _ {F : Type 0} ⦃fl : Float F⦄ where
  -- A book that ends a mark flat has added nothing to it.
  mark_book-flat :
      (o : Option (Candle F)) (b : Book F) (sum : ℕ × Bool)
      → (mark_book o b sum).0.pos.is_open ≡ false
      → (mark_book o b sum).1 ≡ sum
  unfolding mark_book
  mark_book-flat none b sum flat = refl
  mark_book-flat (some c) b (equity, in_market) flat = ground arith

  mark_books-flat :
      (bs : List (Book F)) (sum : ℕ × Bool)
      → All (λ b. b.pos.is_open ≡ false) (mark_books bs sum).0
      → (mark_books bs sum).1 ≡ sum
  unfolding mark_books
  mark_books-flat [] sum flat = refl
  mark_books-flat (b ∷ bs) sum flat =
      mark_books-flat bs (mark_book (held b) b sum).1 flat.1 ∙ mark_book-flat (held b) b sum flat.0

module _ {F S : Type 0} ⦃fl : Float F⦄ where
  -- When the last point of the curve is not the cash, some book holds a position.
  abbrev Settled : Engine F S × List (Book F) → Type 0
  Settled (e, bs) = All (λ b. b.pos.is_open ≡ false) bs → final_equity e.cash e.equity ≡ e.cash

  mark-Settled : (ts : ℕ) (s : Engine F S × List (Book F)) → Settled (mark ts s)
  unfolding mark noted
  mark-Settled ts (e, bs) flat =
      let same = mark_books-flat bs (e.cash, false) flat in
      rw same (final_equity-append e.cash e.equity (record { ts = ts; cents = e.cash }))

module _ {F S : Type 0} ⦃fl : Float F⦄ ⦃ind : Indicator S F⦄ where
  run_stamps-Settled :
      (stamps : List ℕ) (s : Engine F S × List (Book F)) → Settled s → Settled (run_stamps stamps s)
  unfolding run_stamps
  run_stamps-Settled [] s h = h
  run_stamps-Settled (ts ∷ stamps) (e, bs) h =
      run_stamps-Settled stamps _ (mark-Settled ts (step_books ts e bs))

  run-Settled : (req : Request F S) → Settled (run req)
  unfolding run new_engine final_equity
  run-Settled req = run_stamps-Settled (new_engine req).0.stamps (new_engine req) (λ flat. refl)

  -- When every instrument's bars are in the order of their stamps, and no two of one instrument
  -- have one stamp: the final equity of a run, which is the last point of its curve or, without a
  -- point, the cash, is the cash, and the profit of the summary is what the tally of the trades
  -- says the wins have gained less what the losses have lost, modulo 2 ^ 64.
  pub run_net :
      (req : Request F S) (index : List (ℕ × ℕ))
      → IsOrderly req
      → let e = (run req).0 in
        let t = tally_trades index e.trades no_tally in
        (final_equity e.cash e.equity ≡ e.cash)
        × (pnl_cents req.capital e.cash e.equity ≡ sub64 t.gross_win t.gross_loss)
  unfolding pnl_cents add64 sub64
  run_net req index orderly =
      let settled = run-Settled req (run_closes req orderly) in
      let cash = run_cash req orderly in
      let (outcomes, sides, exits, net) = tally_trades-adds_up index (run req).0.trades in
      (settled, rw settled (omega (arith, cash, net)))
