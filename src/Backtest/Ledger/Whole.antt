-- ===== src/Backtest/Ledger/Whole.antt =====
-- internal/backtest/engine.go: the books of a whole run balance.
use alvo_backtester.Base.{
  ℕ, ◌%◌, ◌≡◌, refl, ◌∙◌, Bool, true, false, Option, none, some, List, [], ◌∷◌, arith, Float, add64,
  sub64, word_size, inl, inr, Bool-cases, get_elem?,
}
use alvo_backtester.Indicator.{Indicator}
use alvo_backtester.Market.Bar.{Candle}
use alvo_backtester.Strategy.Plan.{PlanUnit, Plan}
use alvo_backtester.Backtest.Book.{
  Instrument, Book, Engine, Request, advance, advance_at, final, new_book, held,
}
use alvo_backtester.Backtest.Engine.{State}
use alvo_backtester.Backtest.Run.{
  settle_bar, decide_bar, push_bar, on_bar, step_book, step_books, mark_book, mark_books, mark,
  noted, run_stamps, new_books, new_engine, run,
}
use alvo_backtester.Backtest.Ledger.{profits, carried, balance, credit-balance, charge-balance}
use alvo_backtester.Backtest.Ledger.Carry.{adjust-balance}
use alvo_backtester.Backtest.Ledger.Orders.{
  fill-balance, brackets-balance, close_out-balance, signal-balance,
}

-- What all the open positions have moved in the cash.
unfoldable pub carried_all : {F : Type 0} → List (Book F) → ℕ
carried_all [] = 0
carried_all (b ∷ bs) = add64 (carried b.pos) (carried_all bs)

-- The cash, less the profits of the closed trades and what the open positions have moved.
unfoldable pub worth : {F S : Type 0} → Engine F S × List (Book F) → ℕ
worth (e, bs) = sub64 (sub64 e.cash (profits e.trades)) (carried_all bs)

module _ {F : Type 0} ⦃fl : Float F⦄ where
  mark_book-carried :
      (o : Option (Candle F)) (b : Book F) (sum : ℕ × Bool)
      → carried (mark_book o b sum).0.pos ≡ carried b.pos
  unfolding mark_book
  mark_book-carried none b sum = refl
  mark_book-carried (some c) b (equity, in_market) = ground arith

  mark_books-carried :
      (bs : List (Book F)) (sum : ℕ × Bool) → carried_all (mark_books bs sum).0 ≡ carried_all bs
  unfolding mark_books carried_all
  mark_books-carried [] sum = refl
  mark_books-carried (b ∷ bs) sum =
      rw (mark_book-carried (held b) b sum, mark_books-carried bs (mark_book (held b) b sum).1)

advance_at-pos :
    {F : Type 0} (o : Option (Candle F)) (ts : ℕ) (b : Book F) → (advance_at o ts b).0.pos ≡ b.pos
unfolding advance_at
advance_at-pos none ts b = refl
advance_at-pos (some c) ts b = ground arith

-- One more position on both sides of an equation between balances.
regroup :
    (f f' f'' cb cb' all all' x : ℕ)
    → sub64 f' cb' ≡ sub64 f cb
    → sub64 f'' (add64 all' (add64 cb' x)) ≡ sub64 f' (add64 all (add64 cb' x))
    → sub64 f'' (add64 (add64 cb' all') x) ≡ sub64 f (add64 (add64 cb all) x)
unfolding sub64 add64
regroup f f' f'' cb cb' all all' x p q = omega arith

no_rest :
    (f f' all all' : ℕ)
    → sub64 f' (add64 all' 0) ≡ sub64 f (add64 all 0)
    → sub64 f' all' ≡ sub64 f all
unfolding sub64 add64
no_rest f f' all all' e = omega arith

untouched : (capital : ℕ) → sub64 (sub64 capital 0) 0 ≡ capital % word_size
unfolding sub64
untouched capital = omega arith

module _ {F S : Type 0} ⦃fl : Float F⦄ where
  noted-money :
      (ts : ℕ) (sum : ℕ × Bool) (e : Engine F S)
      → ((noted ts sum e).cash ≡ e.cash) × ((noted ts sum e).trades ≡ e.trades)
  unfolding noted
  noted-money ts (equity, true) e = (refl, refl)
  noted-money ts (equity, false) e = (refl, refl)

  settle_bar-balance :
      (c : Candle F) (at : ℕ) (s : State F S) → balance (settle_bar c at s) ≡ balance s
  unfolding settle_bar
  settle_bar-balance c at s =
      brackets-balance c _
      ∙ fill-balance c _
      ∙ adjust-balance at c _
      ∙ charge-balance at _
      ∙ credit-balance at s

  decide_bar-balance :
      (c : Candle F) (at : ℕ) (s : State F S) → balance (decide_bar c at s) ≡ balance s
  unfolding decide_bar
  decide_bar-balance c at (e, b) = elim (Bool-cases (final b at)) [
    | inl last ↦ rw last (close_out-balance c (e, b))
    | inr more ↦ rw more (signal-balance (e, b))
  ]

  mark-worth : (ts : ℕ) (s : Engine F S × List (Book F)) → worth (mark ts s) ≡ worth s
  unfolding mark worth
  mark-worth ts (e, bs) =
      let (cash, trades) = noted-money ts (mark_books bs (e.cash, false)).1 e in
      rw (cash, trades, mark_books-carried bs (e.cash, false))

module _ {F S : Type 0} ⦃fl : Float F⦄ ⦃ind : Indicator S F⦄ where
  push_bar-balance : (c : Candle F) (s : State F S) → balance (push_bar c s) ≡ balance s
  unfolding push_bar balance
  push_bar-balance c (e, b) = refl

  on_bar-balance : (o : Option (Candle F × ℕ)) (s : State F S) → balance (on_bar o s) ≡ balance s
  unfolding on_bar
  on_bar-balance none s = refl
  on_bar-balance (some (c, at)) s =
      decide_bar-balance c at _ ∙ push_bar-balance c _ ∙ settle_bar-balance c at s

  advanced : (ts : ℕ) (e : Engine F S) (b : Book F) → balance (e, (advance ts b).0) ≡ balance (e, b)
  unfolding balance advance
  advanced ts e b = rw (advance_at-pos (get_elem? b.candles b.at) ts b)

  step_book-balance : (ts : ℕ) (s : State F S) → balance (step_book ts s) ≡ balance s
  unfolding step_book
  step_book-balance ts (e, b) = on_bar-balance (advance ts b).1 _ ∙ advanced ts e b

  step_book-free :
      (ts : ℕ) (e : Engine F S) (b : Book F)
      → let (e', b') = step_book ts (e, b) in
        sub64 (sub64 e'.cash (profits e'.trades)) (carried b'.pos)
        ≡ sub64 (sub64 e.cash (profits e.trades)) (carried b.pos)
  unfolding balance
  step_book-free ts e b = step_book-balance ts (e, b)

  step_books-free :
      (ts : ℕ) (e : Engine F S) (bs : List (Book F)) (x : ℕ)
      → let (e', bs') = step_books ts e bs in
        sub64 (sub64 e'.cash (profits e'.trades)) (add64 (carried_all bs') x)
        ≡ sub64 (sub64 e.cash (profits e.trades)) (add64 (carried_all bs) x)
  unfolding step_books carried_all
  step_books-free ts e [] x = refl
  step_books-free ts e (b ∷ bs) x =
      let (e', b') = step_book ts (e, b) in
      regroup _ _ _ _ _ _ _ x (step_book-free ts e b)
        (step_books-free ts e' bs (add64 (carried b'.pos) x))

  step_books-worth :
      (ts : ℕ) (e : Engine F S) (bs : List (Book F)) → worth (step_books ts e bs) ≡ worth (e, bs)
  unfolding worth
  step_books-worth ts e bs = no_rest _ _ _ _ (step_books-free ts e bs 0)

  run_stamps-worth :
      (stamps : List ℕ) (s : Engine F S × List (Book F)) → worth (run_stamps stamps s) ≡ worth s
  unfolding run_stamps
  run_stamps-worth [] s = refl
  run_stamps-worth (ts ∷ stamps) (e, bs) =
      run_stamps-worth stamps _ ∙ mark-worth ts _ ∙ step_books-worth ts e bs

  carried-new_books :
      (plan : Plan F) (is : List (Instrument F)) (us : List (PlanUnit S))
      → carried_all (new_books plan is us).1 ≡ 0
  unfolding new_books new_book carried_all carried add64
  carried-new_books plan [] us = refl
  carried-new_books plan (i ∷ is) us =
      ground (arith, carried-new_books plan is (new_book plan i us).0)

  new_engine-worth : (req : Request F S) → worth (new_engine req) ≡ req.capital % word_size
  unfolding new_engine worth profits
  new_engine-worth req =
      rw (carried-new_books req.plan req.instruments req.units) (untouched req.capital)

  -- When a run has gone through all its bars, its cash is the capital it was given plus the profits
  -- of the trades it has recorded plus what the positions that are still open have moved, modulo the
  -- wrap-around of `int64`.
  pub run-worth : (req : Request F S) → worth (run req) ≡ req.capital % word_size
  unfolding run
  run-worth req = run_stamps-worth _ _ ∙ new_engine-worth req
