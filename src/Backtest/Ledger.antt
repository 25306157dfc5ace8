-- ===== src/Backtest/Ledger.antt =====
-- internal/backtest/engine.go: the books balance. Cash, less the profits of the closed trades, less
-- what the open position has moved so far, is the same before and after every method.
pub mod Carry
pub mod Orders
pub mod Whole
use alvo_backtester.Base.{
  ◌+◌, ◌<◌, word_size, ◌%◌, ◌^◌, ℕ, ◌≡◌, refl, sym, ◌∙◌, Bool, true, false, List, [], ◌∷◌, ◌++◌,
  arith, if◌then◌else◌, Float, add64, sub64, neg64,
}
use alvo_backtester.Market.Bar.{Candle}
use alvo_backtester.Backtest.Book.{Trade, Reason, Position, Book, Engine}
use alvo_backtester.Backtest.Engine.{
  State, credit, charge, borrow_rate, adjust, settle_borrow, record_trade, book_trade, trade_of,
  pnl_of, cash_out, settle, carry_split,
}

unfoldable pub profits : {F : Type 0} → List (Trade F) → ℕ
profits [] = 0
profits (t ∷ ts) = add64 t.pnl_cents (profits ts)

-- What a position has moved in the cash so far.
unfoldable pub carried : {F : Type 0} → Position F → ℕ
carried p =
    let earned = sub64 (sub64 (add64 p.div_cents p.split_cents) p.borrow_cents) p.fees_cents in
    if p.is_open
    then (if p.short then add64 earned p.entry_cents else sub64 earned p.entry_cents)
    else 0

-- What the entry was worth, with its sign.
abbrev pub signed_entry : {F : Type 0} → Position F → ℕ
signed_entry p = if p.short then p.entry_cents else neg64 p.entry_cents

unfoldable pub balance : {F S : Type 0} → State F S → ℕ
balance (e, b) = sub64 (sub64 e.cash (profits e.trades)) (carried b.pos)

pub profits-append :
    {F : Type 0} (ts : List (Trade F)) (t : Trade F)
    → profits (ts ++ t ∷ []) ≡ add64 (profits ts) t.pnl_cents
unfolding profits add64
profits-append [] t = omega arith
profits-append (x ∷ ts) t = omega (arith, profits-append ts t)

pub balance-lt : {F S : Type 0} (s : State F S) → balance s < word_size
unfolding balance sub64
balance-lt (e, b) = omega arith

-- A word that is added on both sides may be taken off.
pub cancel :
    (x y g h : ℕ) → x < word_size → y < word_size → h ≡ 0 → add64 x g ≡ add64 y (add64 h g) → x ≡ y
unfolding add64
cancel x y g h p q z e = omega arith

module _ {F S : Type 0} ⦃fl : Float F⦄ where
  pub credit-balance : (at : ℕ) (s : State F S) → balance (credit at s) ≡ balance s
  unfolding credit balance carried add64 sub64 neg64
  credit-balance at s = ground arith

  settle_borrow-balance :
      (cents : ℕ) (s : State F S)
      → s.1.pos.is_open ≡ true
      → balance (settle_borrow cents s) ≡ balance s
  unfolding settle_borrow balance carried add64 sub64
  settle_borrow-balance cents s h = ground arith

  pub charge-balance : (at : ℕ) (s : State F S) → balance (charge at s) ≡ balance s
  unfolding charge borrow_rate settle_borrow balance carried add64 sub64
  charge-balance at s = ground arith

  pub cash_out-balance :
      (shares price : F) (s : State F S)
      → s.1.pos.is_open ≡ true
      → balance (cash_out shares price s) ≡ balance s
  unfolding cash_out balance carried add64 sub64 neg64
  cash_out-balance shares price s h = ground arith

  settle_borrow-pos :
      (cents : ℕ) (s : State F S)
      → let p = (settle_borrow cents s).1.pos in
        (p.is_open ≡ s.1.pos.is_open)
        × (p.short ≡ s.1.pos.short)
        × (p.entry_cents ≡ s.1.pos.entry_cents)
        × (p.fees_cents ≡ s.1.pos.fees_cents)
  unfolding settle_borrow
  settle_borrow-pos cents s = ground arith

  book_trade-balance :
      (ts : ℕ) (price : F) (gross fee : ℕ) (reason : Reason) (s : State F S)
      → s.1.pos.is_open ≡ true
      → add64 (balance (book_trade ts price gross fee reason s)) gross
        ≡ add64 (balance s) (add64 fee (signed_entry s.1.pos))
  unfolding book_trade balance carried add64 sub64 neg64
  book_trade-balance ts price gross fee reason (e, b) h = ground (
    arith,
    profits-append e.trades (
        trade_of ((e.seq + 1) % 2 ^ 32) ts price (pnl_of gross b.pos (add64 b.pos.fees_cents fee))
          (add64 b.pos.fees_cents fee) reason b),
  )

  -- What the closing of a trade leaves in the balance: its gross profit is set against the cash that
  -- the caller has moved.
  pub record_trade-balance :
      (ts : ℕ) (price : F) (gross fee : ℕ) (reason : Reason) (s : State F S)
      → s.1.pos.is_open ≡ true
      → add64 (balance (record_trade ts price gross fee reason s)) gross
        ≡ add64 (balance s) (add64 fee (signed_entry s.1.pos))
  unfolding record_trade
  record_trade-balance ts price gross fee reason s h =
      let cents = fl.to_int (fl.round s.1.pos.borrow_owed) in
      let (is_open, short, entry, fees) = settle_borrow-pos cents s in
      book_trade-balance ts price gross fee reason (settle_borrow cents s) (is_open ∙ h)
      ∙ rw (settle_borrow-balance cents s h, short, entry)
