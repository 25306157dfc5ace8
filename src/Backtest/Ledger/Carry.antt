-- ===== src/Backtest/Ledger/Carry.antt =====
-- internal/backtest/engine.go: corporate actions keep the balance.
use alvo_backtester.Base.{ℕ, ◌≡◌, refl, ◌∙◌, true, arith, if◌then◌else◌, Float}
use alvo_backtester.Market.Bar.{Candle}
use alvo_backtester.Backtest.Actions.{factor_at}
use alvo_backtester.Backtest.Book.{reason_split}
use alvo_backtester.Backtest.Engine.{State, cash_out, settle, carry_split, split_seen, adjust}
use alvo_backtester.Backtest.Ledger.{
  carried, balance, balance-lt, cancel, cash_out-balance, record_trade-balance, signed_entry,
}

module _ {F S : Type 0} ⦃fl : Float F⦄ where
  cash_out-open :
      (shares price : F) (s : State F S) → (cash_out shares price s).1.pos.is_open ≡ s.1.pos.is_open
  unfolding cash_out
  cash_out-open shares price s = ground arith

  settle-balance :
      (c : Candle F) (price shares : F) (s : State F S)
      → s.1.pos.is_open ≡ true
      → balance (settle c price shares s) ≡ balance s
  unfolding settle
  settle-balance c price shares s h =
      let s' = cash_out shares price s in
      let gross = signed_entry s'.1.pos in
      cancel _ _ gross 0 (balance-lt _) (balance-lt s') refl
        (record_trade-balance c.ts price gross 0 reason_split s' (cash_out-open shares price s ∙ h))
      ∙ cash_out-balance shares price s h

  carry_split-balance :
      (factor : F) (qty : ℕ) (exact price : F) (s : State F S)
      → s.1.pos.is_open ≡ true
      → balance (carry_split factor qty exact price s) ≡ balance s
  unfolding carry_split balance carried
  carry_split-balance factor qty exact price s h =
      cash_out-balance (fl.sub exact (fl.of_int qty)) price s h

  split_seen-balance : (s : State F S) → balance (split_seen s) ≡ balance s
  unfolding balance
  split_seen-balance s = refl

  -- A split that a position is carried through or paid out at leaves the cash, less the profits of the
  -- closed trades and what the open position has moved in the cash, as it was.
  pub adjust-balance : (at : ℕ) (c : Candle F) (s : State F S) → balance (adjust at c s) ≡ balance s
  unfolding adjust
  adjust-balance at c (e, b) =
      let factor = factor_at b.acts at in
      let price : F = if fl.le c.opening (fl.decimal 0 0) then c.close else c.opening in
      let exact = fl.mul (fl.of_int b.pos.qty) factor in
      let qty = fl.to_int (fl.floor (fl.add exact (fl.decimal 1 9))) in
      let seen : State F S = split_seen (e, b) in
      ground (
        arith,
        split_seen-balance (e, b),
        settle-balance c price exact seen,
        carry_split-balance factor qty exact price seen,
      )
