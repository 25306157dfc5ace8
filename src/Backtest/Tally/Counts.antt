-- ===== src/Backtest/Tally/Counts.antt =====
-- internal/backtest/metrics.go: what the counters of the tally add up to.
use alvo_backtester.Base.{
  ℕ, suc, ◌+◌, ◌%◌, ◌≡◌, refl, ap, ◌∙◌, Bool, true, false, List, [], ◌∷◌, length, arith, add64,
  sub64, neg64, word_size, lt64,
}
use alvo_backtester.Backtest.Book.{
  Trade, Reason, reason_signal, reason_stop, reason_target, reason_split, reason_end_of_run,
}
use alvo_backtester.Backtest.Ledger.{profits}
use alvo_backtester.Backtest.Tally.{
  Tally, no_tally, count_outcome, count_side, count_exit, count_span, count_trade, tally_trades,
}

abbrev outcomes : Tally → ℕ
outcomes t = (t.wins + t.losses + t.scratches) % word_size

abbrev sides : Tally → ℕ
sides t = (t.long_trades + t.short_trades) % word_size

abbrev exits : Tally → ℕ
exits t =
    (t.exits_by_signal + t.exits_by_stop + t.exits_by_target + t.exits_by_split + t.exits_at_end)
    % word_size

abbrev net : Tally → ℕ
net t = sub64 t.gross_win t.gross_loss

zero_pnl : (pnl : ℕ) → lt64 0 pnl ≡ false → lt64 pnl 0 ≡ false → pnl % word_size ≡ 0
unfolding lt64
zero_pnl pnl h k = ground arith

count_outcome-outcomes :
    (pnl : ℕ) (t : Tally) → outcomes (count_outcome pnl t) ≡ (outcomes t + 1) % word_size
unfolding count_outcome add64
count_outcome-outcomes pnl t = ground arith

count_outcome-net : (pnl : ℕ) (t : Tally) → net (count_outcome pnl t) ≡ add64 (net t) pnl
unfolding count_outcome add64 sub64 neg64
count_outcome-net pnl t = ground (arith, zero_pnl pnl)

count_side-sides :
    (short : Bool) (t : Tally) → sides (count_side short t) ≡ (sides t + 1) % word_size
unfolding count_side add64
count_side-sides true t = omega arith
count_side-sides false t = omega arith

count_exit-exits :
    (reason : Reason) (t : Tally) → exits (count_exit reason t) ≡ (exits t + 1) % word_size
unfolding count_exit add64
count_exit-exits reason_signal t = omega arith
count_exit-exits reason_stop t = omega arith
count_exit-exits reason_target t = omega arith
count_exit-exits reason_split t = omega arith
count_exit-exits reason_end_of_run t = omega arith

count_outcome-others :
    (pnl : ℕ) (t : Tally)
    → (sides (count_outcome pnl t) ≡ sides t) × (exits (count_outcome pnl t) ≡ exits t)
unfolding count_outcome
count_outcome-others pnl t = ground arith

count_side-others :
    (short : Bool) (t : Tally)
    → (outcomes (count_side short t) ≡ outcomes t)
      × (exits (count_side short t) ≡ exits t)
      × (net (count_side short t) ≡ net t)
unfolding count_side
count_side-others true t = (refl, refl, refl)
count_side-others false t = (refl, refl, refl)

count_exit-others :
    (reason : Reason) (t : Tally)
    → (outcomes (count_exit reason t) ≡ outcomes t)
      × (sides (count_exit reason t) ≡ sides t)
      × (net (count_exit reason t) ≡ net t)
unfolding count_exit
count_exit-others reason_signal t = (refl, refl, refl)
count_exit-others reason_stop t = (refl, refl, refl)
count_exit-others reason_target t = (refl, refl, refl)
count_exit-others reason_split t = (refl, refl, refl)
count_exit-others reason_end_of_run t = (refl, refl, refl)

-- Between two tallies, `n` trades have been counted, with these profits in all.
abbrev Counted : ℕ → ℕ → Tally → Tally → Type 0
Counted n gains t t' =
    (outcomes t' ≡ (outcomes t + n) % word_size)
    × (sides t' ≡ (sides t + n) % word_size)
    × (exits t' ≡ (exits t + n) % word_size)
    × (net t' ≡ add64 (net t) gains)

count_trade-Counted :
    {F : Type 0} (index : List (ℕ × ℕ)) (trade : Trade F) (t : Tally)
    → Counted 1 trade.pnl_cents t (count_trade index trade t)
unfolding count_trade count_span
count_trade-Counted index trade t =
    let t₁ : Tally = count_outcome trade.pnl_cents t in
    let t₂ : Tally = count_side trade.is_short t₁ in
    let t₃ : Tally = count_span index trade t₂ in
    let (o₁, s₁, n₁) = count_exit-others trade.exit_reason t₃ in
    let (o₂, e₂, n₂) = count_side-others trade.is_short t₁ in
    let (s₃, e₃) = count_outcome-others trade.pnl_cents t in
    let side = count_side-sides trade.is_short t₁ in
    let exit = count_exit-exits trade.exit_reason t₃ in
    (
      o₁ ∙ o₂ ∙ count_outcome-outcomes trade.pnl_cents t,
      s₁ ∙ side ∙ ap (λ n. (n + 1) % word_size) s₃,
      exit ∙ ap (λ n. (n + 1) % word_size) (e₂ ∙ e₃),
      n₁ ∙ n₂ ∙ count_outcome-net trade.pnl_cents t,
    )

one_more :
    (n n' n'' k : ℕ)
    → n' ≡ (n + 1) % word_size
    → n'' ≡ (n' + k) % word_size
    → n'' ≡ (n + suc k) % word_size
one_more n n' n'' k p q = omega arith

one_more_gain :
    (n n' n'' gain gains : ℕ)
    → n' ≡ add64 n gain
    → n'' ≡ add64 n' gains
    → n'' ≡ add64 n (add64 gain gains)
unfolding add64
one_more_gain n n' n'' gain gains p q = omega arith

tally_trades-Counted :
    {F : Type 0} (index : List (ℕ × ℕ)) (trades : List (Trade F)) (t : Tally)
    → Counted (length trades) (profits trades) t (tally_trades index trades t)
unfolding tally_trades profits add64 sub64
tally_trades-Counted index [] t = (omega arith, omega arith, omega arith, omega arith)
tally_trades-Counted index (trade ∷ trades) t =
    let t' : Tally = count_trade index trade t in
    let (o, s, e, n) = count_trade-Counted index trade t in
    let (o', s', e', n') = tally_trades-Counted index trades t' in
    (
      one_more _ _ _ (length trades) o o',
      one_more _ _ _ (length trades) s s',
      one_more _ _ _ (length trades) e e',
      one_more_gain _ _ _ trade.pnl_cents (profits trades) n n',
    )

-- In the tally of a log of trades, the wins, the losses and the scratches add up to the number of
-- trades, the long and the short ones do, and so do the exits of the five kinds; what the wins have
-- gained less what the losses have lost is the profit of all the trades. All sums are modulo 2 ^ 64.
pub tally_trades-adds_up :
    {F : Type 0} (index : List (ℕ × ℕ)) (trades : List (Trade F))
    → let t = tally_trades index trades no_tally in
      ((t.wins + t.losses + t.scratches) % word_size ≡ length trades % word_size)
      × ((t.long_trades + t.short_trades) % word_size ≡ length trades % word_size)
      × ((t.exits_by_signal + t.exits_by_stop + t.exits_by_target + t.exits_by_split
              + t.exits_at_end)
            % word_size
          ≡ length trades % word_size)
      × (sub64 t.gross_win t.gross_loss ≡ profits trades % word_size)
unfolding add64 sub64
tally_trades-adds_up index trades =
    let (o, s, e, n) = tally_trades-Counted index trades no_tally in
    (omega (arith, o), omega (arith, s), omega (arith, e), omega (arith, n))
