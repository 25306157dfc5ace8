-- ===== src/Backtest/Tally/Drawdown.antt =====
-- internal/backtest/stats.go: when an equity curve has no drawdown.
use Prim.Native.Nat.{max}
use alvo_backtester.Base.{
  ℕ, ◌+◌, ◌-◌, ◌<◌, ◌≤◌, ◌≡◌, refl, true, List, [], ◌∷◌, arith, le64, Bool-cases, inl, inr,
}
use alvo_backtester.Backtest.Book.{EquityPoint}
use alvo_backtester.Backtest.Tally.{longest_from, longest_drawdown}

-- No point is below the one before it.
abbrev pub Climbs : ℕ → List EquityPoint → Type 0
Climbs peak [] = Unit
Climbs peak (p ∷ curve) = (le64 peak p.cents ≡ true) × Climbs p.cents curve

abbrev pub NeverFalls : List EquityPoint → Type 0
NeverFalls [] = Unit
NeverFalls (p ∷ curve) = Climbs p.cents curve

le64_refl : (a : ℕ) → le64 a a ≡ true
unfolding le64
le64_refl a = ground arith

longest_from-grows :
    (i peak peak_at longest : ℕ) (curve : List EquityPoint)
    → longest ≤ longest_from i peak peak_at longest curve
unfolding longest_from
longest_from-grows i peak peak_at longest [] = omega arith
longest_from-grows i peak peak_at longest (p ∷ curve) =
    let up = longest_from-grows (i + 1) p.cents i longest curve in
    let down = longest_from-grows (i + 1) peak peak_at (max longest (i - peak_at)) curve in
    ground arith

longest_from-zero :
    (i peak peak_at : ℕ) (curve : List EquityPoint)
    → peak_at < i
    → longest_from i peak peak_at 0 curve ≡ 0
    → Climbs peak curve
unfolding longest_from
longest_from-zero i peak peak_at [] h e = tt
longest_from-zero i peak peak_at (p ∷ curve) h e = elim (Bool-cases (le64 peak p.cents)) [
  | inl up ↦
      (up, longest_from-zero (i + 1) p.cents i curve (omega arith) (rw (up, longest_from) at e))
  | inr down ↦
      let grown = longest_from-grows (i + 1) peak peak_at (max 0 (i - peak_at)) curve in
      let none_left : longest_from (i + 1) peak peak_at (max 0 (i - peak_at)) curve ≡ 0 =
        rw (down, longest_from) at e in
      absurd (ground arith)
]

longest_from-Climbs :
    (i peak peak_at : ℕ) (curve : List EquityPoint)
    → Climbs peak curve
    → longest_from i peak peak_at 0 curve ≡ 0
unfolding longest_from
longest_from-Climbs i peak peak_at [] c = refl
longest_from-Climbs i peak peak_at (p ∷ curve) c =
    let up : le64 peak p.cents ≡ true = c.0 in
    rw (up, longest_from) (longest_from-Climbs (i + 1) p.cents i curve c.1)

-- The longest drawdown of an equity curve is zero bars exactly when no point of the curve is below
-- the one before it.
pub longest_drawdown-NeverFalls :
    (curve : List EquityPoint)
    → (longest_drawdown curve ≡ 0 → NeverFalls curve)
      × (NeverFalls curve → longest_drawdown curve ≡ 0)
unfolding longest_drawdown longest_from
longest_drawdown-NeverFalls [] = (λ e. tt, λ c. refl)
longest_drawdown-NeverFalls (p ∷ curve) =
    let self = le64_refl p.cents in
    (
      λ e. longest_from-zero 1 p.cents 0 curve (omega arith) (rw (self, longest_from) at e),
      λ c. rw (self, longest_from) (longest_from-Climbs 1 p.cents 0 curve c),
    )
