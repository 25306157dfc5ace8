-- ===== src/Market/Calendar/Nearest.antt =====
-- internal/market/calendar.go: the searches forwards and backwards.
use alvo_backtester.Base.{
  ℕ, suc, ◌+◌, ◌<◌, ◌≤◌, ◌≡◌, ◌==◌, ◌∙◌, ap, arith, Bool, true, false, Option, none, some,
  Bool-cases, inl, inr,
}
use alvo_backtester.Market.Calendar.{Calendar}

module _ (trades : ℕ → Bool) where
  -- A day found after the cursor is the first trading day there, and not far from it.
  abbrev IsNext : ℕ → ℕ → Option ℕ → Type 0
  IsNext cursor steps none = Unit
  IsNext cursor steps (some found) =
      (cursor < found)
      × (found ≤ cursor + steps)
      × (trades found ≡ true)
      × ((day : ℕ) → cursor < day → day < found → trades day ≡ false)

  step_over :
      (cursor found : ℕ)
      → trades (cursor + 1) ≡ false
      → ((day : ℕ) → cursor + 1 < day → day < found → trades day ≡ false)
      → (day : ℕ) → cursor < day
      → day < found
      → trades day ≡ false
  step_over cursor found shut between day after before = elim (Bool-cases (day == cursor + 1)) [
    | inl e ↦ let same : day ≡ cursor + 1 = ground arith in ap trades same ∙ shut
    | inr e ↦ between day (ground arith) before
  ]

  moved :
      (cursor steps : ℕ) (o : Option ℕ)
      → trades (cursor + 1) ≡ false
      → IsNext (cursor + 1) steps o
      → IsNext cursor (suc steps) o
  moved cursor steps none shut h = tt
  moved cursor steps (some found) shut (lo, hi, trading, between) =
      (omega (arith, lo), omega (arith, hi), trading, step_over cursor found shut between)
