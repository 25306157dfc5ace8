-- ===== src/Market/Calendar/Walk.antt =====
-- internal/market/calendar.go: the loop over the days of a range.
use alvo_backtester.Base.{
  ℕ, zero, suc, ◌+◌, ◌-◌, ◌<◌, ◌≤◌, ◌≡◌, refl, arith, Bool, List, [], ◌∷◌, ltb, ltb→lt, Bool-cases,
  inl, inr, if◌then◌else◌,
}
use alvo_backtester.Zone.{Zone, add_days}
use alvo_backtester.Market.Calendar.{Calendar, trades_on, midnight, days_from, trading_days}

-- The elements that pass a test.
abbrev pub chosen : (ℕ → Bool) → List ℕ → List ℕ
chosen passes [] = []
chosen passes (x ∷ xs) = let rest = chosen passes xs in if passes x then x ∷ rest else rest

-- The cursors are those that `AddDate` goes through, a day at a time, from this one on as long as they are
-- not after `to`.
abbrev pub Walks : Zone → ℕ → ℕ → List ℕ → Type 0
Walks z to cursor [] = to < cursor
Walks z to cursor (x ∷ xs) = (x ≡ cursor) × (cursor ≤ to) × Walks z to (add_days z cursor 1) xs

module _ (z : Zone) (c : Calendar) (to : ℕ) (goes_on : (ts : ℕ) → ts < add_days z ts 1) where
  days_from-Walks :
      (room cursor : ℕ)
      → to < cursor + room
      → (xs : List ℕ) × Walks z to cursor xs
        × (days_from z c room to cursor ≡ chosen (trades_on z c) xs)
  unfolding days_from
  days_from-Walks zero cursor h = ([], omega (arith, h), refl)
  days_from-Walks (suc room) cursor h = elim (Bool-cases (ltb to cursor)) [
    | inl past ↦ ([], ltb→lt _ _ past, rw (past, days_from) refl)
    | inr within ↦
        let on = goes_on cursor in
        let (xs, walk, same) = days_from-Walks room (add_days z cursor 1) (omega (arith, h, on)) in
        (cursor ∷ xs, (refl, ground arith, walk), rw (within, days_from, same) refl)
  ]

  pub trading_days-Walks :
      (from : ℕ)
      → (xs : List ℕ) × Walks z to (midnight z from) xs
        × (trading_days z c from to ≡ chosen (trades_on z c) xs)
  unfolding trading_days
  trading_days-Walks from =
      days_from-Walks (to + 1 - midnight z from) (midnight z from) (omega arith)
