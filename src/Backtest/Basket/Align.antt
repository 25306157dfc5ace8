-- ===== src/Backtest/Basket/Align.antt =====
-- internal/backtest/basket.go: a sleeve's curve on the stamps of the basket.
use alvo_backtester.Base.{
  ℕ, ◌<◌, ◌≤◌, ◌≡◌, refl, sym, true, List, [], ◌∷◌, map, leb, All, arith, if◌then◌else◌, Bool-cases,
  inl, inr,
}
use alvo_backtester.Backtest.Book.{EquityPoint}
use alvo_backtester.Backtest.Book.Timeline.Union.{IsAscending}
use alvo_backtester.Backtest.Basket.{catch_up, align_from, align_sleeve}

-- The last of the points that is not after `ts`, or the start where none is.
abbrev pub worth_at : ℕ → ℕ → List EquityPoint → ℕ
worth_at ts start [] = start
worth_at ts start (p ∷ own) = if leb p.ts ts then worth_at ts p.cents own else worth_at ts start own

abbrev pub own_stamps : List EquityPoint → List ℕ
own_stamps own = map (λ (p : EquityPoint). p.ts) own

worth_at-later :
    (ts start bound : ℕ) (own : List EquityPoint)
    → ts < bound
    → All (λ t. bound < t) (own_stamps own)
    → worth_at ts start own ≡ start
worth_at-later ts start bound [] h a = refl
worth_at-later ts start bound (p ∷ own) h a =
    ground (arith, worth_at-later ts start bound own h a.1, a.0)

catch_up-now :
    (ts last : ℕ) (own : List EquityPoint)
    → IsAscending (own_stamps own)
    → (catch_up ts last own).0 ≡ worth_at ts last own
unfolding catch_up
catch_up-now ts last [] a = refl
catch_up-now ts last (p ∷ own) a = elim (Bool-cases (leb p.ts ts)) [
  | inl reached ↦ rw (reached, catch_up) (catch_up-now ts p.cents own a.1)
  | inr later ↦ rw (later, catch_up) (sym (worth_at-later ts last p.ts own (ground arith) a.0))
]

catch_up-then :
    (ts t last : ℕ) (own : List EquityPoint)
    → ts ≤ t
    → worth_at t (catch_up ts last own).0 (catch_up ts last own).1 ≡ worth_at t last own
unfolding catch_up
catch_up-then ts t last [] h = refl
catch_up-then ts t last (p ∷ own) h = elim (Bool-cases (leb p.ts ts)) [
  | inl reached ↦
      let also : leb p.ts t ≡ true = ground arith in
      rw (reached, also, catch_up) (catch_up-then ts t p.cents own h)
  | inr later ↦ rw (later, catch_up)
]

catch_up-IsAscending :
    (ts last : ℕ) (own : List EquityPoint)
    → IsAscending (own_stamps own)
    → IsAscending (own_stamps (catch_up ts last own).1)
unfolding catch_up
catch_up-IsAscending ts last [] a = tt
catch_up-IsAscending ts last (p ∷ own) a = elim (Bool-cases (leb p.ts ts)) [
  | inl reached ↦ rw (reached, catch_up) (catch_up-IsAscending ts p.cents own a.1)
  | inr later ↦ rw (later, catch_up) a
]

same_worth :
    (ts last : ℕ) (own : List EquityPoint) (stamps : List ℕ)
    → All (λ t. ts < t) stamps
    → map (λ t. worth_at t (catch_up ts last own).0 (catch_up ts last own).1) stamps
      ≡ map (λ t. worth_at t last own) stamps
same_worth ts last own [] a = refl
same_worth ts last own (t ∷ stamps) a =
    rw (catch_up-then ts t last own (omega (arith, a.0)), same_worth ts last own stamps a.1)

align_from-worth_at :
    (stamps : List ℕ) (last : ℕ) (own : List EquityPoint)
    → IsAscending stamps
    → IsAscending (own_stamps own)
    → align_from stamps last own ≡ map (λ ts. worth_at ts last own) stamps
unfolding align_from
align_from-worth_at [] last own a o = refl
align_from-worth_at (ts ∷ stamps) last own a o =
    let rest =
      align_from-worth_at stamps (catch_up ts last own).0 (catch_up ts last own).1 a.1
        (catch_up-IsAscending ts last own o) in
    rw (rest, same_worth ts last own stamps a.0, catch_up-now ts last own o)

-- When the stamps of the basket and those of a sleeve's points ascend, `alignSleeve`, which walks
-- both once, gives at every stamp the value of the last point that is not after it, and the start
-- where there is none.
pub align_sleeve-worth_at :
    (stamps : List ℕ) (own : List EquityPoint) (start : ℕ)
    → IsAscending stamps
    → IsAscending (own_stamps own)
    → align_sleeve stamps own start ≡ map (λ ts. worth_at ts start own) stamps
unfolding align_sleeve
align_sleeve-worth_at stamps own start a o = align_from-worth_at stamps start own a o
