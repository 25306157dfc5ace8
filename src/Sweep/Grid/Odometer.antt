-- ===== src/Sweep/Grid/Odometer.antt =====
-- internal/sweep/axis.go: the cursor of a grid counts through its points.
use native.Mathlib.Nat.{add-mul}
use alvo_backtester.Base.{
  ℕ, ◌+◌, ◌*◌, ◌<◌, ◌≡◌, refl, ap, true, false, List, [], ◌∷◌, ltb, arith, Bool-cases, inl, inr,
}
use alvo_backtester.Sweep.Grid.{turn}

abbrev pub product : List ℕ → ℕ
product [] = 1
product (n ∷ ns) = n * product ns

-- The cursor as a number, the first axis its highest digit.
abbrev pub number : List ℕ → List ℕ → ℕ
number (n ∷ ns) (c ∷ cursor) = c * product ns + number ns cursor
number _ cursor = 0

-- Every digit of the cursor is a place of its axis.
abbrev pub Points : List ℕ → List ℕ → Type 0
Points [] [] = Unit
Points (n ∷ ns) (c ∷ cursor) = (c < n) × Points ns cursor
Points _ _ = ⊥

one_digit : (c size : ℕ) → (c + 1) * size ≡ c * size + size
one_digit c size = let split = add-mul c 1 size in omega (arith, split)

-- A turn goes to the next number, or from the last one back to zero.
pub turn-number :
    (ns cursor : List ℕ)
    → Points ns cursor
    → let (carry, next) = turn ns cursor in
      Points ns next
      × (carry ≡ false → number ns next ≡ number ns cursor + 1)
      × (carry ≡ true → (number ns next ≡ 0) × (number ns cursor + 1 ≡ product ns))
unfolding turn
turn-number [] [] p = (tt, λ e. cc, λ e. (refl, refl))
turn-number [] (c ∷ cursor) p = absurd p
turn-number (n ∷ ns) [] p = absurd p
turn-number (n ∷ ns) (c ∷ cursor) p =
    let (inside, plain, wraps) = turn-number ns cursor p.1 in
    elim (Bool-cases (turn ns cursor).0) [
      | inl carry ↦
          let (zero_left, full) = wraps carry in
          let digit : (c + 1) * product ns ≡ c * product ns + product ns =
            one_digit c (product ns) in
          elim (Bool-cases (ltb (c + 1) n)) [
            | inl more ↦
                rw (carry, more, turn)
                  ((ground arith, inside), (λ e. omega (arith, zero_left, full, digit)), λ e. cc)
            | inr last ↦
                rw (carry, last, turn)
                  (
                    (omega (arith, p.0), inside),
                    (λ e. cc),
                    λ e.
                        let end : c + 1 ≡ n = ground (arith, p.0) in
                        let top : (c + 1) * product ns ≡ n * product ns =
                          ap (λ d. d * product ns) end in
                        (omega (arith, zero_left), omega (arith, full, digit, top)),
                  )
          ]
      | inr stays ↦
          rw (stays, turn)
            ((p.0, inside), (λ e. let step = plain stays in omega (arith, step)), λ e. cc)
    ]
