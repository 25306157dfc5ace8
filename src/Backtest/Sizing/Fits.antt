-- ===== src/Backtest/Sizing/Fits.antt =====
-- internal/backtest/sizing.go: what the size of an entry satisfies.
use native.Mathlib.Nat.{
  le-mul_of_pos_right, div-le_self, div-mul-le_self, add-mul, zero-mul, suc-mul,
}
use mathlib.Core.Logic.{◌⊎◌, inl, inr}
use mathlib.Core.Bool.{xor}
use alvo_backtester.Base.{
  ℕ, zero, suc, ◌+◌, ◌-◌, ◌*◌, ◌/◌, ◌%◌, ◌<◌, ◌≤◌, ◌≡◌, refl, sym, ◌∙◌, true, false, ◌&&◌, refl,
  Bool-cases, arith, half_size, word_size, leb, quot64, sub64, mul64, neg64, lt64, le64, max64,
  magnitude, is_negative, Float,
}
use alvo_backtester.Strategy.Spec.{Sizing}
use alvo_backtester.Backtest.Broker.{Costing}
use alvo_backtester.Backtest.Sizing.{cost, shrink, size}

-- Whole lots, none of them owed.
abbrev pub InLots : ℕ → ℕ → Type 0
InLots lot qty = (k : ℕ) × (qty ≡ k * lot)

neg_stays : (qty : ℕ) → half_size ≤ qty → qty < word_size → lt64 0 qty ≡ false
unfolding lt64
neg_stays qty h k = ground arith

-- The whole lots of a quantity that is owed are owed too.
owed_lots :
    (q lot : ℕ)
    → q * lot ≤ half_size
    → q < word_size
    → 0 < lot
    → let lots = (word_size - q % word_size) % word_size * lot % word_size in
      (lots ≡ 0) ⊎ ((half_size ≤ lots) × (lots < word_size))
owed_lots zero lot h k p = let nothing = zero-mul lot in inl (omega (arith, nothing))
owed_lots (suc q) lot h k p =
    let split = add-mul (word_size - suc q) (suc q) lot in
    let whole : word_size - suc q + suc q ≡ word_size = omega arith in
    let split' : word_size * lot ≡ (word_size - suc q) * lot + suc q * lot = rw whole at split in
    let same : suc q * lot ≡ q * lot + lot = suc-mul q lot in
    let plain : (word_size - suc q % word_size) % word_size ≡ word_size - suc q = omega arith in
    inr (rw plain (omega arith, omega arith))

lots_of :
    (capped lot : ℕ)
    → 0 < lot
    → lot < half_size
    → let lots = mul64 (quot64 capped lot) lot in
      (InLots lot lots × (lots < half_size)) ⊎ ((half_size ≤ lots) × (lots < word_size))
unfolding mul64 quot64 magnitude is_negative neg64 xor
lots_of capped lot p h =
    let plain : leb half_size lot ≡ false = ground arith in
    elim (Bool-cases (leb half_size capped)) [
      | inl negative ↦
          let owed = word_size - capped in
          let fits = div-mul-le_self owed lot in
          let small = div-le_self owed lot in
          rw (plain, negative)
            (elim (owed_lots (owed / lot) lot (ground arith) (ground arith) p) [
              | inl none ↦ inl ((0, none ∙ sym (zero-mul lot)), omega (arith, none))
              | inr far ↦ inr far
            ])
      | inr positive ↦
          let fits = div-mul-le_self capped lot in
          let small = div-le_self capped lot in
          let bound : capped < half_size = ground arith in
          let same : capped / lot % word_size ≡ capped / lot = omega arith in
          rw (plain, positive, same) (inl ((capped / lot, omega arith), omega arith))
    ]

module _ {F : Type 0} ⦃fl : Float F⦄ where
  shrink-negative :
      (fuel cash lot : ℕ) (c : Costing F) (price : F) (qty : ℕ)
      → lt64 0 qty ≡ false
      → shrink fuel cash lot c price qty ≡ qty
  unfolding shrink
  shrink-negative zero cash lot c price qty h = refl
  shrink-negative (suc fuel) cash lot c price qty h = rw h

  shrink-stops :
      (fuel k cash lot : ℕ) (c : Costing F) (price : F) (qty : ℕ)
      → k ≤ fuel
      → qty ≡ k * lot
      → 0 < lot
      → qty < half_size
      → let left = shrink fuel cash lot c price qty in
        ((lt64 0 left && lt64 cash (cost c left price)) ≡ false)
        × InLots lot left
        × (left < half_size)
  unfolding shrink lt64 sub64
  shrink-stops fuel zero cash lot c price qty h is p b =
      let none : qty ≡ 0 = is ∙ zero-mul lot in
      let idle : lt64 0 qty ≡ false = rw (none, lt64) in
      let same = shrink-negative fuel cash lot c price qty idle in
      rw (same, idle) (refl, (0, is), b)
  shrink-stops zero (suc k) cash lot c price qty h is p b = absurd (omega arith)
  shrink-stops (suc fuel) (suc k) cash lot c price qty h is p b =
      elim (Bool-cases (lt64 0 qty && lt64 cash (cost c qty price))) [
        | inl dear ↦
            let split : suc k * lot ≡ k * lot + lot = suc-mul k lot in
            let next : sub64 qty lot ≡ k * lot = omega arith in
            let smaller : sub64 qty lot < half_size = omega arith in
            rw dear
              (shrink-stops fuel k cash lot c price (sub64 qty lot) (omega arith) next p smaller)
        | inr fits ↦ rw (fits, fits) (refl, (suc k, is), b)
      ]

lot_bounds :
    (lot_size : ℕ) → lot_size < word_size → (0 < max64 lot_size 1) × (max64 lot_size 1 < half_size)
unfolding max64 lt64
lot_bounds lot_size h = ground arith

max64-keeps : (qty : ℕ) → qty < half_size → max64 qty 0 ≡ qty
unfolding max64 lt64
max64-keeps qty h = ground arith

max64-drops : (qty : ℕ) → half_size ≤ qty → qty < word_size → max64 qty 0 ≡ 0
unfolding max64 lt64
max64-drops qty h k = ground arith

paid :
    (left cash price : ℕ)
    → left < half_size
    → (lt64 0 left && lt64 cash price) ≡ false
    → (left ≡ 0) ⊎ (le64 price cash ≡ true)
unfolding lt64 le64
paid left cash price b h = ground arith

-- A quantity is whole lots, is not negative, and is zero or costs no more than the cash.
abbrev pub Fits : {F : Type 0} ⦃fl : Float F⦄ → ℕ → ℕ → Costing F → F → ℕ → Type 0
Fits cash lot c price qty =
    InLots lot qty × (qty < half_size) × ((qty ≡ 0) ⊎ (le64 (cost c qty price) cash ≡ true))

module _ {F : Type 0} ⦃fl : Float F⦄ where
  left-Fits :
      (cash lot capped : ℕ) (c : Costing F) (price : F)
      → 0 < lot
      → lot < half_size
      → let lots = mul64 (quot64 capped lot) lot in
        Fits cash lot c price (max64 (shrink lots cash lot c price lots) 0)
  left-Fits cash lot capped c price p b = elim (lots_of capped lot p b) [
    | inl ((k, is), small) ↦
        let lots : ℕ = mul64 (quot64 capped lot) lot in
        let enough : k ≤ lots = let le = le-mul_of_pos_right {m = lot} k p in omega arith in
        let (stopped, whole, bound) = shrink-stops lots k cash lot c price lots enough is p small in
        rw (max64-keeps (shrink lots cash lot c price lots) bound)
          (whole, bound, paid (shrink lots cash lot c price lots) cash _ bound stopped)
    | inr (owed, word) ↦
        let lots : ℕ = mul64 (quot64 capped lot) lot in
        let same = shrink-negative lots cash lot c price lots (neg_stays lots owed word) in
        rw (same, max64-drops lots owed word) ((0, sym (zero-mul lot)), omega arith, inl refl)
  ]

  -- Whatever the sizing asks for, and with a lot that is an `int64`, the size of an entry is a
  -- whole number of lots, is not negative, and is zero or costs, fees included, no more than the
  -- cash; a symbol whose lot is not positive trades in lots of one. The loop that takes lots off
  -- always ends with such a size.
  pub size-Fits :
      (sizing : Sizing F) (cash lot_size : ℕ) (c : Costing F) (price stop : F)
      → lot_size < word_size
      → Fits cash (max64 lot_size 1) c price (size sizing cash lot_size c price stop)
  unfolding size
  size-Fits sizing cash lot_size c price stop h =
      let lot : ℕ = max64 lot_size 1 in
      let (p, b) = lot_bounds lot_size h in
      elim (Bool-cases (fl.le price (fl.decimal 0 0))) [
        | inl free ↦ rw free ((0, sym (zero-mul lot)), omega arith, inl refl)
        | inr priced ↦ rw priced (left-Fits cash lot _ c price p b)
      ]
