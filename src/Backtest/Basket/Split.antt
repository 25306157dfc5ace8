-- ===== src/Backtest/Basket/Split.antt =====
-- internal/backtest/basket.go: the shares of the capital.
use mathlib.Core.Bool.{xor}
use native.Mathlib.Nat.{div-le_self, suc-mul, mul_comm, mod-lt, div-add-mod', mod-eq_of_lt}
use alvo_backtester.Base.{
  ℕ, ap, ◌^◌, zero, suc, ◌+◌, ◌-◌, ◌*◌, ◌/◌, ◌%◌, ◌<◌, ◌≤◌, ◌≡◌, refl, Bool, true, false, List, [],
  ◌∷◌, length, All, leb, arith, half_size, word_size, quot64, rem64, add64, sub64, mul64, lt64,
  magnitude, is_negative, ltb, if◌then◌else◌,
}
use alvo_backtester.Backtest.Basket.{split_capital, shares_from}

abbrev pub sum : List ℕ → ℕ
sum [] = 0
sum (x ∷ xs) = x + sum xs

leb_half : (a : ℕ) → a < half_size → leb half_size a ≡ false
leb_half a h = ground arith

quot64-div : (a b : ℕ) → a < half_size → b < half_size → quot64 a b ≡ a / b
unfolding quot64 magnitude is_negative xor
quot64-div a b h k =
    let bound = div-le_self a b in
    rw (leb_half a h, leb_half b k)
      (mod-eq_of_lt {n = a / b} {m = word_size} (omega (arith, bound)))

rem64-mod : (a b : ℕ) → a < half_size → b < half_size → rem64 a b ≡ a % b
unfolding rem64 mul64 sub64
rem64-mod a b h k = let whole = div-add-mod' a b in rw (quot64-div a b h k) (omega (arith, whole))

lt64-ltb : (a b : ℕ) → a < half_size → b < half_size → lt64 a b ≡ ltb a b
unfolding lt64
lt64-ltb a b h k = ground arith

wrap_free : (base : ℕ) → base + 1 < half_size → add64 base 1 ≡ base + 1
unfolding add64
wrap_free base b = omega arith

near_share :
    (more : Bool) (base : ℕ)
    → base + 1 < half_size
    → let share = if more then add64 base 1 else base in (base ≤ share) × (share ≤ base + 1)
near_share true base b = let fits = wrap_free base b in (omega arith, omega arith)
near_share false base b = (omega arith, omega arith)

sum-shares_from :
    (n i base extra : ℕ)
    → base + 1 < half_size
    → i + n < half_size
    → extra ≤ i + n
    → sum (shares_from n i base extra) ≡ n * base + (extra - i)
unfolding shares_from add64
sum-shares_from zero i base extra b h e = omega arith
sum-shares_from (suc n) i base extra b h e =
    let rest = sum-shares_from n (i + 1) base extra b (omega arith) (omega arith) in
    let more : suc n * base ≡ n * base + base = suc-mul n base in
    let fits = wrap_free base b in
    rw (lt64-ltb i extra (omega arith) (omega arith)) (ground (arith, rest, more, fits))

length-shares_from : (n i base extra : ℕ) → length (shares_from n i base extra) ≡ n
unfolding shares_from
length-shares_from zero i base extra = refl
length-shares_from (suc n) i base extra = ap suc (length-shares_from n (i + 1) base extra)

abbrev pub Near : ℕ → ℕ → Type 0
Near base share = (base ≤ share) × (share ≤ base + 1)

shares_from-Near :
    (n i base extra : ℕ) → base + 1 < half_size → All (Near base) (shares_from n i base extra)
unfolding shares_from
shares_from-Near zero i base extra b = tt
shares_from-Near (suc n) i base extra b =
    (near_share (lt64 i extra) base b, shares_from-Near n (i + 1) base extra b)

-- A capital that is not negative, split between instruments that there are some of, fewer than
-- 2 ^ 62 both: every instrument gets a share, the shares are equal to within a cent, and they add
-- up to the capital.
pub split_capital-sum :
    (total n : ℕ)
    → total < 2 ^ 62
    → 0 < n
    → n < 2 ^ 62
    → (length (split_capital total n) ≡ n)
      × All (Near (total / n)) (split_capital total n)
      × (sum (split_capital total n) ≡ total)
unfolding split_capital
split_capital-sum total n h p k =
    let small = div-le_self total n in
    let whole = div-add-mod' total n in
    let extra = mod-lt total p in
    let swap : n * (total / n) ≡ total / n * n = mul_comm n (total / n) in
    let fits : total / n + 1 < half_size = omega (arith, small) in
    let bound : total % n ≤ 0 + n = omega (arith, extra) in
    let all = sum-shares_from n 0 (total / n) (total % n) fits (omega arith) bound in
    rw
      (
        quot64-div total n (omega arith) (omega arith),
        rem64-mod total n (omega arith) (omega arith),
      )
      (
        length-shares_from n 0 (total / n) (total % n),
        shares_from-Near n 0 (total / n) (total % n) fits,
        omega (arith, all, swap, whole),
      )
