-- ===== src/Indicator/Ring/Spots.antt =====
-- internal/indicator/ring.go: where the values of a ring stand before and after a push.
use alvo_backtester.Base.{
  ℕ, ◌+◌, ◌-◌, ◌%◌, ◌<◌, ◌≤◌, ◌≡◌, ◌≢◌, sym, ◌∙◌, ap, arith, ltb, if◌then◌else◌, Bool-cases, inl,
  inr, ltb→lt, tests,
}
use native.Mathlib.Nat.{mod-eq_of_lt, add-mod_right}

-- The remainder of what is below two turns.
abbrev wrap : ℕ → ℕ → ℕ
wrap n a = if ltb a n then a else a - n

mod-wrap : (n a : ℕ) → a < n + n → a % n ≡ wrap n a
mod-wrap n a h = elim (Bool-cases (ltb a n)) [
  | inl e ↦ simp (e) (mod-eq_of_lt (ltb→lt _ _ e))
  | inr e ↦
      let turned : a ≡ (a - n) + n = omega tests in
      simp (e) (ap (λ x. x % n) turned ∙ add-mod_right (a - n) n ∙ mod-eq_of_lt (omega tests))
]

-- Where the value `i` of a ring stands.
abbrev pub spot : ℕ → ℕ → ℕ → ℕ → ℕ
spot n next count i = ((next + n - count) % n + i) % n

spot-wrap :
    (n next count i : ℕ)
    → next < n
    → count ≤ n
    → i < n
    → spot n next count i ≡ wrap n (wrap n (next + n - count) + i)
spot-wrap n next count i a b c =
    let one : (next + n - count) % n ≡ wrap n (next + n - count) =
      mod-wrap n (next + n - count) (omega (arith, a, b)) in
    let low : wrap n (next + n - count) < n = ground arith in
    rw one (mod-wrap n (wrap n (next + n - count) + i) (omega (arith, low, c)))

pub spot-grow :
    (n next count i : ℕ)
    → next < n
    → count < n
    → i ≤ count
    → spot n ((next + 1) % n) (count + 1) i ≡ spot n next count i
spot-grow n next count i a b c =
    let turn = mod-wrap n (next + 1) (omega (arith, a, b)) in
    let low : wrap n (next + 1) < n = ground arith in
    rw turn (
      spot-wrap n (wrap n (next + 1)) (count + 1) i low (omega (arith, b)) (omega (arith, b, c))
      ∙ ground arith
      ∙ sym (spot-wrap n next count i a (omega (arith, b)) (omega (arith, b, c))))

pub spot-slide :
    (n next i : ℕ) → next < n → i + 1 < n → spot n ((next + 1) % n) n i ≡ spot n next n (i + 1)
spot-slide n next i a b =
    let turn = mod-wrap n (next + 1) (omega (arith, a, b)) in
    let low : wrap n (next + 1) < n = ground arith in
    rw turn (
      spot-wrap n (wrap n (next + 1)) n i low (omega arith) (omega (arith, b))
      ∙ ground arith
      ∙ sym (spot-wrap n next n (i + 1) a (omega arith) b))

pub spot-newest :
    (n next count : ℕ) → next < n → count < n → spot n ((next + 1) % n) (count + 1) count ≡ next
spot-newest n next count a b =
    let turn = mod-wrap n (next + 1) (omega (arith, a, b)) in
    let low : wrap n (next + 1) < n = ground arith in
    rw turn
      (spot-wrap n (wrap n (next + 1)) (count + 1) count low (omega (arith, b)) b ∙ ground arith)

pub spot-ne : (n next count i : ℕ) → next < n → count < n → i < count → next ≢ spot n next count i
spot-ne n next count i a b c e =
    let same = e ∙ spot-wrap n next count i a (omega (arith, b)) (omega (arith, b, c)) in
    ground arith

pub spot-ne_full : (n next i : ℕ) → next < n → i + 1 < n → next ≢ spot n next n (i + 1)
spot-ne_full n next i a b e =
    let same = e ∙ spot-wrap n next n (i + 1) a (omega arith) b in ground arith
