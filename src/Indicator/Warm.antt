-- ===== src/Indicator/Warm.antt =====
-- internal/indicator: what the building blocks of the indicators are after so many pushes.
use Prim.Native.Nat.{max, min}
use mathlib.Core.List.{map}
use alvo_backtester.Base.{
  ℕ, suc, ◌+◌, ◌-◌, ◌<◌, ◌≡◌, refl, sym, ◌∙◌, ap, Bool, true, false, List, [], ◌∷◌, arith, leb,
  if◌then◌else◌, length, length-set, length-replicate, Float, Bool-cases, inl, inr,
}
use alvo_backtester.Indicator.{Candle}
use alvo_backtester.Indicator.Ring
use alvo_backtester.Indicator.Ring.{Ring}
use alvo_backtester.Indicator.Window
use alvo_backtester.Indicator.Window.{Window}
use alvo_backtester.Indicator.Extreme
use alvo_backtester.Indicator.Extreme.{Extreme}
use alvo_backtester.Indicator.Ema
use alvo_backtester.Indicator.Ema.{Average}
use alvo_backtester.Indicator.Wilder
use alvo_backtester.Indicator.Wilder.{Wilder}
use alvo_backtester.Indicator.Wma
use alvo_backtester.Indicator.Wma.{Weighted}
use alvo_backtester.Indicator.Atr
use alvo_backtester.Indicator.Atr.{Range}

length-map : {A B : Type 0} (f : A → B) (xs : List A) → length (map f xs) ≡ length xs
length-map f [] = refl
length-map f (x ∷ xs) = ap suc (length-map f xs)

-- A part that is pushed only once what stands before it has seen more than `w` bars.
pub gate :
    {S : Type 0} (A : ℕ → S → Type 0) (opens : Bool) (s s' : S) (w k : ℕ)
    → opens ≡ leb (w + 1) (k + 1)
    → A (k - w) s
    → A (k - w + 1) s'
    → A (k + 1 - w) (if opens then s' else s)
gate A opens s s' w k is before after = elim (Bool-cases opens) [
  | inl up ↦ let same : k + 1 - w ≡ k - w + 1 = ground arith in rw (up, same) after
  | inr down ↦ let same : k + 1 - w ≡ k - w = ground arith in rw (down, same) before
]

-- Before the first bar it has seen none.
pub gate_reset : {S : Type 0} (A : ℕ → S → Type 0) (s : S) (w : ℕ) → A 0 s → A (0 - w) s
gate_reset A s w a = let none : 0 - w ≡ 0 = omega arith in rw none a

module _ {F : Type 0} where
  abbrev pub RingAfter : ℕ → ℕ → Ring F → Type 0
  RingAfter n k r = (length r.values ≡ n) × (r.count ≡ min k n)

  abbrev pub WindowAfter : ℕ → ℕ → Window F → Type 0
  WindowAfter n k w = RingAfter n k w.ring

  abbrev pub ExtremeAfter : ℕ → ℕ → Extreme F → Type 0
  ExtremeAfter n k e = (e.size ≡ n) × (e.seen ≡ k)

  abbrev pub EmaAfter : ℕ → ℕ → Average F → Type 0
  EmaAfter n k e =
      (e.period ≡ n)
      × (e.ready ≡ leb n k)
      × (length e.seed.values ≡ n)
      × (e.ready ≡ false → e.seed.count ≡ k)

  abbrev pub WilderAfter : ℕ → ℕ → Wilder F → Type 0
  WilderAfter n k w = (w.period ≡ n) × (w.ready ≡ leb n k) × (w.ready ≡ false → w.count ≡ k)

  abbrev pub WmaAfter : ℕ → ℕ → Weighted F → Type 0
  WmaAfter n k w = (w.period ≡ n) × RingAfter n k w.window × (w.ready ≡ leb n k)

  abbrev pub RangeAfter : ℕ → ℕ → Range F → Type 0
  RangeAfter n k a = (a.period ≡ n) × (a.span.seen ≡ leb 1 k) × WilderAfter n (k - 1) a.smooth

  pub ring_full : (n k : ℕ) (r : Ring F) → RingAfter n k r → Ring.full r ≡ leb n k
  unfolding Ring.full
  ring_full n k r (size, count) = rw (size, count) (ground arith)

  pub window_full : (n k : ℕ) (w : Window F) → WindowAfter n k w → Window.full w ≡ leb n k
  unfolding Window.full
  window_full n k w a = ring_full n k w.ring a

  pub extreme_full : (n k : ℕ) (e : Extreme F) → ExtremeAfter n k e → Extreme.full e ≡ leb n k
  unfolding Extreme.full
  extreme_full n k e (size, seen) = rw (size, seen)

  pub range_settled : (n k : ℕ) (a : Range F) → RangeAfter n k a → Atr.settled a ≡ leb n (k - 1)
  unfolding Atr.settled
  range_settled n k a after = after.2.1

-- The parts as they are made. A size below one is taken for one.
pub positive : (n : ℕ) → 0 < max n 1
positive n = omega arith

max_one : (n : ℕ) → 0 < n → max n 1 ≡ n
max_one n p = omega arith

module _ (F : Type 0) ⦃fl : Float F⦄ where
  pub ring_raw : (n : ℕ) → RingAfter {F = F} (max n 1) 0 (Ring.new n)
  unfolding Ring.new
  ring_raw n = (length-replicate (max n 1) _, omega arith)

  pub ring_new : (n : ℕ) → 0 < n → RingAfter {F = F} n 0 (Ring.new n)
  ring_new n p = let (size, count) = ring_raw n in (size ∙ max_one n p, omega (arith, count))

  pub window_new : (n : ℕ) → 0 < n → WindowAfter {F = F} n 0 (Window.new n)
  unfolding Window.new
  window_new n p = ring_new n p

  pub extreme_new :
      (n : ℕ) (highest : Bool) → 0 < n → ExtremeAfter {F = F} n 0 (Extreme.new n highest)
  unfolding Extreme.new
  extreme_new n highest p = (max_one n p, refl)

  pub ema_raw : (n : ℕ) → EmaAfter {F = F} (max n 1) 0 (Ema.start n)
  unfolding Ema.start
  ema_raw n =
      let (size, count) = ring_new (max n 1) (positive n) in
      (refl, ground arith, size, λ e. omega (arith, count))

  pub ema_new : (n : ℕ) → 0 < n → EmaAfter {F = F} n 0 (Ema.start n)
  ema_new n p = let same = max_one n p in rw same at (ema_raw n)

  pub wilder_new : (n : ℕ) → 0 < n → WilderAfter {F = F} n 0 (Wilder.new n)
  unfolding Wilder.new
  wilder_new n p = (max_one n p, ground arith, λ e. refl)

  pub wma_raw : (n : ℕ) → WmaAfter {F = F} (max n 1) 0 (Wma.start n)
  unfolding Wma.start
  wma_raw n = (refl, ring_new (max n 1) (positive n), ground arith)

  pub wma_new : (n : ℕ) → 0 < n → WmaAfter {F = F} n 0 (Wma.start n)
  wma_new n p = let same = max_one n p in rw same at (wma_raw n)

  pub range_raw : (n : ℕ) → RangeAfter {F = F} (max n 1) 0 (Atr.start n)
  unfolding Atr.start
  range_raw n = (refl, ground arith, wilder_new (max n 1) (positive n))

module _ {F : Type 0} ⦃fl : Float F⦄ where
  pub ring_push :
      (n k : ℕ) (r : Ring F) (x : F) → RingAfter n k r → RingAfter n (k + 1) (Ring.push r x)
  unfolding Ring.push
  ring_push n k r x (size, count) =
      (length-set r.values r.next x ∙ size, rw (size, count) (ground arith))

  pub ring_reset : (n k : ℕ) (r : Ring F) → RingAfter n k r → RingAfter n 0 (Ring.reset r)
  unfolding Ring.reset
  ring_reset n k r (size, count) = (length-map _ r.values ∙ size, omega arith)

  pub window_push :
      (n k : ℕ) (w : Window F) (x : F) → WindowAfter n k w → WindowAfter n (k + 1) (Window.push w x)
  unfolding Window.push
  window_push n k w x a = ring_push n k w.ring x a

  pub window_reset : (n k : ℕ) (w : Window F) → WindowAfter n k w → WindowAfter n 0 (Window.reset w)
  unfolding Window.reset
  window_reset n k w a = ring_reset n k w.ring a

  pub extreme_push :
      (n k : ℕ) (e : Extreme F) (x : F)
      → ExtremeAfter n k e
      → ExtremeAfter n (k + 1) (Extreme.push e x)
  unfolding Extreme.push Extreme.expire Extreme.append
  extreme_push n k e x (size, seen) = ground arith

  pub extreme_reset :
      (n k : ℕ) (e : Extreme F) → ExtremeAfter n k e → ExtremeAfter n 0 (Extreme.reset e)
  unfolding Extreme.reset
  extreme_reset n k e (size, seen) = (size, refl)

  pub ema_push :
      (n k : ℕ) (e : Average F) (x : F) → 0 < n → EmaAfter n k e → EmaAfter n (k + 1) (Ema.push e x)
  unfolding Ema.push Ema.seeded
  ema_push n k e x p (period, ready, size, count) =
      ground (arith, ring_push n k e.seed x, ring_full n (k + 1) (Ring.push e.seed x))

  pub ema_reset : (n k : ℕ) (e : Average F) → 0 < n → EmaAfter n k e → EmaAfter n 0 (Ema.clear e)
  unfolding Ema.clear Ring.reset
  ema_reset n k e p (period, ready, size, count) =
      (period, ground arith, length-map _ e.seed.values ∙ size, λ h. refl)

  pub wilder_push :
      (n k : ℕ) (w : Wilder F) (x : F)
      → 0 < n
      → WilderAfter n k w
      → WilderAfter n (k + 1) (Wilder.push w x)
  unfolding Wilder.push Wilder.gathered
  wilder_push n k w x p (period, ready, count) = ground arith

  pub wilder_reset :
      (n k : ℕ) (w : Wilder F) → 0 < n → WilderAfter n k w → WilderAfter n 0 (Wilder.reset w)
  unfolding Wilder.reset
  wilder_reset n k w p (period, ready, count) = (period, ground arith, λ e. refl)

  pub wma_push :
      (n k : ℕ) (w : Weighted F) (x : F) → WmaAfter n k w → WmaAfter n (k + 1) (Wma.push w x)
  unfolding Wma.push
  wma_push n k w x (period, window, ready) =
      ground (arith, ring_push n k w.window x window, ring_full n (k + 1) (Ring.push w.window x))

  pub wma_reset : (n k : ℕ) (w : Weighted F) → 0 < n → WmaAfter n k w → WmaAfter n 0 (Wma.clear w)
  unfolding Wma.clear
  wma_reset n k w p (period, window, ready) = (period, ring_reset n k w.window window, ground arith)

  pub range_push :
      (n k : ℕ) (a : Range F) (c : Candle F)
      → 0 < n
      → RangeAfter n k a
      → RangeAfter n (k + 1) (Atr.push a c)
  unfolding Atr.push Atr.push_range Atr.smoothed
  range_push n k a c p (period, seen, smooth) =
      let start : leb 1 (k + 1) ≡ true = ground arith in
      elim (Bool-cases a.span.seen) [
        | inl old ↦
            let later : k + 1 - 1 ≡ k - 1 + 1 = ground arith in
            let pushed = wilder_push n (k - 1) a.smooth (Atr.true_range c a.span.close) p smooth in
            rw (old, later) (period, sym start, pushed)
        | inr fresh ↦
            let same : k + 1 - 1 ≡ k - 1 = ground arith in
            rw (fresh, same) (period, sym start, smooth)
      ]

  pub range_reset :
      (n k : ℕ) (a : Range F) → 0 < n → RangeAfter n k a → RangeAfter n 0 (Atr.clear a)
  unfolding Atr.clear
  range_reset n k a p (period, seen, smooth) =
      (period, ground arith, wilder_reset n (k - 1) a.smooth p smooth)
