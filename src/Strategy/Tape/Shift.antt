-- ===== src/Strategy/Tape/Shift.antt =====
-- internal/strategy/eval.go: one push of the tape moves every reading one bar back.
use Prim.Native.Nat.{max}
use alvo_backtester.Base.{
  ℕ, ◌+◌, ◌-◌, ◌%◌, ◌<◌, ◌≡◌, ◌≢◌, refl, ap, List, arith, length, set, length-set, length-replicate,
  get_or-set_ne, get_or-set_self, Option, none, some, Float, true, Bool-cases, Option-cases, inl,
  inr, ltb, ltb→lt, tests,
}
use native.Mathlib.Nat.{mod-eq_of_lt, mod_self, add-mod_right}
use alvo_backtester.Indicator.{Candle, Indicator}
use alvo_backtester.Strategy.Spec.{Field, field_value}
use alvo_backtester.Strategy.Plan.{PlanUnit, Plan}
use alvo_backtester.Strategy.Tape.{
  Tape, no_candle, index, reachable, tape_slot, tape_field, next_at, push, new_tape,
}
use alvo_backtester.Strategy.Tape.Cells.{Untouched, push_units-Untouched}

-- The place is in the ring, and there is one as soon as a bar has been pushed.
abbrev IsPlace : ℕ → ℕ → Option ℕ → Type 0
IsPlace size filled none = filled ≡ 0
IsPlace size filled (some at) = at < size

pub record IsRing {F : Type 0} (t : Tape F) : Type 0 where
  pub two : 1 < t.size
  pub place : IsPlace t.size t.filled t.at
  pub bars : length t.bars ≡ t.size

-- The place `k` before `a`, on a ring of `n`.
abbrev before : ℕ → ℕ → ℕ → ℕ
before n a k = (a + n - k % n) % n

before-suc : (n a k : ℕ) → a < n → k + 1 < n → before n ((a + 1) % n) (k + 1) ≡ before n a k
before-suc n a k h g =
    let small : k % n ≡ k = mod-eq_of_lt (omega arith) in
    let small' : (k + 1) % n ≡ k + 1 = mod-eq_of_lt g in
    elim (Bool-cases (ltb (a + 1) n)) [
      | inl e ↦
          let stays : (a + 1) % n ≡ a + 1 = mod-eq_of_lt (ltb→lt _ _ e) in
          rw (small, small', stays) (ap (λ x. x % n) (omega arith))
      | inr e ↦
          let last : a + 1 ≡ n = omega tests in
          let wraps : (a + 1) % n ≡ 0 = rw (last, mod_self) in
          let sum : a + n - k ≡ (n - (k + 1)) + n = omega arith in
          rw (small, small', wraps, sum, add-mod_right) (ap (λ x. x % n) (omega arith))
    ]

before-ne : (n a k : ℕ) → a < n → k + 1 < n → (a + 1) % n ≢ before n a k
before-ne n a k h g = grind arith

before-zero : (n a : ℕ) → a < n → before n a 0 ≡ a
before-zero n a h = grind arith

module _ {F : Type 0} (t : Tape F) (ring : IsRing t) where
  next_at-lt : next_at t < t.size
  unfolding next_at
  next_at-lt = elim (Option-cases t.at) [
    | inl e ↦ let two = ring.two in rw e (omega arith)
    | inr (a, e) ↦ let two = ring.two in rw e (omega arith)
  ]

module _ {F S : Type 0} ⦃fl : Float F⦄ ⦃ind : Indicator S F⦄ (plan : Plan F) (c : Candle F)
    (us : List (PlanUnit S)) (t : Tape F) (ring : IsRing t) where
  open fl use {nan}

  pub untouched :
      Untouched
        (next_at t)
        (record t { at = some (next_at t); filled = t.filled + 1; bars = set t.bars (next_at t) c })
        (push plan c us t).1
  unfolding push
  untouched = push_units-Untouched plan.slots (next_at t) c us _

  -- After a push a tape that is a ring is still one, and one bar longer.
  pub push-IsRing : IsRing (push plan c us t).1 × ((push plan c us t).1.filled ≡ t.filled + 1)
  push-IsRing =
      let u = untouched in
      (
        record {
          two = rw u.size ring.two;
          place = rw (u.place, u.size) (next_at-lt t ring);
          bars = rw (u.bars, u.size, length-set t.bars (next_at t) c) ring.bars;
        },
        u.filled,
      )

  reachable-shift :
      (back : ℕ) → back + 1 < t.size → reachable (push plan c us t).1 (back + 1) ≡ reachable t back
  unfolding reachable
  reachable-shift back g = rw (untouched.size, untouched.filled) (ground arith)

  place-shift :
      (back : ℕ)
      → back + 1 < t.size
      → reachable t back ≡ true
      → (index (push plan c us t).1 (back + 1) ≡ index t back) × (next_at t ≢ index t back)
  unfolding index next_at reachable
  place-shift back g r = elim (Option-cases t.at) [
    | inl e ↦ let empty : t.filled ≡ 0 = rw e at ring.place in absurd (omega (arith, filled-pos))
    | inr (a, e) ↦
        let lt : a < t.size = rw e at ring.place in
        (
          rw (untouched.place, untouched.size, index, e) (before-suc t.size a back lt g),
          rw e (before-ne t.size a back lt g),
        )
  ]
    where
      filled-pos : back < t.filled
      filled-pos = ground arith

  slot-shift :
      (s : Option ℕ) (back : ℕ)
      → back + 1 < t.size
      → tape_slot (push plan c us t).1 s (back + 1) ≡ tape_slot t s back
  unfolding tape_slot
  slot-shift none back g = refl
  slot-shift (some s) back g = elim (Bool-cases (reachable t back)) [
    | inl r ↦
        let (same, apart) = place-shift back g r in
        rw (
          reachable-shift back g,
          same,
          untouched.values.rows,
          untouched.values.cells s _ nan apart,
        )
    | inr r ↦ rw (reachable-shift back g, r) (ground arith)
  ]

  field-shift :
      (f : Field) (back : ℕ)
      → back + 1 < t.size
      → tape_field (push plan c us t).1 f (back + 1) ≡ tape_field t f back
  unfolding tape_field
  field-shift f back g = elim (Bool-cases (reachable t back)) [
    | inl r ↦
        let (same, apart) = place-shift back g r in
        rw (
          reachable-shift back g,
          same,
          untouched.bars,
          get_or-set_ne t.bars (next_at t) (index t back) c no_candle apart,
        )
    | inr r ↦ rw (reachable-shift back g, r)
  ]

  index-now : index (push plan c us t).1 0 ≡ next_at t
  unfolding index
  index-now =
      rw (untouched.place, untouched.size, index)
        (before-zero t.size (next_at t) (next_at-lt t ring))

  field-now : (f : Field) → tape_field (push plan c us t).1 f 0 ≡ some (field_value f c)
  unfolding tape_field reachable
  field-now f =
      rw
        (
          untouched.size,
          untouched.filled,
          index-now,
          untouched.bars,
          get_or-set_self t.bars (next_at t) c no_candle (rw ring.bars (next_at-lt t ring)),
        )
        (ground (arith, ring.two))

  -- On a tape that is a ring, a push moves every reading, of a slot and of a field alike, one bar
  -- further back, as far back as the ring goes, and puts the new bar's fields at the front.
  pub push_shifts :
      ((s : Option ℕ) (back : ℕ)
        → back + 1 < t.size
        → tape_slot (push plan c us t).1 s (back + 1) ≡ tape_slot t s back)
      × ((f : Field) (back : ℕ)
          → back + 1 < t.size
          → tape_field (push plan c us t).1 f (back + 1) ≡ tape_field t f back)
      × ((f : Field) → tape_field (push plan c us t).1 f 0 ≡ some (field_value f c))
  push_shifts = (slot-shift, field-shift, field-now)

-- A new tape is a ring, whatever the plan.
pub new_tape-IsRing :
    {F S : Type 0} ⦃fl : Float F⦄ ⦃ind : Indicator S F⦄ (plan : Plan F) (us : List (PlanUnit S))
    → IsRing (new_tape plan us).1
unfolding new_tape
new_tape-IsRing plan us = record {
  two = omega arith;
  place = refl;
  bars = length-replicate (max (plan.depth + 1) 2) no_candle;
}
