-- ===== src/Strategy/Tape/Primed.antt =====
-- internal/strategy/eval.go: a new tape that is given bars, against the list of the bars.
use Prim.Native.Nat.{max}
use alvo_backtester.Base.{
  ℕ, zero, suc, ◌+◌, ◌<◌, ◌≡◌, refl, sym, ◌∙◌, ap, List, [], ◌∷◌, map, arith, length, replicate,
  length-replicate, get_or, get_elem?, Option, none, some, Float,
}
use alvo_backtester.Indicator.{Candle, Indicator}
use alvo_backtester.Strategy.Spec.{Field, field_value}
use alvo_backtester.Strategy.Plan.{PlanSlot, PlanUnit, Plan}
use alvo_backtester.Strategy.Tape.{Tape, reachable, tape_field, push, prime, new_tape}
use alvo_backtester.Strategy.Tape.Shift.{
  IsRing, new_tape-IsRing, push-IsRing, push_shifts, untouched,
}

-- The reading of a field of a bar, if there is one.
abbrev pub field_of : {F : Type 0} ⦃fl : Float F⦄ → Field → Option (Candle F) → Option F
field_of f none = none
field_of f (some c) = some (field_value f c)

-- The bars, the newest first, after these have followed.
abbrev pub newest : {F : Type 0} → List (Candle F) → List (Candle F) → List (Candle F)
newest [] past = past
newest (c ∷ cs) past = newest cs (c ∷ past)

-- The tape has a row as wide as the ring for every slot of the plan, and reads the bars, the newest first, as
-- far back as the ring goes.
pub record HoldsBars {F : Type 0} ⦃fl : Float F⦄ (plan : Plan F) (t : Tape F)
    (past : List (Candle F)) : Type 0 where
  pub ring : IsRing t
  pub size : t.size ≡ max (plan.depth + 1) 2
  pub filled : t.filled ≡ length past
  pub rows : length t.values ≡ length plan.slots
  pub widths : (s : ℕ) → s < length plan.slots → length (get_or t.values s []) ≡ t.size
  pub reads :
      (f : Field) (back : ℕ)
      → back < t.size
      → tape_field t f back ≡ field_of f (get_elem? past back)

module _ {F : Type 0} (size : ℕ) (zeros : F) where
  rows-new :
      (slots : List PlanSlot)
      → length (map {A = PlanSlot} {B = List F} (λ s. replicate size zeros) slots) ≡ length slots
  rows-new [] = refl
  rows-new (s ∷ slots) = ap suc (rows-new slots)

  widths-new :
      (slots : List PlanSlot) (s : ℕ)
      → s < length slots
      → length (get_or (map {A = PlanSlot} {B = List F} (λ s. replicate size zeros) slots) s [])
        ≡ size
  widths-new [] s h = absurd (omega (arith, h))
  widths-new (x ∷ slots) zero h = length-replicate size zeros
  widths-new (x ∷ slots) (suc s) h = widths-new slots s (omega (arith, h))

module _ {F : Type 0} ⦃fl : Float F⦄ where
  not_reached : (t : Tape F) (f : Field) (back : ℕ) → t.filled ≡ 0 → tape_field t f back ≡ none
  unfolding tape_field reachable
  not_reached t f back e = rw e (ground arith)

module _ {F S : Type 0} ⦃fl : Float F⦄ ⦃ind : Indicator S F⦄ (plan : Plan F) where
  open fl use {decimal}

  new_tape-HoldsBars : (us : List (PlanUnit S)) → HoldsBars plan (new_tape plan us).1 []
  unfolding new_tape
  new_tape-HoldsBars us = record {
    ring = new_tape-IsRing plan us;
    size = refl;
    filled = refl;
    rows = rows-new (max (plan.depth + 1) 2) (decimal 0 0) plan.slots;
    widths = widths-new (max (plan.depth + 1) 2) (decimal 0 0) plan.slots;
    reads = λ f back h. not_reached (new_tape plan us).1 f back refl;
  }

  push-reads :
      (c : Candle F) (us : List (PlanUnit S)) (t : Tape F) (past : List (Candle F)) (f : Field)
      (back : ℕ)
      → HoldsBars plan t past
      → back < t.size
      → tape_field (push plan c us t).1 f back ≡ field_of f (get_elem? (c ∷ past) back)
  push-reads c us t past f zero h lo = (push_shifts plan c us t h.ring).2 f
  push-reads c us t past f (suc back) h lo =
      let one : back + 1 ≡ suc back = omega arith in
      ap (λ b. tape_field (push plan c us t).1 f b) (sym one)
      ∙ (push_shifts plan c us t h.ring).1 f back (omega (arith, lo))
      ∙ h.reads f back (omega (arith, lo))

  push-HoldsBars :
      (c : Candle F) (us : List (PlanUnit S)) (t : Tape F) (past : List (Candle F))
      → HoldsBars plan t past
      → HoldsBars plan (push plan c us t).1 (c ∷ past)
  push-HoldsBars c us t past h =
      let (ring, filled) = push-IsRing plan c us t h.ring in
      let u = untouched plan c us t h.ring in
      let held = h.filled in
      record {
        ring = ring;
        size = u.size ∙ h.size;
        filled = omega (arith, filled, held);
        rows = u.values.rows ∙ h.rows;
        widths = λ s lo. u.values.widths s ∙ h.widths s lo ∙ sym u.size;
        reads = λ f back lo. push-reads c us t past f back h (rw u.size at lo);
      }

  prime-HoldsBars :
      (cs : List (Candle F)) (us : List (PlanUnit S)) (t : Tape F) (past : List (Candle F))
      → HoldsBars plan t past
      → HoldsBars plan (prime plan cs us t).1 (newest cs past)
  unfolding prime
  prime-HoldsBars [] us t past h = h
  prime-HoldsBars (c ∷ cs) us t past h =
      let (us', t') = push plan c us t in
      prime-HoldsBars cs us' t' (c ∷ past) (push-HoldsBars c us t past h)

  -- A new tape that is given bars one after the other is a ring that has a row of the ring's width for every
  -- slot of the plan, counts the bars, and reads any field of the bars, the newest first, as far back as the
  -- ring goes, and nothing where there are fewer bars than that.
  pub new_tape-prime :
      (us : List (PlanUnit S)) (cs : List (Candle F))
      → HoldsBars plan (prime plan cs (new_tape plan us).0 (new_tape plan us).1).1 (newest cs [])
  new_tape-prime us cs =
      prime-HoldsBars cs (new_tape plan us).0 (new_tape plan us).1 [] (new_tape-HoldsBars us)
