-- ===== src/Strategy/Tape.antt =====
-- internal/strategy/eval.go: the tape, a ring of the last bars and of every slot's last values.
pub mod Cells
pub mod Shift
pub mod Primed
use Prim.Native.Nat.{max}
use alvo_backtester.Base.{
  ℕ, zero, suc, ◌+◌, ◌-◌, ◌%◌, Bool, true, false, ◌&&◌, Option, none, some, List, [], ◌∷◌, map, ltb,
  leb, if◌then◌else◌, length, get_or, set, replicate, Float,
}
use alvo_backtester.Indicator.{Candle, Indicator}
use alvo_backtester.Strategy.Spec.{Field, field_value}
use alvo_backtester.Strategy.Eval.{Frame, fires}
use alvo_backtester.Strategy.Plan.{PlanSlot, PlanUnit, Plan, Leg}

-- `at` is `none` where the source has -1, before the first push.
pub record Tape (F : Type 0) : Type 0 where
  pub size : ℕ
  pub at : Option ℕ
  pub filled : ℕ
  pub bars : List (Candle F)
  pub values : List (List F)

-- `t.values[slot][at] = v`
unfoldable pub set_cell : {F : Type 0} → List (List F) → ℕ → ℕ → F → List (List F)
set_cell values slot at v = set values slot (set (get_or values slot []) at v)

module _ {F : Type 0} ⦃fl : Float F⦄ where
  open fl use {decimal, nan, is_nan}

  -- `indicator.Candle{}`
  abbrev pub no_candle : Candle F
  no_candle = record {
    ts = 0;
    opening = decimal 0 0;
    high = decimal 0 0;
    low = decimal 0 0;
    close = decimal 0 0;
    volume = decimal 0 0;
  }

  -- `Tape.index`. The source takes a remainder that may be negative and adds the size; the place is
  -- the one `back` before `at` round the ring. It is asked for only after a push.
  unfoldable pub index : Tape F → ℕ → ℕ
  index t back = elim t.at [ none ↦ 0 | some at ↦ (at + t.size - back % t.size) % t.size ]

  unfoldable pub reachable : Tape F → ℕ → Bool
  reachable t back = ltb back t.size && ltb back t.filled

  -- `Tape.Slot`
  unfoldable pub tape_slot : Tape F → Option ℕ → ℕ → Option F
  unfolding index reachable
  tape_slot t none back = none
  tape_slot t (some slot) back =
      if ltb slot (length t.values) && reachable t back
      then (let value = get_or (get_or t.values slot []) (index t back) nan in
          if is_nan value then none else some value)
      else none

  -- `Tape.Field`
  unfoldable pub tape_field : Tape F → Field → ℕ → Option F
  unfolding index reachable field_value
  tape_field t field back =
      if reachable t back
      then some (field_value field (get_or t.bars (index t back) no_candle))
      else none

  unfoldable pub frame_of : Tape F → Frame F
  unfolding tape_slot tape_field
  frame_of t = record { slot = tape_slot t; field = tape_field t }

  -- `Tape.Entry` and `Tape.Exit`
  unfoldable pub entry_fires : Leg F → Tape F → Bool
  entry_fires leg t = fires leg.entry (frame_of t)

  unfoldable pub exit_fires : Leg F → Tape F → Bool
  exit_fires leg t = fires leg.exit (frame_of t)

  -- The loop of `Tape.blank` over the slots of a unit.
  unfoldable pub blank : List ℕ → ℕ → List (List F) → List (List F)
  unfolding set_cell
  blank [] at values = values
  blank (slot ∷ slots) at values = blank slots at (set_cell values slot at nan)

  -- The loop of `Push` that stores what an indicator emits; an output that it lacks is a NaN.
  unfoldable pub store : List PlanSlot → List F → List ℕ → ℕ → List (List F) → List (List F)
  unfolding set_cell
  store plan emitted [] at values = values
  store plan emitted (slot ∷ slots) at values =
      let output = (get_or plan slot (record { unit = 0; output = 0 })).output in
      let v = if leb (length emitted) output then nan else get_or emitted output nan in
      store plan emitted slots at (set_cell values slot at v)

  -- The candle that a chained unit reads: its source's value, at every price.
  abbrev pub candle_at : Candle F → F → Candle F
  candle_at c value = record {
    ts = c.ts;
    opening = value;
    high = value;
    low = value;
    close = value;
    volume = c.volume;
  }

  -- What a unit reads of a bar; nothing while the slot that it is chained to is not known.
  unfoldable pub feed_of : {S : Type 0} → PlanUnit S → Candle F → Tape F → Option (Candle F)
  unfolding tape_slot
  feed_of u c t = elim u.feed [
    | none ↦ some c
    | some slot ↦ elim (tape_slot t (some slot) 0) [ none ↦ none | some v ↦ some (candle_at c v) ]
  ]

module _ {F : Type 0} where
  -- `t.at = (t.at + 1) % t.size`
  unfoldable pub next_at : Tape F → ℕ
  next_at t = elim t.at [ none ↦ 0 % t.size | some at ↦ (at + 1) % t.size ]

module _ {F S : Type 0} ⦃fl : Float F⦄ ⦃ind : Indicator S F⦄ where
  open fl use {decimal}
  open ind use {update, values, ready, reset}

  -- The body of `Push` for one unit, at the place `at` of the ring.
  unfoldable pub push_fed :
      List PlanSlot → PlanUnit S → ℕ → Option (Candle F) → Tape F → PlanUnit S × Tape F
  unfolding blank store
  push_fed plan u at none t = (u, record t { values = blank u.slots at t.values })
  push_fed plan u at (some c) t =
      let s = update u.indicator c in
      let u' = record u { indicator = s } in
      if ready s
      then (u', record t { values = store plan (values s) u.slots at t.values })
      else (u', record t { values = blank u.slots at t.values })

  unfoldable pub push_units :
      List PlanSlot → Candle F → ℕ → List (PlanUnit S) → Tape F → List (PlanUnit S) × Tape F
  unfolding push_fed feed_of
  push_units plan c at [] t = ([], t)
  push_units plan c at (u ∷ us) t =
      let (u', t') = push_fed plan u at (feed_of u c t) t in
      let (us', t'') = push_units plan c at us t' in (u' ∷ us', t'')

  -- `Tape.Push`
  unfoldable pub push : Plan F → Candle F → List (PlanUnit S) → Tape F → List (PlanUnit S) × Tape F
  unfolding push_units next_at
  push plan c us t =
      let at = next_at t in
      push_units plan.slots c at us
        (record t { at = some at; filled = t.filled + 1; bars = set t.bars at c })

  -- `Tape.Prime`
  unfoldable pub prime :
      Plan F → List (Candle F) → List (PlanUnit S) → Tape F → List (PlanUnit S) × Tape F
  unfolding push
  prime plan [] us t = (us, t)
  prime plan (c ∷ cs) us t = let (us', t') = push plan c us t in prime plan cs us' t'

  -- `Plan.NewTape`, which resets the indicators of the plan.
  unfoldable pub new_tape : Plan F → List (PlanUnit S) → List (PlanUnit S) × Tape F
  new_tape plan us =
      let size = max (plan.depth + 1) 2 in
      (
        map {A = PlanUnit S} {B = PlanUnit S} (λ u. record u { indicator = reset u.indicator }) us,
        record {
          size = size;
          at = none;
          filled = 0;
          bars = replicate size no_candle;
          values = map (λ (s : PlanSlot). replicate size (decimal 0 0)) plan.slots;
        },
      )
