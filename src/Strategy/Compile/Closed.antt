-- ===== src/Strategy/Compile/Closed.antt =====
-- internal/strategy/compile.go: what holds of every compiled strategy.
use alvo_backtester.Base.{
  ℕ, zero, suc, ◌+◌, ◌<◌, ◌≤◌, ◌≡◌, refl, ◌∙◌, arith, String, Bool, true, false, Option, none, some,
  List, [], ◌∷◌, length, length-set, get_elem?, set, All, Float,
}
use alvo_backtester.Strategy.Spec.{field_source, field_volume}
use alvo_backtester.Strategy.Syntax.{Input, InputSource, of_field, of_input, Strategy}
use alvo_backtester.Strategy.Eval.{depth_of}
use alvo_backtester.Strategy.Plan.{PlanSlot, Leg}
use alvo_backtester.Strategy.Compile.{Catalog, Wired, Builder, fail, search}
use text.Mathlib.Text.{◌==◌ as same_text}
use alvo_backtester.Strategy.Compile.Rules.{output_of}
use alvo_backtester.Strategy.Compile.Whole.{
  declare, chained, sourced_by, step_by, inputs, leg_by, both_legs, start_builder, measured,
  measure_one, measure_from, depth_by, finish, finished, compile, Compiled,
}
use alvo_backtester.Strategy.Compile.Planned.{
  FeedIn, FeedsBefore, InOrder, IsPlanned, OptionHas, search-OptionHas, attach-IsPlanned,
  FeedIn-below,
}
use alvo_backtester.Strategy.Compile.Kept.{Kept, Keeps, pure-Kept, bind-Kept}
use alvo_backtester.Strategy.Compile.Fits.{SlotIn}
use alvo_backtester.Strategy.Compile.Legs.{LegIn, LegIn-below, leg_by-Keeps}

abbrev Anything : ℕ → ℕ → Type 0
Anything at n = Unit

module _ {I F : Type 0} (C : Catalog I F) where
  open C use {make, outputs}

  declare-Kept :
      (name output : String) (feed : Option ℕ) (i : Option I) (b : Builder I)
      → IsPlanned b
      → FeedIn (length b.slots) feed
      → Kept SlotIn b (declare C name output feed i b)
  unfolding declare
  declare-Kept name output feed none b planned h = tt
  declare-Kept name output feed (some i) b planned h =
      let (planned', new, grown) =
        attach-IsPlanned C i feed (output_of (outputs i) output) b planned h in
      let (slots, order, units, keys, index, built) = planned' in
      (
        (slots, order, units, keys, (new, index), (FeedIn-below _ _ feed grown h, built)),
        grown,
        new,
      )

  chained-Kept :
      (name : String) (input : Input F) (at : Option ℕ) (b : Builder I)
      → IsPlanned b
      → OptionHas (λ at. at < length b.slots) at
      → Kept SlotIn b (chained C name input at b)
  unfolding chained fail
  chained-Kept name input none b planned h = tt
  chained-Kept name input (some at) b planned h =
      declare-Kept name input.output (some at) (make input.indicator input.params none) b planned h

  sourced_by-Keeps :
      (name : String) (input : Input F) (source : InputSource)
      → Keeps SlotIn (sourced_by C name input source)
  unfolding sourced_by
  sourced_by-Keeps name input (of_input upstream) b planned =
      chained-Kept name input (search same_text b.index upstream) b planned
        (search-OptionHas same_text (λ at. at < length b.slots) b.index upstream planned.4)
  sourced_by-Keeps name input (of_field (field_source s)) b planned =
      declare-Kept name input.output none (make input.indicator input.params (some s)) b planned tt
  sourced_by-Keeps name input (of_field field_volume) b planned = tt

  step_by-Keeps :
      (sourced : Bool) (name : String) (input : Input F)
      → Keeps SlotIn (step_by C sourced name input)
  unfolding step_by
  step_by-Keeps true name input b planned = sourced_by-Keeps name input input.source b planned
  step_by-Keeps false name input b planned =
      declare-Kept name input.output none (make input.indicator input.params none) b planned tt

  inputs-Keeps : (entries : List (String × Input F)) → Keeps Anything (inputs C entries)
  unfolding inputs
  inputs-Keeps [] b planned = pure-Kept Anything 0 b planned tt
  inputs-Keeps ((name, input) ∷ entries) b planned =
      bind-Kept SlotIn Anything b (step_by C input.sourced name input) _
        (step_by-Keeps input.sourced name input b planned)
        (λ at b' planned' _ h. inputs-Keeps entries b' planned')

module _ {I F : Type 0} (C : Catalog I F) where
  InOrder-at :
      (slots : List PlanSlot) (i j : ℕ) (us : List (Wired I))
      → InOrder slots i us
      → OptionHas
          (λ u. FeedsBefore slots (i + j) u.feed × All (λ at. at < length slots) u.slots)
          (get_elem? us j)
  InOrder-at slots i j [] _ = tt
  InOrder-at slots i zero (u ∷ us) (feed, own, rest) =
      let same : i + 0 ≡ i = omega arith in (rw same feed, own)
  InOrder-at slots i (suc j) (u ∷ us) (feed, own, rest) =
      let same : i + 1 + j ≡ i + suc j = omega arith in
      rw same at (InOrder-at slots (i + 1) j us rest)

  InOrder-set :
      (slots : List PlanSlot) (i j : ℕ) (us : List (Wired I)) (u : Wired I)
      → InOrder slots i us
      → FeedsBefore slots (i + j) u.feed
      → All (λ at. at < length slots) u.slots
      → InOrder slots i (set us j u)
  InOrder-set slots i j [] u _ h all = tt
  InOrder-set slots i zero (v ∷ us) u (feed, own, rest) h all =
      let same : i + 0 ≡ i = omega arith in (rw same at h, all, rest)
  InOrder-set slots i (suc j) (v ∷ us) u (feed, own, rest) h all =
      let same : i + 1 + j ≡ i + suc j = omega arith in
      (feed, own, InOrder-set slots (i + 1) j us u rest (rw same h) all)

  measure_one-InOrder :
      (i : ℕ) (slots : List PlanSlot) (m : List (Wired I) × ℕ × ℕ) (u : Option (Wired I))
      → InOrder slots 0 m.0
      → OptionHas (λ u. FeedsBefore slots (0 + i) u.feed × All (λ at. at < length slots) u.slots) u
      → InOrder slots 0 (measure_one C i slots m u).0
        × (length (measure_one C i slots m u).0 ≡ length m.0)
  unfolding measure_one measured
  measure_one-InOrder i slots m none order h = (order, refl)
  measure_one-InOrder i slots (us, warm, prime) (some u) order (feed, own) =
      (InOrder-set slots 0 i us _ order feed own, length-set us i _)

  measure_from-InOrder :
      (n i : ℕ) (slots : List PlanSlot) (m : List (Wired I) × ℕ × ℕ)
      → InOrder slots 0 m.0
      → InOrder slots 0 (measure_from C n i slots m).0
        × (length (measure_from C n i slots m).0 ≡ length m.0)
  unfolding measure_from
  measure_from-InOrder zero i slots m order = (order, refl)
  measure_from-InOrder (suc n) i slots m order =
      let (order', size) =
        measure_one-InOrder i slots m (get_elem? m.0 i) order (InOrder-at slots 0 i m.0 order) in
      let (order'', size') =
        measure_from-InOrder n (i + 1) slots (measure_one C i slots m (get_elem? m.0 i)) order' in
      (order'', size' ∙ size)

module _ {I F : Type 0} where
  -- A compiled strategy hangs together: its units are in an order in which each reads from an earlier
  -- one, every slot is of a unit that is there, and the rules and the brackets of the two legs read slots
  -- that are there. The depth covers every rule.
  abbrev pub IsClosed : Compiled I F → Type 0
  IsClosed c =
      InOrder c.plan.slots 0 c.units
      × All (λ s. s.unit < length c.units) c.plan.slots
      × LegIn c.plan.long (length c.plan.slots)
      × LegIn c.plan.short (length c.plan.slots)
      × (depth_of c.plan.long.entry ≤ c.plan.depth)
      × (depth_of c.plan.long.exit ≤ c.plan.depth)
      × (depth_of c.plan.short.entry ≤ c.plan.depth)
      × (depth_of c.plan.short.exit ≤ c.plan.depth)

module _ {I F : Type 0} (C : Catalog I F) ⦃fl : Float F⦄ where
  finish-IsClosed :
      (spec : Strategy F) (long short : Leg F) (b : Builder I)
      → IsPlanned b
      → LegIn long (length b.slots)
      → LegIn short (length b.slots)
      → IsClosed (finish C spec long short b)
  unfolding finish depth_by
  finish-IsClosed spec long short b planned l s =
      let (order, size) =
        measure_from-InOrder C (length b.units) 0 b.slots (b.units, 0, 0) planned.1 in
      (order, rw size planned.0, l, s, omega arith, omega arith, omega arith, omega arith)

  abbrev LegsIn : Leg F × Leg F → ℕ → Type 0
  LegsIn legs n = LegIn legs.0 n × LegIn legs.1 n

  both_legs-Keeps : (spec : Strategy F) → Keeps LegsIn (both_legs C spec)
  unfolding both_legs
  both_legs-Keeps spec b planned =
      bind-Kept Anything LegsIn b (inputs C spec.inputs) _ (inputs-Keeps C spec.inputs b planned)
        (λ _ b1 planned1 _ _.
          bind-Kept LegIn LegsIn b1 (leg_by C spec.entry.long _) _
            (leg_by-Keeps C spec.entry.long _ b1 planned1)
            (λ long b2 planned2 _ l.
              bind-Kept LegIn LegsIn b2 (leg_by C spec.entry.short _) _
                (leg_by-Keeps C spec.entry.short _ b2 planned2)
                (λ short b3 planned3 grown s.
                  pure-Kept LegsIn _ b3 planned3 (LegIn-below long _ _ grown l, s))))

  finished-IsClosed :
      (spec : Strategy F) (b : Builder I) (r : Option ((Leg F × Leg F) × Builder I))
      → Kept LegsIn b r
      → OptionHas IsClosed (finished C spec r)
  unfolding finished
  finished-IsClosed spec b none k = tt
  finished-IsClosed spec b (some (legs, b')) (planned, grown, (l, s)) =
      finish-IsClosed spec legs.0 legs.1 b' planned l s

  -- A strategy that compiles gives a plan that hangs together: the units are in an order in which each
  -- reads only from an earlier one, every slot is of a unit that is there, every slot that a rule or a
  -- bracket of either leg reads is there, and the depth of the plan is at least that of every rule.
  pub compile-IsClosed :
      (spec : Strategy F) (c : Compiled I F) → compile C spec ≡ some c → IsClosed c
  unfolding compile start_builder
  compile-IsClosed spec c e =
      let start : Builder I = start_builder C in
      let all : OptionHas IsClosed (compile C spec) =
        finished-IsClosed spec start (both_legs C spec start)
          (both_legs-Keeps spec start (tt, tt, tt, tt, tt, tt)) in
      rw e at all
