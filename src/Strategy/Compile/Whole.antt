-- ===== src/Strategy/Compile/Whole.antt =====
-- internal/strategy/compile.go: the compiler from the inputs to the plan, and the warm-up of the units.
use Prim.Native.Nat.{max, min}
use text.Mathlib.Text.{◌==◌ as same_text}
use alvo_backtester.Base.{
  ℕ, zero, suc, ◌+◌, String, Bool, true, false, Option, none, some, List, [], ◌∷◌, length,
  get_elem?, set, if◌then◌else◌, Float,
}
use alvo_backtester.Strategy.Spec.{field_source, field_volume}
use alvo_backtester.Strategy.Syntax.{InputSource, of_field, of_input, Input, Node, Side, Strategy}
use alvo_backtester.Strategy.Eval.{depth_of}
use alvo_backtester.Strategy.Plan.{PlanSlot, Leg, Plan}
use alvo_backtester.Strategy.Compile.{
  Catalog, Wired, Builder, Build, bind, pure, fail, attach, search,
}
use alvo_backtester.Strategy.Compile.Rules.{output_of, make_leg, rule, hoist}

-- `MaxPrimeBars` of internal/indicator/request.go
abbrev pub max_prime_bars : ℕ
max_prime_bars = 5000

-- The plan with its units and what `measure` finds.
pub record Compiled (I F : Type 0) : Type 0 where
  pub plan : Plan F
  pub units : List (Wired I)
  pub warmup : ℕ
  pub prime_bars : ℕ

module _ {I F : Type 0} (C : Catalog I F) where
  open C use {make, outputs, warmup, lead}

  -- The body of the loop of `inputs` once the indicator is made.
  unfoldable pub declare : String → String → Option ℕ → Option I → Build I ℕ
  unfolding attach output_of
  declare name output feed none b = none
  declare name output feed (some i) b =
      let (at, b') = attach C i feed (output_of (outputs i) output) b in
      some (at, record b' { index = (name, at) ∷ b'.index; built = (name, (i, feed)) ∷ b'.built })

  -- The loop's feed and source. `volume` is no source of an indicator.
  unfoldable pub chained : String → Input F → Option ℕ → Build I ℕ
  unfolding declare
  chained name input none = fail
  chained name input (some at) =
      declare name input.output (some at) (make input.indicator input.params none)

  unfoldable pub sourced_by : String → Input F → InputSource → Build I ℕ
  unfolding chained search
  sourced_by name input (of_input upstream) b =
      chained name input (search same_text b.index upstream) b
  sourced_by name input (of_field (field_source s)) b =
      declare name input.output none (make input.indicator input.params (some s)) b
  sourced_by name input (of_field field_volume) b = none

  -- The body of the loop of `inputs`, by whether the indicator takes a source.
  unfoldable pub step_by : Bool → String → Input F → Build I ℕ
  unfolding sourced_by
  step_by true name input = sourced_by name input input.source
  step_by false name input = declare name input.output none (make input.indicator input.params none)

  unfoldable pub inputs : List (String × Input F) → Build I ℕ
  unfolding step_by
  inputs [] = pure 0
  inputs ((name, input) ∷ rest) = bind (step_by input.sourced name input) (λ at. inputs rest)

  -- What a unit adds to the warm-up of the one it reads from.
  unfoldable pub upstream : List (Wired I) → List PlanSlot → Option ℕ → ℕ × ℕ
  upstream units slots none = (0, 0)
  upstream units slots (some at) = elim (get_elem? slots at) [
    | none ↦ (0, 0)
    | some s ↦ elim (get_elem? units s.unit) [ none ↦ (0, 0) | some u ↦ (u.warmup, u.prime) ]
  ]

  unfoldable pub measured : List (Wired I) → List PlanSlot → Wired I → Wired I
  unfolding upstream
  measured units slots u =
      let (own, prime) = upstream units slots u.feed in
      record u {
        warmup = warmup u.instance_of + own;
        prime = min (lead u.instance_of) max_prime_bars + prime;
      }

  -- One round of the loop of `measure`, with the unit at the place: the units, the warm-up and the
  -- priming.
  unfoldable pub measure_one :
      ℕ → List PlanSlot → List (Wired I) × ℕ × ℕ → Option (Wired I) → List (Wired I) × ℕ × ℕ
  unfolding measured
  measure_one i slots m none = m
  measure_one i slots (units, warm, prime) (some u) =
      let u' : Wired I = measured units slots u in
      (set units i u', max warm u'.warmup, max prime u'.prime)

  -- The loop of `measure`, with `n` rounds to go.
  unfoldable pub measure_from :
      ℕ → ℕ → List PlanSlot → List (Wired I) × ℕ × ℕ → List (Wired I) × ℕ × ℕ
  unfolding measure_one
  measure_from zero i slots m = m
  measure_from (suc n) i slots m =
      measure_from n (i + 1) slots (measure_one i slots m (get_elem? m.0 i))

-- `exitOf`
unfoldable pub exit_of : {F : Type 0} → Option (Side F) → Bool → Option (Node F)
exit_of none short = none
exit_of (some side) short = if short then side.short else side.long

module _ {I F : Type 0} (C : Catalog I F) ⦃fl : Float F⦄ where
  unfoldable pub residual_rule : Leg F → Option (Node F) → Build I (Leg F)
  residual_rule leg none = pure leg
  residual_rule leg (some n) = bind (rule C n) (λ r. pure (record leg { exit = some r }))

  unfoldable pub exit_leg : Leg F → Option (Node F) → Build I (Leg F)
  unfolding residual_rule
  exit_leg leg none = pure leg
  exit_leg leg (some exit) = bind (hoist C leg exit) (λ r. residual_rule r.0 r.1)

  -- `builder.leg`
  unfoldable pub leg_by : Option (Node F) → Option (Node F) → Build I (Leg F)
  unfolding exit_leg
  leg_by none exit = pure make_leg
  leg_by (some entry) exit =
      bind (rule C entry) (λ r. exit_leg (record (make_leg {F = F}) { entry = some r }) exit)

  unfoldable pub start_builder : Builder I
  start_builder = record {
    units = [];
    slots = [];
    index = [];
    unit_keys = [];
    slot_keys = [];
    built = [];
  }

  unfoldable pub depth_by : Leg F → Leg F → ℕ
  depth_by long short =
      max (max (depth_of long.entry) (depth_of long.exit))
        (max (depth_of short.entry) (depth_of short.exit))

  -- The end of `Compile`, from the two legs on.
  unfoldable pub finish : Strategy F → Leg F → Leg F → Builder I → Compiled I F
  unfolding depth_by measure_from
  finish spec long short b =
      let (units, warm, prime) = measure_from C (length b.units) 0 b.slots (b.units, 0, 0) in
      record {
        plan = record {
          sizing = spec.sizing;
          costs = spec.costs;
          slots = b.slots;
          long = long;
          short = short;
          depth = depth_by long short;
        };
        units = units;
        warmup = warm + depth_by long short;
        prime_bars = min (prime + depth_by long short) max_prime_bars;
      }

  unfoldable pub both_legs : Strategy F → Build I (Leg F × Leg F)
  unfolding leg_by exit_of inputs
  both_legs spec = bind (inputs C spec.inputs) (λ _.
      bind (leg_by spec.entry.long (exit_of spec.exit false)) (λ long.
        bind (leg_by spec.entry.short (exit_of spec.exit true)) (λ short. pure (long, short))))

  unfoldable pub finished :
      Strategy F → Option ((Leg F × Leg F) × Builder I) → Option (Compiled I F)
  unfolding finish
  finished spec none = none
  finished spec (some (legs, b)) = some (finish spec legs.0 legs.1 b)

  -- `Compile`
  unfoldable pub compile : Strategy F → Option (Compiled I F)
  unfolding finished both_legs start_builder
  compile spec = finished spec (both_legs spec start_builder)
