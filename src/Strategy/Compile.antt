-- ===== src/Strategy/Compile.antt =====
-- internal/strategy/compile.go: the compiler. An error is `none`. The state of the builder is passed
-- along by `Build`. A key of a map, which the source writes as text, is a record of what is in the text.
-- The inputs are taken in the order that `order` gives; one that comes before the input it reads from
-- fails, as in the source.
pub mod Rules
pub mod Whole
pub mod Planned
pub mod Kept
pub mod Fits
pub mod Legs
pub mod Closed
pub mod Sharing
use Prim.Native.Nat.{max, min}
use text.Mathlib.Text.{◌==◌ as same_text}
use alvo_backtester.Base.{
  ℕ, zero, suc, ◌+◌, String, Bool, true, false, ◌&&◌, Option, none, some, List, [], ◌∷◌, ◌++◌, map,
  length, get_elem?, get_or, set, ◌==◌, if◌then◌else◌, Float,
}
use alvo_backtester.Indicator.{Source}
use alvo_backtester.Strategy.Spec.{
  Comparator, op_rising, op_falling, field_source, field_volume, operand_input, operand_field,
  operand_literal, Level, LevelType, level_pct, level_atr,
}
use alvo_backtester.Strategy.Syntax.{
  InputSource, of_field, of_input, Input, Operand, Node, Nodes, all_node, any_node, not_node,
  compare_node, stop_loss, take_profit, no_nodes, more_nodes, Side, Strategy,
}
use alvo_backtester.Strategy.Plan.{PlanSlot, Bracket, Leg, Plan}

-- What the compiler asks of internal/indicator: `New`, and what an `Instance` tells. `lead` is
-- `primeDepth`.
pub record Catalog (I F : Type 0) : Type 0 where
  pub make : String → List (String × F) → Option Source → Option I
  pub key : I → String
  pub outputs : I → List String
  pub warmup : I → ℕ
  pub lead : I → ℕ

-- `type Unit`
pub record Wired (I : Type 0) : Type 0 where
  pub instance_of : I
  pub feed : Option ℕ
  pub slots : List ℕ
  pub warmup : ℕ
  pub prime : ℕ

-- `instance.Key + "|" + strconv.Itoa(feed)`
pub record UnitKey : Type 0 where
  pub key : String
  pub feed : Option ℕ

pub record SlotKey : Type 0 where
  pub unit : UnitKey
  pub output : ℕ

-- `type builder`, with the fields of its plan that it grows.
pub record Builder (I : Type 0) : Type 0 where
  pub units : List (Wired I)
  pub slots : List PlanSlot
  pub index : List (String × ℕ)
  pub unit_keys : List (UnitKey × ℕ)
  pub slot_keys : List (SlotKey × ℕ)
  pub built : List (String × (I × Option ℕ))

unfoldable pub same_feed : Option ℕ → Option ℕ → Bool
same_feed none none = true
same_feed (some a) (some b) = a == b
same_feed _ _ = false

unfoldable pub same_unit : UnitKey → UnitKey → Bool
same_unit a b = same_text a.key b.key && same_feed a.feed b.feed

unfoldable pub same_slot : SlotKey → SlotKey → Bool
same_slot a b = same_unit a.unit b.unit && a.output == b.output

unfoldable pub search {ℓ} : {K : Type 0} {V : Type ℓ} → (K → K → Bool) → List (K × V) → K → Option V
search same [] k = none
search same ((j, v) ∷ entries) k =
    let rest = search same entries k in if same j k then some v else rest

-- A step of the builder that may fail.
abbrev pub Build : Type 0 → Type 0 → Type 0
Build I A = Builder I → Option (A × Builder I)

module _ {I A B : Type 0} where
  unfoldable pub then_do : Option (A × Builder I) → (A → Build I B) → Option (B × Builder I)
  then_do none f = none
  then_do (some (a, b)) f = f a b

  unfoldable pub bind : Build I A → (A → Build I B) → Build I B
  unfolding then_do
  bind m f b = then_do (m b) f

module _ {I A : Type 0} where
  unfoldable pub pure : A → Build I A
  pure a b = some (a, b)

  unfoldable pub fail : Build I A
  fail b = none

module _ {I : Type 0} where
  -- `plan.Units[unit].Slots = append(plan.Units[unit].Slots, at)`
  unfoldable pub give_slot : List (Wired I) → ℕ → ℕ → List (Wired I)
  give_slot [] unit at = []
  give_slot (u ∷ us) zero at = record u { slots = u.slots ++ (at ∷ []) } ∷ us
  give_slot (u ∷ us) (suc unit) at = u ∷ give_slot us unit at

module _ {I F : Type 0} (C : Catalog I F) where
  open C use {make, key, outputs, warmup, lead}

  unfoldable pub key_of : I → Option ℕ → UnitKey
  key_of i feed = record { key = key i; feed = feed }

  -- The first half of `attach`.
  unfoldable pub unit_for : I → Option ℕ → Option ℕ → Builder I → ℕ × Builder I
  unit_for i feed (some unit) b = (unit, b)
  unit_for i feed none b =
      let wired : Wired I = record {
        instance_of = i;
        feed = feed;
        slots = [];
        warmup = 0;
        prime = 0;
      } in
      (
        length b.units,
        record b {
          units = b.units ++ (wired ∷ []);
          unit_keys = (key_of i feed, length b.units) ∷ b.unit_keys;
        },
      )

  -- The second half of `attach`.
  unfoldable pub slot_for : SlotKey → ℕ → Option ℕ → Builder I → ℕ × Builder I
  unfolding give_slot
  slot_for k unit (some at) b = (at, b)
  slot_for k unit none b = (
    length b.slots,
    record b {
      units = give_slot b.units unit (length b.slots);
      slots = b.slots ++ (record { unit = unit; output = k.output } ∷ []);
      slot_keys = (k, length b.slots) ∷ b.slot_keys;
    },
  )

  unfoldable pub attach : I → Option ℕ → ℕ → Builder I → ℕ × Builder I
  unfolding unit_for slot_for search
  attach i feed output b =
      let (unit, b') = unit_for i feed (search same_unit b.unit_keys (key_of i feed)) b in
      let k : SlotKey = record { unit = key_of i feed; output = output } in
      slot_for k unit (search same_slot b'.slot_keys k) b'

  unfoldable pub attached : I → Option ℕ → ℕ → Build I ℕ
  unfolding attach
  attached i feed output b = some (attach i feed output b)
