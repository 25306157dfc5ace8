-- ===== src/Strategy/Plan.antt =====
-- internal/strategy/compile.go: the shape of a compiled plan. The units stand beside the plan, for
-- they hold the indicators, whose state every push changes.
use alvo_backtester.Base.{ℕ, Bool, true, false, Option, none, some, List}
use alvo_backtester.Strategy.Spec.{Level, Sizing, Costs}
use alvo_backtester.Strategy.Eval.{Rule}

-- `type Slot`, less the name that it is shown by.
pub record PlanSlot : Type 0 where
  pub unit : ℕ
  pub output : ℕ

-- `type Unit`: its indicator, the slot that it reads from (-1 in the source is `none`) and the
-- slots that it fills.
pub record PlanUnit (S : Type 0) : Type 0 where
  pub indicator : S
  pub feed : Option ℕ
  pub slots : List ℕ

pub record Bracket (F : Type 0) : Type 0 where
  pub level : Level F
  pub slot : Option ℕ

pub record Leg (F : Type 0) : Type 0 where
  pub entry : Option (Rule F)
  pub exit : Option (Rule F)
  pub stop : Option (Bracket F)
  pub target : Option (Bracket F)

-- `Leg.Trades`
unfoldable pub trades : {F : Type 0} → Leg F → Bool
trades leg = elim leg.entry [ none ↦ false | some r ↦ true ]

pub record Plan (F : Type 0) : Type 0 where
  pub sizing : Sizing F
  pub costs : Costs F
  pub slots : List PlanSlot
  pub long : Leg F
  pub short : Leg F
  pub depth : ℕ

-- `Plan.Leg`
unfoldable pub leg_of : {F : Type 0} → Plan F → Bool → Leg F
leg_of p true = p.short
leg_of p false = p.long
