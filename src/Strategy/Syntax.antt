-- ===== src/Strategy/Syntax.antt =====
-- internal/strategy/spec.go: a parsed strategy, as the compiler reads it. What `Field(...).Valid()` tells of
-- the source of an input is its constructor here: a field, or the name of another input.
use alvo_backtester.Base.{ℕ, String, Bool, Option, List}
use alvo_backtester.Strategy.Spec.{Comparator, Field, OperandKind, Level, Sizing, Costs}

pub data InputSource : Type 0 where
  of_field : Field → InputSource
  of_input : String → InputSource

pub record Input (F : Type 0) : Type 0 where
  pub indicator : String
  pub params : List (String × F)
  pub source : InputSource
  pub output : String
  pub sourced : Bool

-- An output that is not named is `none`, the empty text of the source.
pub record Operand (F : Type 0) : Type 0 where
  pub kind : OperandKind
  pub input : String
  pub output : Option String
  pub field : Field
  pub value : F
  pub back : ℕ

-- `interface Node` and its six implementations.
mutual
  pub data Node (F : Type 0) : Type 0 where
    all_node : Nodes F → Node F
    any_node : Nodes F → Node F
    not_node : Node F → Node F
    compare_node : Comparator → List (Operand F) → Node F
    stop_loss : Level F → Node F
    take_profit : Level F → Node F

  pub data Nodes (F : Type 0) : Type 0 where
    no_nodes : Nodes F
    more_nodes : Node F → Nodes F → Nodes F

-- `type Side`
pub record Side (F : Type 0) : Type 0 where
  pub long : Option (Node F)
  pub short : Option (Node F)

-- `type Spec`: the inputs are the entries of the map, by name.
pub record Strategy (F : Type 0) : Type 0 where
  pub inputs : List (String × Input F)
  pub entry : Side F
  pub exit : Option (Side F)
  pub sizing : Sizing F
  pub costs : Costs F
