-- ===== src/Strategy/Spec.antt =====
-- internal/strategy/spec.go: the vocabulary of a strategy.
use alvo_backtester.Base.{ℕ, Float}
use alvo_backtester.Indicator.{Candle, Source, value}

-- `type Field`: a source, or the volume.
pub data Field : Type 0 where
  field_source : Source → Field
  field_volume : Field

-- `Field.Value`
unfoldable pub field_value : {F : Type 0} ⦃fl : Float F⦄ → Field → Candle F → F
unfolding value
field_value field_volume c = c.volume
field_value (field_source s) c = value s c

pub data Comparator : Type 0 where
  op_gt op_lt op_gte op_lte op_eq op_crosses_above op_crosses_below : Comparator
  op_rising op_falling op_between : Comparator

pub data OperandKind : Type 0 where
  operand_input operand_field operand_literal : OperandKind

pub data SizingType : Type 0 where
  size_fixed_qty size_pct_equity size_fixed_cash size_risk_pct : SizingType

pub data LevelType : Type 0 where
  level_pct level_atr : LevelType

pub record Sizing (F : Type 0) : Type 0 where
  pub kind : SizingType
  pub value : F

pub record Costs (F : Type 0) : Type 0 where
  pub brokerage_cents : ℕ
  pub fee_bps : F
  pub slippage_bps : F

pub record Level (F : Type 0) : Type 0 where
  pub kind : LevelType
  pub value : F
  pub period : ℕ
  pub mult : F
