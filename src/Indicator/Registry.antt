-- ===== src/Indicator/Registry.antt =====
-- internal/indicator/registry.go: what an indicator declares of itself, and how the parameters of a
-- request are settled. The values of a request are a list of names with their numbers, a source that is
-- not given is `none`, and the name of a source is parsed, so that it is always one of `Sources`.
-- `Offsets`, which only moves a drawn line, is left out, as is the text of an error.
pub mod Settled
pub mod Overlay
pub mod Momentum
pub mod Volatility
pub mod Volume
pub mod Structure
use text.Mathlib.Text.{◌==◌}
use alvo_backtester.Base.{
  ℕ, String, Bool, true, false, not, ◌&&◌, ◌||◌, ◌⊎◌, inl, inr, Option, none, some, List, [], ◌∷◌,
  map, if◌then◌else◌, Float,
}
use alvo_backtester.Indicator.{Candle, Source, source_close, Indicator}

pub data ParamKind : Type 0 where
  param_int param_float : ParamKind

pub data Group : Type 0 where
  group_overlay group_momentum group_volatility group_volume group_structure : Group

-- `type Param`. `initial`, `least` and `most` are `Default`, `Min` and `Max`.
pub record Param (F : Type 0) : Type 0 where
  pub name : String
  pub kind : ParamKind
  pub initial : F
  pub least : F
  pub most : F

pub record Params (F : Type 0) : Type 0 where
  pub values : List (String × F)
  pub source : Source

-- A value of `interface Indicator`: its type, its methods and its state.
pub record Made (F : Type 0) : Type 1 where
  pub State : Type 0
  pub methods : Indicator State F
  pub state : State

-- `type Spec`. `valid` is `Validate`, and always true where the source has none.
pub record Spec (F : Type 0) : Type 1 where
  pub name : String
  pub title : String
  pub group : Group
  pub overlay : Bool
  pub sourced : Bool
  pub params : List (Param F)
  pub outputs : List String
  pub valid : Params F → Bool
  pub make : Params F → Made F

-- The errors of `resolve`.
pub data Fault : Type 0 where
  out_of_range not_whole unknown_param : String → Fault
  takes_no_source refused : Fault

-- `MaxPeriod`
abbrev pub max_period : ℕ
max_period = 2000

module _ {F : Type 0} where
  abbrev pub int_param : String → F → F → F → Param F
  int_param name initial least most = record {
    name = name;
    kind = param_int;
    initial = initial;
    least = least;
    most = most;
  }

  abbrev pub float_param : String → F → F → F → Param F
  float_param name initial least most = record {
    name = name;
    kind = param_float;
    initial = initial;
    least = least;
    most = most;
  }

  -- `values[name]` with its `ok`
  unfoldable pub find : List (String × F) → String → Option F
  find [] name = none
  find ((key, value) ∷ values) name =
      let rest = find values name in if key == name then some value else rest

  unfoldable pub get_param : List (Param F) → String → Option (Param F)
  get_param [] name = none
  get_param (p ∷ params) name =
      let rest = get_param params name in if p.name == name then some p else rest

  unfoldable pub or_initial : Option F → F → F
  or_initial (some value) initial = value
  or_initial none initial = initial

  -- The last loop of `resolve` on the values: a name that is no parameter.
  unfoldable pub unknown : List (Param F) → List (String × F) → Option String
  unfolding get_param
  unknown params [] = none
  unknown params ((name, value) ∷ values) =
      let rest = unknown params values in
      elim (get_param params name) [ none ↦ some name | some p ↦ rest ]

module _ {F : Type 0} ⦃fl : Float F⦄ where
  open fl use {decimal, of_int, to_int, lt, eq}

  abbrev pub period_param : ℕ → ℕ → Param F
  period_param initial least =
      int_param "period" (decimal initial 0) (decimal least 0) (decimal max_period 0)

  -- `Params.Int` and `Params.Float`; a name that is missing reads as zero.
  unfoldable pub get_float : Params F → String → F
  unfolding find or_initial
  get_float p name = or_initial (find p.values name) (decimal 0 0)

  unfoldable pub get_int : Params F → String → ℕ
  unfolding get_float
  get_int p name = to_int (get_float p name)

  unfoldable pub is_whole : ParamKind → F → Bool
  is_whole param_int value = eq value (of_int (to_int value))
  is_whole param_float value = true

  -- The loop of `resolve` on the parameters.
  unfoldable pub settle : List (Param F) → List (String × F) → Fault ⊎ List (String × F)
  unfolding find or_initial is_whole
  settle [] values = inr []
  settle (p ∷ params) values =
      let rest = settle params values in
      let value = or_initial (find values p.name) p.initial in
      if lt value p.least || lt p.most value
      then inl (out_of_range p.name)
      else if not (is_whole p.kind value)
      then inl (not_whole p.name)
      else elim rest [ inl fault ↦ inl fault | inr others ↦ inr ((p.name, value) ∷ others) ]

  -- The rest of `resolve`, from the source on.
  unfoldable pub with_source : Spec F → List (String × F) → Option Source → Fault ⊎ Params F
  with_source s values none = inr (record { values = values; source = source_close })
  with_source s values (some source) =
      if s.sourced then inr (record { values = values; source = source }) else inl takes_no_source

  unfoldable pub validated : Spec F → Fault ⊎ Params F → Fault ⊎ Params F
  validated s (inl fault) = inl fault
  validated s (inr p) = if s.valid p then inr p else inl refused

  unfoldable pub checked :
      Spec F → List (String × F) → Option Source → Option String → Fault ⊎ Params F
  unfolding with_source validated
  checked s settled source (some name) = inl (unknown_param name)
  checked s settled source none = validated s (with_source s settled source)

  -- `Spec.resolve`
  unfoldable pub resolve : Spec F → List (String × F) → Option Source → Fault ⊎ Params F
  unfolding settle unknown checked
  resolve s values source = elim (settle s.params values) [
    | inl fault ↦ inl fault
    | inr settled ↦ checked s settled source (unknown s.params values)
  ]
