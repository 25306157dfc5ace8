-- ===== src/Strategy/Eval.antt =====
-- internal/strategy/eval.go: rules, evaluated over a frame. A reading `(float64, bool)` is an
-- `Option`; a rule's `(bool, bool)` is the pair of its value and whether it is known.
use Prim.Native.Nat.{max}
use alvo_backtester.Base.{
  ℕ, zero, suc, ◌+◌, Bool, true, false, not, ◌&&◌, Option, none, some, List, [], ◌∷◌, get_elem?,
  if◌then◌else◌, Float,
}
use alvo_backtester.Strategy.Spec.{
  Field, Comparator, op_gt, op_lt, op_gte, op_lte, op_eq, op_crosses_above, op_crosses_below,
  op_rising, op_falling, op_between, OperandKind, operand_input, operand_field, operand_literal,
}

pub record Frame (F : Type 0) : Type 0 where
  pub slot : Option ℕ → ℕ → Option F
  pub field : Field → ℕ → Option F

-- `slot` is `none` where the source has -1.
pub record Term (F : Type 0) : Type 0 where
  pub kind : OperandKind
  pub slot : Option ℕ
  pub field : Field
  pub value : F
  pub back : ℕ

-- `interface Rule` and its four implementations.
mutual
  pub data Rule (F : Type 0) : Type 0 where
    all_rule : Rules F → Rule F
    any_rule : Rules F → Rule F
    not_rule : Rule F → Rule F
    compare_rule : Comparator → List (Term F) → ℕ → Rule F

  pub data Rules (F : Type 0) : Type 0 where
    nil : Rules F
    cons : Rule F → Rules F → Rules F

abbrev pub Verdict : Type 0
Verdict = Bool × Bool

abbrev pub unknown : Verdict
unknown = (false, false)

module _ {F : Type 0} where
  unfoldable pub read : OperandKind → Term F → Frame F → ℕ → Option F
  read operand_literal t f extra = some t.value
  read operand_field t f extra = f.field t.field (t.back + extra)
  read operand_input t f extra = f.slot t.slot (t.back + extra)

  -- `Term.at`
  unfoldable pub at : Term F → Frame F → ℕ → Option F
  unfolding read
  at t f extra = read t.kind t f extra

  -- `r.terms[i].at(f, extra)`. Go panics at a term that is not there; the parser gives every
  -- comparator the terms that it reads, and here such a term is unknown.
  unfoldable pub term_at : List (Term F) → ℕ → Frame F → ℕ → Option F
  unfolding at
  term_at terms i f extra = elim (get_elem? terms i) [ none ↦ none | some t ↦ at t f extra ]

  abbrev pub reading : Option F → (F → Verdict) → Verdict
  reading none k = unknown
  reading (some x) k = k x

module _ {F : Type 0} ⦃fl : Float F⦄ where
  open fl use {decimal, sub, mul, lt, le, abs, max as max_float}

  abbrev epsilon : F
  epsilon = decimal 1 9

  unfoldable pub nearly : F → F → Bool
  nearly a b =
      let diff = abs (sub a b) in
      if le diff epsilon then true else le diff (mul epsilon (max_float (abs a) (abs b)))

  unfoldable pub cross : Bool → List (Term F) → Frame F → Verdict
  cross above terms f = reading (term_at terms 0 f 0) λ now.
      reading (term_at terms 1 f 0) λ against. reading (term_at terms 0 f 1) λ before.
        reading (term_at terms 1 f 1) λ against_before.
          if above
          then (lt against now && le before against_before, true)
          else (lt now against && le against_before before, true)

  -- The loop of `trend`, with the rounds left and the step.
  unfoldable pub trend : Bool → List (Term F) → Frame F → ℕ → ℕ → Verdict
  trend falling terms f zero step = (true, true)
  trend falling terms f (suc bars) step =
      let rest = trend falling terms f bars (step + 1) in
      reading (term_at terms 0 f step) λ now.
        reading (term_at terms 0 f (step + 1)) λ before.
          if (if falling then lt now before else lt before now) then rest else (false, true)

  unfoldable pub span : List (Term F) → Frame F → Verdict
  span terms f = reading (term_at terms 0 f 0) λ value.
      reading (term_at terms 1 f 0)
        λ low. reading (term_at terms 2 f 0) λ high. (le low value && le value high, true)

  unfoldable pub plain : (F → F → Bool) → List (Term F) → Frame F → Verdict
  plain test terms f =
      reading (term_at terms 0 f 0)
        λ left. reading (term_at terms 1 f 0) λ right. (test left right, true)

  -- `compareRule.Eval`
  unfoldable pub eval_compare : Comparator → List (Term F) → ℕ → Frame F → Verdict
  eval_compare op_rising terms bars f = trend false terms f bars 0
  eval_compare op_falling terms bars f = trend true terms f bars 0
  eval_compare op_crosses_above terms bars f = cross true terms f
  eval_compare op_crosses_below terms bars f = cross false terms f
  eval_compare op_between terms bars f = span terms f
  eval_compare op_gt terms bars f = plain (λ left right. lt right left) terms f
  eval_compare op_lt terms bars f = plain lt terms f
  eval_compare op_gte terms bars f = plain (λ left right. le right left) terms f
  eval_compare op_lte terms bars f = plain le terms f
  eval_compare op_eq terms bars f = plain nearly terms f

  -- `Rule.Eval`, with the loops of `allRule` and `anyRule` over the rules left.
  unfoldable mutual
    unfolding eval_compare

    pub eval : Rule F → Frame F → Verdict
    eval (all_rule rs) f = eval_all rs f true
    eval (any_rule rs) f = eval_any rs f true
    eval (not_rule r) f =
        let (value, known) = eval r f in if known then (not value, true) else unknown
    eval (compare_rule op terms bars) f = eval_compare op terms bars f

    pub eval_all : Rules F → Frame F → Bool → Verdict
    eval_all nil f settled = if settled then (true, true) else unknown
    eval_all (cons r rs) f settled =
        let (value, known) = eval r f in
        let rest = eval_all rs f (settled && known) in
        if known && not value then (false, true) else rest

    pub eval_any : Rules F → Frame F → Bool → Verdict
    eval_any nil f settled = if settled then (false, true) else unknown
    eval_any (cons r rs) f settled =
        let (value, known) = eval r f in
        let rest = eval_any rs f (settled && known) in if known && value then (true, true) else rest

-- `extra` of `compareRule.depth`
unfoldable pub extra_of : Comparator → ℕ → ℕ
extra_of op_crosses_above bars = 1
extra_of op_crosses_below bars = 1
extra_of op_rising bars = bars
extra_of op_falling bars = bars
extra_of _ bars = 0

-- How many bars back a rule reads.
module _ {F : Type 0} where
  unfoldable pub term_depth : OperandKind → Term F → ℕ → ℕ
  term_depth operand_literal t extra = 0
  term_depth _ t extra = t.back + extra

  -- `compareRule.depth`
  unfoldable pub compare_depth : List (Term F) → ℕ → ℕ
  unfolding term_depth
  compare_depth [] extra = 0
  compare_depth (t ∷ terms) extra = max (term_depth t.kind t extra) (compare_depth terms extra)

  unfoldable mutual
    unfolding extra_of compare_depth

    pub depth : Rule F → ℕ
    depth (all_rule rs) = deepest rs
    depth (any_rule rs) = deepest rs
    depth (not_rule r) = depth r
    depth (compare_rule op terms bars) = compare_depth terms (extra_of op bars)

    pub deepest : Rules F → ℕ
    deepest nil = 0
    deepest (cons r rs) = max (depth r) (deepest rs)

  -- `depthOf`: a rule that is not there reads nothing.
  unfoldable pub depth_of : Option (Rule F) → ℕ
  depth_of none = 0
  depth_of (some r) = depth r

module _ {F : Type 0} ⦃fl : Float F⦄ where
  unfoldable pub fires : Option (Rule F) → Frame F → Bool
  fires none f = false
  fires (some r) f = let (value, known) = eval r f in known && value
