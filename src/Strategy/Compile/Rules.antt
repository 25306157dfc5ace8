-- ===== src/Strategy/Compile/Rules.antt =====
-- internal/strategy/compile.go: how the compiler turns the conditions of a strategy into rules, and its
-- brackets into levels.
use text.Mathlib.Text.{◌==◌ as same_text}
use alvo_backtester.Base.{
  ℕ, ◌+◌, String, Bool, true, false, Option, none, some, List, [], ◌∷◌, if◌then◌else◌, Float,
}
use alvo_backtester.Strategy.Spec.{
  Comparator, op_rising, op_falling, OperandKind, operand_input, operand_field, operand_literal,
  Level, LevelType, level_pct, level_atr,
}
use alvo_backtester.Strategy.Syntax.{
  Operand, Node, Nodes, all_node, any_node, not_node, compare_node, stop_loss, take_profit,
  no_nodes, more_nodes,
}
use alvo_backtester.Strategy.Eval.{
  Term, Rule, Rules, nil, cons, all_rule, any_rule, not_rule, compare_rule,
}
use alvo_backtester.Strategy.Plan.{Bracket, Leg}
use alvo_backtester.Strategy.Compile.{Catalog, Build, bind, pure, fail, attached, search}

-- `slices.Index`, and whether there is one.
unfoldable pub place : List String → String → Option ℕ
place [] name = none
place (x ∷ xs) name =
    let rest = place xs name in
    if same_text x name then some 0 else elim rest [ none ↦ none | some i ↦ some (i + 1) ]

unfoldable pub or_first : Option ℕ → ℕ
or_first (some i) = i
or_first none = 0

-- `outputOf`
unfoldable pub output_of : List String → String → ℕ
unfolding place or_first
output_of outputs name = or_first (place outputs name)

unfoldable pub is_trend : Comparator → Bool
is_trend op_rising = true
is_trend op_falling = true
is_trend _ = false

module _ {F : Type 0} where
  unfoldable pub make_leg : Leg F
  make_leg = record { entry = none; exit = none; stop = none; target = none }

  -- What `hoist` leaves of an `any`, by how many nodes are left.
  unfoldable pub residual_of : Nodes F → Option (Node F)
  residual_of no_nodes = none
  residual_of (more_nodes n no_nodes) = some n
  residual_of (more_nodes n (more_nodes m ns)) = some (any_node (more_nodes n (more_nodes m ns)))

  unfoldable pub keep : Option (Node F) → Nodes F → Nodes F
  keep none ns = ns
  keep (some n) ns = more_nodes n ns

module _ {I F : Type 0} (C : Catalog I F) where
  open C use {make, outputs}

  -- `line`, by the slot of the input, or by what it was built from.
  unfoldable pub bare_line : Option ℕ → Build I ℕ
  bare_line none = fail
  bare_line (some at) = pure at

  unfoldable pub found_line : I × Option ℕ → String → Option ℕ → Build I ℕ
  found_line source output none = fail
  found_line (i, feed) output (some at) = attached C i feed at

  unfoldable pub named_line : Option (I × Option ℕ) → String → Build I ℕ
  unfolding found_line place
  named_line none output = fail
  named_line (some source) output = found_line source output (place (outputs source.0) output)

  unfoldable pub line_by : String → Option String → Build I ℕ
  unfolding bare_line named_line search
  line_by input none b = bare_line (search same_text b.index input) b
  line_by input (some output) b = named_line (search same_text b.built input) output b

  unfoldable pub line : Operand F → Build I ℕ
  unfolding line_by
  line o = line_by o.input o.output

  abbrev term_of : Operand F → Option ℕ → Term F
  term_of o slot = record {
    kind = o.kind;
    slot = slot;
    field = o.field;
    value = o.value;
    back = o.back;
  }

  -- One round of the loop of `compare`.
  unfoldable pub term_by : OperandKind → Operand F → Build I (Term F)
  unfolding line
  term_by operand_input o = bind (line o) (λ at. pure (term_of o (some at)))
  term_by operand_field o = pure (term_of o none)
  term_by operand_literal o = pure (term_of o none)

  unfoldable pub terms_of : List (Operand F) → Build I (List (Term F))
  unfolding term_by
  terms_of [] = pure []
  terms_of (o ∷ os) = bind (term_by o.kind o) (λ t. bind (terms_of os) (λ ts. pure (t ∷ ts)))

module _ {I F : Type 0} (C : Catalog I F) ⦃fl : Float F⦄ where
  open C use {make}
  open fl use {decimal, of_int, to_int}

  -- `compare` of a trend, whose second operand is the number of bars. Go panics at a trend with fewer than
  -- two operands, which the parser refuses; such a trend fails here.
  unfoldable pub trend_of : Comparator → List (Operand F) → Build I (Rule F)
  unfolding terms_of
  trend_of op (o ∷ bars ∷ os) =
      bind (terms_of C (o ∷ [])) (λ ts. pure (compare_rule op ts (to_int bars.value)))
  trend_of op _ = fail

  unfoldable pub compare : Comparator → List (Operand F) → Build I (Rule F)
  unfolding trend_of terms_of is_trend
  compare op os =
      if is_trend op
      then trend_of op os
      else bind (terms_of C os) (λ ts. pure (compare_rule op ts 1))

  -- `rule` and `rules`; a bracket is no condition.
  unfoldable mutual
    pub rule : Node F → Build I (Rule F)
    rule (all_node ns) = bind (rules ns) (λ rs. pure (all_rule rs))
    rule (any_node ns) = bind (rules ns) (λ rs. pure (any_rule rs))
    rule (not_node n) = bind (rule n) (λ r. pure (not_rule r))
    rule (compare_node op os) = compare op os
    rule (stop_loss l) = fail
    rule (take_profit l) = fail

    pub rules : Nodes F → Build I (Rules F)
    rules no_nodes = pure nil
    rules (more_nodes n ns) = bind (rule n) (λ r. bind (rules ns) (λ rs. pure (cons r rs)))

  unfoldable pub slot_of : Option I → Build I ℕ
  slot_of none = fail
  slot_of (some i) = attached C i none 0

  unfoldable pub bracket_by : LevelType → Level F → Build I (Bracket F)
  unfolding slot_of
  bracket_by level_pct l = pure (record { level = l; slot = none })
  bracket_by level_atr l =
      bind (slot_of (make "atr" (("period", of_int l.period) ∷ []) none))
        (λ at. pure (record { level = l; slot = some at }))

  unfoldable pub bracket : Level F → Build I (Bracket F)
  unfolding bracket_by
  bracket l = bracket_by l.kind l

  -- `hoist`, with its loop: the leg with its brackets, and what is left of the node.
  unfoldable mutual
    pub hoist : Leg F → Node F → Build I (Leg F × Option (Node F))
    hoist leg (stop_loss l) = bind (bracket l) (λ b. pure (record leg { stop = some b }, none))
    hoist leg (take_profit l) = bind (bracket l) (λ b. pure (record leg { target = some b }, none))
    hoist leg (any_node ns) = bind (hoist_all leg ns) (λ r. pure (r.0, residual_of r.1))
    hoist leg (all_node ns) = pure (leg, some (all_node ns))
    hoist leg (not_node n) = pure (leg, some (not_node n))
    hoist leg (compare_node op os) = pure (leg, some (compare_node op os))

    pub hoist_all : Leg F → Nodes F → Build I (Leg F × Nodes F)
    hoist_all leg no_nodes = pure (leg, no_nodes)
    hoist_all leg (more_nodes n ns) =
        bind (hoist leg n) (λ r. bind (hoist_all r.0 ns) (λ rest. pure (rest.0, keep r.1 rest.1)))
