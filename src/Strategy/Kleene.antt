-- ===== src/Strategy/Kleene.antt =====
-- internal/strategy/eval.go: rules as formulas of a three-valued logic.
use alvo_backtester.Base.{
  ◌≡◌, refl, Bool, true, false, not, Option, none, some, arith, if◌then◌else◌, Float,
}
use alvo_backtester.Strategy.Eval.{
  Frame, Rule, Rules, all_rule, any_rule, not_rule, nil, cons, Verdict, eval, eval_all, eval_any,
}

-- What a verdict says: nothing, as long as it is not known.
abbrev pub truth : Verdict → Option Bool
truth (value, known) = if known then some value else none

-- The connectives of Kleene's strong three-valued logic.
pub and₃ : Option Bool → Option Bool → Option Bool
and₃ (some false) q = some false
and₃ (some true) q = q
and₃ none (some false) = some false
and₃ none _ = none

pub or₃ : Option Bool → Option Bool → Option Bool
or₃ (some true) q = some true
or₃ (some false) q = q
or₃ none (some true) = some true
or₃ none _ = none

pub not₃ : Option Bool → Option Bool
not₃ none = none
not₃ (some b) = some (not b)

module _ {F : Type 0} ⦃fl : Float F⦄ where
  pub conjunction : Rules F → Frame F → Option Bool
  conjunction nil f = some true
  conjunction (cons r rs) f = and₃ (truth (eval r f)) (conjunction rs f)

  pub disjunction : Rules F → Frame F → Option Bool
  disjunction nil f = some false
  disjunction (cons r rs) f = or₃ (truth (eval r f)) (disjunction rs f)

  eval_all-conjunction :
      (rs : Rules F) (f : Frame F) (settled : Bool)
      → truth (eval_all rs f settled)
        ≡ and₃ (if settled then some true else none) (conjunction rs f)
  unfolding eval_all and₃ conjunction
  eval_all-conjunction nil f true = refl
  eval_all-conjunction nil f false = refl
  eval_all-conjunction (cons r rs) f settled =
      ground (arith, eval_all-conjunction rs f settled, eval_all-conjunction rs f false)

  eval_any-disjunction :
      (rs : Rules F) (f : Frame F) (settled : Bool)
      → truth (eval_any rs f settled)
        ≡ or₃ (if settled then some false else none) (disjunction rs f)
  unfolding eval_any or₃ disjunction
  eval_any-disjunction nil f true = refl
  eval_any-disjunction nil f false = refl
  eval_any-disjunction (cons r rs) f settled =
      ground (arith, eval_any-disjunction rs f settled, eval_any-disjunction rs f false)

  -- Though their loops stop early, an `all` is the three-valued
  -- conjunction of its rules, an `any` their disjunction, and a `not` the negation of its rule.
  pub eval_kleene :
      (rs : Rules F) (r : Rule F) (f : Frame F)
      → (truth (eval (all_rule rs) f) ≡ conjunction rs f)
        × (truth (eval (any_rule rs) f) ≡ disjunction rs f)
        × (truth (eval (not_rule r) f) ≡ not₃ (truth (eval r f)))
  unfolding eval and₃ or₃ not₃
  eval_kleene rs r f = (
    ground (arith, eval_all-conjunction rs f true),
    ground (arith, eval_any-disjunction rs f true),
    ground arith,
  )
