-- ===== src/Strategy/Compile/Fits.antt =====
-- internal/strategy/compile.go: the rules and the brackets that the compiler makes read slots that are
-- there.
use alvo_backtester.Base.{
  ℕ, ◌<◌, arith, String, Option, none, some, List, [], ◌∷◌, length, Bool-cases, inl, inr, Float,
}
use alvo_backtester.Strategy.Spec.{
  OperandKind, operand_input, operand_field, operand_literal, Comparator,
}
use alvo_backtester.Strategy.Syntax.{
  Operand, Node, Nodes, all_node, any_node, not_node, compare_node, stop_loss, take_profit,
  no_nodes, more_nodes,
}
use alvo_backtester.Strategy.Eval.{nil, cons}
use alvo_backtester.Strategy.Compile.{Catalog, Builder, pure, fail, attached, search}
use text.Mathlib.Text.{◌==◌ as same_text}
use alvo_backtester.Strategy.Compile.Rules.{
  place, bare_line, found_line, named_line, line_by, line, term_by, terms_of, trend_of, compare,
  is_trend, rule, rules,
}
use alvo_backtester.Strategy.Compile.Planned.{
  FeedIn, IsPlanned, OptionHas, search-OptionHas, attach-IsPlanned, FeedIn-below,
}
use alvo_backtester.Strategy.Compile.Kept.{
  Kept, Keeps, pure-Kept, bind-Kept, TermIn, TermsIn, RuleIn, RulesIn, RuleIn-below,
}

abbrev pub SlotIn : ℕ → ℕ → Type 0
SlotIn at n = at < n

module _ {I F : Type 0} (C : Catalog I F) where
  pub attached-Kept :
      (i : I) (feed : Option ℕ) (output : ℕ) (b : Builder I)
      → IsPlanned b
      → FeedIn (length b.slots) feed
      → Kept SlotIn b (attached C i feed output b)
  unfolding attached
  attached-Kept i feed output b planned h =
      let (planned', new, grown) = attach-IsPlanned C i feed output b planned h in
      (planned', grown, new)

  bare_line-Kept :
      (at : Option ℕ) (b : Builder I)
      → IsPlanned b
      → OptionHas (λ at. at < length b.slots) at
      → Kept SlotIn b (bare_line C at b)
  unfolding bare_line pure fail
  bare_line-Kept none b planned h = tt
  bare_line-Kept (some at) b planned h = (planned, omega arith, h)

  found_line-Kept :
      (i : I) (feed : Option ℕ) (output : String) (at : Option ℕ) (b : Builder I)
      → IsPlanned b
      → FeedIn (length b.slots) feed
      → Kept SlotIn b (found_line C (i, feed) output at b)
  unfolding found_line fail
  found_line-Kept i feed output none b planned h = tt
  found_line-Kept i feed output (some at) b planned h = attached-Kept i feed at b planned h

  named_line-Kept :
      (source : Option (I × Option ℕ)) (output : String) (b : Builder I)
      → IsPlanned b
      → OptionHas (λ s. FeedIn (length b.slots) s.1) source
      → Kept SlotIn b (named_line C source output b)
  unfolding named_line found_line fail
  named_line-Kept none output b planned h = tt
  named_line-Kept (some (i, feed)) output b planned h =
      found_line-Kept i feed output (place (C.outputs i) output) b planned h

  line-Keeps : (input : String) (output : Option String) → Keeps SlotIn (line_by C input output)
  unfolding line_by
  line-Keeps input none b planned =
      bare_line-Kept (search same_text b.index input) b planned
        (search-OptionHas same_text (λ at. at < length b.slots) b.index input planned.4)
  line-Keeps input (some output) b planned =
      named_line-Kept (search same_text b.built input) output b planned
        (search-OptionHas same_text (λ s. FeedIn (length b.slots) s.1) b.built input planned.5)

  term_by-Keeps : (kind : OperandKind) (o : Operand F) → Keeps TermIn (term_by C kind o)
  unfolding term_by line
  term_by-Keeps operand_input o b planned =
      bind-Kept SlotIn TermIn b (line_by C o.input o.output) _
        (line-Keeps o.input o.output b planned)
        (λ at b' planned' grown h. pure-Kept TermIn _ b' planned' h)
  term_by-Keeps operand_field o b planned = pure-Kept TermIn _ b planned tt
  term_by-Keeps operand_literal o b planned = pure-Kept TermIn _ b planned tt

  terms_of-Keeps : (os : List (Operand F)) → Keeps TermsIn (terms_of C os)
  unfolding terms_of
  terms_of-Keeps [] b planned = pure-Kept TermsIn [] b planned tt
  terms_of-Keeps (o ∷ os) b planned =
      bind-Kept TermIn TermsIn b (term_by C o.kind o) _ (term_by-Keeps o.kind o b planned)
        (λ t b' planned' _ h.
          bind-Kept TermsIn TermsIn b' (terms_of C os) _ (terms_of-Keeps os b' planned')
            (λ ts b'' planned'' grown hs.
              pure-Kept TermsIn (t ∷ ts) b'' planned'' (FeedIn-below _ _ t.slot grown h, hs)))

module _ {I F : Type 0} (C : Catalog I F) ⦃fl : Float F⦄ where
  open C use {make}
  open fl use {of_int}

  trend_of-Keeps : (op : Comparator) (os : List (Operand F)) → Keeps RuleIn (trend_of C op os)
  unfolding trend_of fail
  trend_of-Keeps op [] b planned = tt
  trend_of-Keeps op (o ∷ []) b planned = tt
  trend_of-Keeps op (o ∷ bars ∷ os) b planned =
      bind-Kept TermsIn RuleIn b (terms_of C (o ∷ [])) _ (terms_of-Keeps C (o ∷ []) b planned)
        (λ ts b' planned' _ h. pure-Kept RuleIn _ b' planned' h)

  compare-Keeps : (op : Comparator) (os : List (Operand F)) → Keeps RuleIn (compare C op os)
  unfolding compare
  compare-Keeps op os b planned = elim (Bool-cases (is_trend op)) [
    | inl trend ↦ rw trend (trend_of-Keeps op os b planned)
    | inr plain ↦ rw plain (
        bind-Kept TermsIn RuleIn b (terms_of C os) _ (terms_of-Keeps C os b planned)
          (λ ts b' planned' _ h. pure-Kept RuleIn _ b' planned' h))
  ]

  mutual
    unfolding rule rules fail

    pub rule-Keeps : (n : Node F) → Keeps RuleIn (rule C n)
    rule-Keeps (all_node ns) b planned =
        bind-Kept RulesIn RuleIn b (rules C ns) _ (rules-Keeps ns b planned)
          (λ rs b' planned' _ h. pure-Kept RuleIn _ b' planned' h)
    rule-Keeps (any_node ns) b planned =
        bind-Kept RulesIn RuleIn b (rules C ns) _ (rules-Keeps ns b planned)
          (λ rs b' planned' _ h. pure-Kept RuleIn _ b' planned' h)
    rule-Keeps (not_node n) b planned =
        bind-Kept RuleIn RuleIn b (rule C n) _ (rule-Keeps n b planned)
          (λ r b' planned' _ h. pure-Kept RuleIn _ b' planned' h)
    rule-Keeps (compare_node op os) b planned = compare-Keeps op os b planned
    rule-Keeps (stop_loss l) b planned = tt
    rule-Keeps (take_profit l) b planned = tt

    rules-Keeps : (ns : Nodes F) → Keeps RulesIn (rules C ns)
    rules-Keeps no_nodes b planned = pure-Kept RulesIn nil b planned tt
    rules-Keeps (more_nodes n ns) b planned =
        bind-Kept RuleIn RulesIn b (rule C n) _ (rule-Keeps n b planned) (λ r b' planned' _ h.
          bind-Kept RulesIn RulesIn b' (rules C ns) _ (rules-Keeps ns b' planned')
            (λ rs b'' planned'' grown hs.
              pure-Kept RulesIn (cons r rs) b'' planned'' (RuleIn-below r _ _ grown h, hs)))
