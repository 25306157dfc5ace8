-- ===== src/Strategy/Information.antt =====
-- internal/strategy/eval.go: a verdict that is known stays as it is when the frame knows more.
use alvo_backtester.Base.{
  ℕ, zero, suc, ◌+◌, ◌≡◌, refl, Bool, true, false, Option, none, some, List, [], ◌∷◌, arith, Float,
}
use alvo_backtester.Strategy.Spec.{
  Field, Comparator, op_gt, op_lt, op_gte, op_lte, op_eq, op_crosses_above, op_crosses_below,
  op_rising, op_falling, op_between, OperandKind, operand_input, operand_field, operand_literal,
}
use alvo_backtester.Strategy.Eval.{
  Frame, Term, Rule, Rules, all_rule, any_rule, not_rule, compare_rule, nil, cons, Verdict, reading,
  read, term_at, cross, trend, span, plain, eval_compare, eval, eval_all, eval_any,
}

-- A frame that knows at least what another one knows, and says the same of it.
pub record Refines {F : Type 0} (f g : Frame F) : Type 0 where
  pub slot : (s : Option ℕ) (back : ℕ) (x : F) → f.slot s back ≡ some x → g.slot s back ≡ some x
  pub field : (c : Field) (back : ℕ) (x : F) → f.field c back ≡ some x → g.field c back ≡ some x

-- A reading that is there is the same in the second frame.
abbrev Keeps : {F : Type 0} → Option F → Option F → Type 0
Keeps {F} o p = (x : F) → o ≡ some x → p ≡ some x

abbrev pub Settles : Verdict → Verdict → Type 0
Settles v w = v.1 ≡ true → w ≡ v

module _ {F : Type 0} where
  reading-Settles :
      (o p : Option F) (k l : F → Verdict)
      → Keeps o p
      → ((x : F) → Settles (k x) (l x))
      → Settles (reading o k) (reading p l)
  reading-Settles none p k l keeps settled_rule h = cc
  reading-Settles (some x) p k l keeps settled_rule h = rw (keeps x refl) (settled_rule x h)

module _ {F : Type 0} {f g : Frame F} (refines : Refines f g) where
  at-Keeps :
      (t : Term F) (kind : OperandKind) (extra : ℕ)
      → Keeps (read kind t f extra) (read kind t g extra)
  unfolding read
  at-Keeps t operand_literal extra x h = h
  at-Keeps t operand_field extra x h = refines.field t.field (t.back + extra) x h
  at-Keeps t operand_input extra x h = refines.slot t.slot (t.back + extra) x h

  term_at-Keeps :
      (terms : List (Term F)) (i extra : ℕ)
      → Keeps (term_at terms i f extra) (term_at terms i g extra)
  unfolding term_at
  term_at-Keeps [] i extra x h = h
  term_at-Keeps (t ∷ terms) zero extra x h = at-Keeps t t.kind extra x h
  term_at-Keeps (t ∷ terms) (suc i) extra x h = term_at-Keeps terms i extra x h

module _ {F : Type 0} ⦃fl : Float F⦄ {f g : Frame F} (refines : Refines f g) where
  plain-Settles :
      (test : F → F → Bool) (terms : List (Term F))
      → Settles (plain test terms f) (plain test terms g)
  unfolding plain
  plain-Settles test terms =
      reading-Settles _ _ _ _ (term_at-Keeps refines terms 0 0)
        λ left. reading-Settles _ _ _ _ (term_at-Keeps refines terms 1 0) λ right h. refl

  span-Settles : (terms : List (Term F)) → Settles (span terms f) (span terms g)
  unfolding span
  span-Settles terms = reading-Settles _ _ _ _ (term_at-Keeps refines terms 0 0) λ value.
      reading-Settles _ _ _ _ (term_at-Keeps refines terms 1 0)
        λ low. reading-Settles _ _ _ _ (term_at-Keeps refines terms 2 0) λ high h. refl

  cross-Settles :
      (above : Bool) (terms : List (Term F)) → Settles (cross above terms f) (cross above terms g)
  unfolding cross
  cross-Settles above terms = reading-Settles _ _ _ _ (term_at-Keeps refines terms 0 0) λ now.
      reading-Settles _ _ _ _ (term_at-Keeps refines terms 1 0) λ against.
        reading-Settles _ _ _ _ (term_at-Keeps refines terms 0 1) λ before.
          reading-Settles _ _ _ _ (term_at-Keeps refines terms 1 1) λ against_before h. refl

  trend-Settles :
      (falling : Bool) (terms : List (Term F)) (bars step : ℕ)
      → Settles (trend falling terms f bars step) (trend falling terms g bars step)
  unfolding trend
  trend-Settles falling terms zero step h = refl
  trend-Settles falling terms (suc bars) step h =
      let rest = trend-Settles falling terms bars (step + 1) in
      reading-Settles _ _ _ _ (term_at-Keeps refines terms 0 step)
        (λ now.
          reading-Settles _ _ _ _ (term_at-Keeps refines terms 0 (step + 1))
            λ before e. ground (arith, rest))
        h

  eval_compare-Settles :
      (op : Comparator) (terms : List (Term F)) (bars : ℕ)
      → Settles (eval_compare op terms bars f) (eval_compare op terms bars g)
  unfolding eval_compare
  eval_compare-Settles op_rising terms bars = trend-Settles false terms bars 0
  eval_compare-Settles op_falling terms bars = trend-Settles true terms bars 0
  eval_compare-Settles op_crosses_above terms bars = cross-Settles true terms
  eval_compare-Settles op_crosses_below terms bars = cross-Settles false terms
  eval_compare-Settles op_between terms bars = span-Settles terms
  eval_compare-Settles op_gt terms bars = plain-Settles _ terms
  eval_compare-Settles op_lt terms bars = plain-Settles _ terms
  eval_compare-Settles op_gte terms bars = plain-Settles _ terms
  eval_compare-Settles op_lte terms bars = plain-Settles _ terms
  eval_compare-Settles op_eq terms bars = plain-Settles _ terms

-- A loop that has met an unknown can only settle by the verdict that ends it.
module _ {F : Type 0} ⦃fl : Float F⦄ where
  eval_all-unsettled :
      (rs : Rules F) (f : Frame F)
      → (eval_all rs f false).1 ≡ true
      → eval_all rs f false ≡ (false, true)
  unfolding eval_all
  eval_all-unsettled nil f h = cc
  eval_all-unsettled (cons r rs) f h = ground (arith, eval_all-unsettled rs f)

  eval_any-unsettled :
      (rs : Rules F) (f : Frame F)
      → (eval_any rs f false).1 ≡ true
      → eval_any rs f false ≡ (true, true)
  unfolding eval_any
  eval_any-unsettled nil f h = cc
  eval_any-unsettled (cons r rs) f h = ground (arith, eval_any-unsettled rs f)

module _ {F : Type 0} ⦃fl : Float F⦄ {f g : Frame F} (refines : Refines f g) where
  mutual
    unfolding eval eval_all eval_any

    settled_rule : (r : Rule F) → Settles (eval r f) (eval r g)
    settled_rule (all_rule rs) h = Settles-all rs true true (λ e. e) h
    settled_rule (any_rule rs) h = Settles-any rs true true (λ e. e) h
    settled_rule (not_rule r) h = ground (arith, settled_rule r)
    settled_rule (compare_rule op terms bars) h = eval_compare-Settles refines op terms bars h

    Settles-all :
        (rs : Rules F) (sf sg : Bool)
        → (sf ≡ true → sg ≡ true)
        → Settles (eval_all rs f sf) (eval_all rs g sg)
    Settles-all nil sf sg s h = ground arith
    Settles-all (cons r rs) sf sg s h = ground (
      arith,
      settled_rule r,
      eval_all-unsettled rs f,
      Settles-all rs true true (λ e. e),
      Settles-all rs false true (λ e. cc),
      Settles-all rs false false (λ e. e),
    )

    Settles-any :
        (rs : Rules F) (sf sg : Bool)
        → (sf ≡ true → sg ≡ true)
        → Settles (eval_any rs f sf) (eval_any rs g sg)
    Settles-any nil sf sg s h = ground arith
    Settles-any (cons r rs) sf sg s h = ground (
      arith,
      settled_rule r,
      eval_any-unsettled rs f,
      Settles-any rs true true (λ e. e),
      Settles-any rs false true (λ e. cc),
      Settles-any rs false false (λ e. e),
    )

  -- A verdict that is known in one frame is the rule's verdict in every frame that has at least
  -- the readings of the first, with the same values.
  pub eval-Settles : (r : Rule F) → (eval r f).1 ≡ true → eval r g ≡ eval r f
  eval-Settles r = settled_rule r
