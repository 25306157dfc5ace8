-- ===== src/Strategy/Lookback.antt =====
-- internal/strategy/eval.go: `depth` bounds how far back a rule reads.
use alvo_backtester.Base.{
  ℕ, zero, suc, ◌+◌, ◌≤◌, ◌≡◌, refl, Bool, true, false, Option, List, [], ◌∷◌, arith, Float,
}
use alvo_backtester.Strategy.Spec.{
  Field, Comparator, op_gt, op_lt, op_gte, op_lte, op_eq, op_crosses_above, op_crosses_below,
  op_rising, op_falling, op_between, OperandKind, operand_input, operand_field, operand_literal,
}
use alvo_backtester.Strategy.Eval.{
  Frame, Term, Rule, Rules, all_rule, any_rule, not_rule, compare_rule, nil, cons, read, term_at,
  cross, trend, span, plain, eval_compare, eval, eval_all, eval_any, extra_of, term_depth,
  compare_depth, depth, deepest,
}

-- Two frames that say the same of the last `n` bars and of the present one.
pub record Agree {F : Type 0} (n : ℕ) (f g : Frame F) : Type 0 where
  pub slot : (s : Option ℕ) (back : ℕ) → back ≤ n → f.slot s back ≡ g.slot s back
  pub field : (c : Field) (back : ℕ) → back ≤ n → f.field c back ≡ g.field c back

module _ {F : Type 0} {n : ℕ} {f g : Frame F} (agree : Agree n f g) where
  read-Agree :
      (kind : OperandKind) (t : Term F) (extra e : ℕ)
      → e ≤ extra
      → term_depth kind t extra ≤ n
      → read kind t f e ≡ read kind t g e
  unfolding read term_depth
  read-Agree operand_literal t extra e h d = refl
  read-Agree operand_field t extra e h d = agree.field t.field (t.back + e) (omega arith)
  read-Agree operand_input t extra e h d = agree.slot t.slot (t.back + e) (omega arith)

  term_at-Agree :
      (extra : ℕ) (terms : List (Term F)) (i e : ℕ)
      → compare_depth terms extra ≤ n
      → e ≤ extra
      → term_at terms i f e ≡ term_at terms i g e
  unfolding term_at compare_depth
  term_at-Agree extra [] i e d h = refl
  term_at-Agree extra (t ∷ terms) zero e d h = read-Agree t.kind t extra e h (omega arith)
  term_at-Agree extra (t ∷ terms) (suc i) e d h = term_at-Agree extra terms i e (omega arith) h

module _ {F : Type 0} ⦃fl : Float F⦄ {n : ℕ} {f g : Frame F} (agree : Agree n f g) where
  plain-Agree :
      (test : F → F → Bool) (terms : List (Term F))
      → compare_depth terms 0 ≤ n
      → plain test terms f ≡ plain test terms g
  unfolding plain
  plain-Agree test terms d = rw (
    term_at-Agree agree 0 terms 0 0 d (omega arith),
    term_at-Agree agree 0 terms 1 0 d (omega arith),
  )

  span-Agree : (terms : List (Term F)) → compare_depth terms 0 ≤ n → span terms f ≡ span terms g
  unfolding span
  span-Agree terms d = rw (
    term_at-Agree agree 0 terms 0 0 d (omega arith),
    term_at-Agree agree 0 terms 1 0 d (omega arith),
    term_at-Agree agree 0 terms 2 0 d (omega arith),
  )

  cross-Agree :
      (above : Bool) (terms : List (Term F))
      → compare_depth terms 1 ≤ n
      → cross above terms f ≡ cross above terms g
  unfolding cross
  cross-Agree above terms d = rw (
    term_at-Agree agree 1 terms 0 0 d (omega arith),
    term_at-Agree agree 1 terms 1 0 d (omega arith),
    term_at-Agree agree 1 terms 0 1 d (omega arith),
    term_at-Agree agree 1 terms 1 1 d (omega arith),
  )

  trend-Agree :
      (falling : Bool) (extra : ℕ) (terms : List (Term F)) (bars step : ℕ)
      → compare_depth terms extra ≤ n
      → step + bars ≤ extra
      → trend falling terms f bars step ≡ trend falling terms g bars step
  unfolding trend
  trend-Agree falling extra terms zero step d h = refl
  trend-Agree falling extra terms (suc bars) step d h = rw (
    term_at-Agree agree extra terms 0 step d (omega arith),
    term_at-Agree agree extra terms 0 (step + 1) d (omega arith),
    trend-Agree falling extra terms bars (step + 1) d (omega arith),
  )

  eval_compare-Agree :
      (op : Comparator) (terms : List (Term F)) (bars : ℕ)
      → compare_depth terms (extra_of op bars) ≤ n
      → eval_compare op terms bars f ≡ eval_compare op terms bars g
  unfolding eval_compare extra_of
  eval_compare-Agree op_rising terms bars d = trend-Agree false bars terms bars 0 d (omega arith)
  eval_compare-Agree op_falling terms bars d = trend-Agree true bars terms bars 0 d (omega arith)
  eval_compare-Agree op_crosses_above terms bars d = cross-Agree true terms d
  eval_compare-Agree op_crosses_below terms bars d = cross-Agree false terms d
  eval_compare-Agree op_between terms bars d = span-Agree terms d
  eval_compare-Agree op_gt terms bars d = plain-Agree _ terms d
  eval_compare-Agree op_lt terms bars d = plain-Agree _ terms d
  eval_compare-Agree op_gte terms bars d = plain-Agree _ terms d
  eval_compare-Agree op_lte terms bars d = plain-Agree _ terms d
  eval_compare-Agree op_eq terms bars d = plain-Agree _ terms d

  mutual
    unfolding eval eval_all eval_any depth deepest

    agreed : (r : Rule F) → depth r ≤ n → eval r f ≡ eval r g
    agreed (all_rule rs) d = agreed_all rs true d
    agreed (any_rule rs) d = agreed_any rs true d
    agreed (not_rule r) d = rw (agreed r d)
    agreed (compare_rule op terms bars) d = eval_compare-Agree op terms bars d

    agreed_all : (rs : Rules F) (s : Bool) → deepest rs ≤ n → eval_all rs f s ≡ eval_all rs g s
    agreed_all nil s d = refl
    agreed_all (cons r rs) s d = ground (
      arith,
      agreed r (omega arith),
      agreed_all rs true (omega arith),
      agreed_all rs false (omega arith),
    )

    agreed_any : (rs : Rules F) (s : Bool) → deepest rs ≤ n → eval_any rs f s ≡ eval_any rs g s
    agreed_any nil s d = refl
    agreed_any (cons r rs) s d = ground (
      arith,
      agreed r (omega arith),
      agreed_any rs true (omega arith),
      agreed_any rs false (omega arith),
    )

  -- In two frames that agree on every reading at most `n` bars back, a rule of depth at most `n`
  -- has the same verdict.
  pub eval-depth : (r : Rule F) → depth r ≤ n → eval r f ≡ eval r g
  eval-depth r d = agreed r d
