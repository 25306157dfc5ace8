-- ===== src/Strategy/Compile/Kept.antt =====
-- internal/strategy/compile.go: every step of the compiler keeps the builder planned, and what it makes
-- reads slots that are there.
use alvo_backtester.Base.{ℕ, ◌≤◌, arith, Option, none, some, List, length, All}
use alvo_backtester.Strategy.Eval.{
  Term, Rule, Rules, nil, cons, all_rule, any_rule, not_rule, compare_rule,
}
use alvo_backtester.Strategy.Compile.{Builder, Build, then_do, bind, pure}
use alvo_backtester.Strategy.Compile.Planned.{FeedIn, IsPlanned, All-map, FeedIn-below}

-- What a step leaves of a planned builder: it is planned, no slot is lost, and the result fits the
-- slots that there are.
abbrev pub Kept : {I A : Type 0} → (A → ℕ → Type 0) → Builder I → Option (A × Builder I) → Type 0
Kept P b none = Unit
Kept P b (some (a, b')) = IsPlanned b' × (length b.slots ≤ length b'.slots) × P a (length b'.slots)

abbrev pub Keeps : {I A : Type 0} → (A → ℕ → Type 0) → Build I A → Type 0
Keeps {I = I} P m = (b : Builder I) → IsPlanned b → Kept P b (m b)

module _ {I A : Type 0} (P : A → ℕ → Type 0) where
  pub Kept-after :
      (b b' : Builder I) (r : Option (A × Builder I))
      → length b.slots ≤ length b'.slots
      → Kept P b' r
      → Kept P b r
  Kept-after b b' none h k = tt
  Kept-after b b' (some (a, b'')) h (planned, grown, fits) =
      (planned, omega (arith, h, grown), fits)

  pub pure-Kept : (a : A) (b : Builder I) → IsPlanned b → P a (length b.slots) → Kept P b (pure a b)
  unfolding pure
  pure-Kept a b planned p = (planned, omega arith, p)

module _ {I A B : Type 0} (P : A → ℕ → Type 0) (Q : B → ℕ → Type 0) where
  then_do-Kept :
      (b : Builder I) (r : Option (A × Builder I)) (f : A → Build I B)
      → Kept P b r
      → ((a : A) (b' : Builder I)
          → IsPlanned b'
          → length b.slots ≤ length b'.slots
          → P a (length b'.slots)
          → Kept Q b' (f a b'))
      → Kept Q b (then_do r f)
  unfolding then_do
  then_do-Kept b none f k next = tt
  then_do-Kept b (some (a, b')) f (planned, grown, fits) next =
      Kept-after Q b b' (f a b') grown (next a b' planned grown fits)

  pub bind-Kept :
      (b : Builder I) (m : Build I A) (f : A → Build I B)
      → Kept P b (m b)
      → ((a : A) (b' : Builder I)
          → IsPlanned b'
          → length b.slots ≤ length b'.slots
          → P a (length b'.slots)
          → Kept Q b' (f a b'))
      → Kept Q b (bind m f b)
  unfolding bind
  bind-Kept b m f k next = then_do-Kept b (m b) f k next

module _ {F : Type 0} where
  abbrev pub TermIn : Term F → ℕ → Type 0
  TermIn t n = FeedIn n t.slot

  abbrev pub TermsIn : List (Term F) → ℕ → Type 0
  TermsIn ts n = All (λ t. TermIn t n) ts

  abbrev mutual
    pub RuleIn : Rule F → ℕ → Type 0
    RuleIn (all_rule rs) n = RulesIn rs n
    RuleIn (any_rule rs) n = RulesIn rs n
    RuleIn (not_rule r) n = RuleIn r n
    RuleIn (compare_rule op ts bars) n = TermsIn ts n

    pub RulesIn : Rules F → ℕ → Type 0
    RulesIn nil n = Unit
    RulesIn (cons r rs) n = RuleIn r n × RulesIn rs n

  pub TermsIn-below : (ts : List (Term F)) (n m : ℕ) → n ≤ m → TermsIn ts n → TermsIn ts m
  TermsIn-below ts n m h all =
      All-map (λ t. TermIn t n) (λ t. TermIn t m) ts (λ t p. FeedIn-below n m t.slot h p) all

  mutual
    pub RuleIn-below : (r : Rule F) (n m : ℕ) → n ≤ m → RuleIn r n → RuleIn r m
    RuleIn-below (all_rule rs) n m h p = RulesIn-below rs n m h p
    RuleIn-below (any_rule rs) n m h p = RulesIn-below rs n m h p
    RuleIn-below (not_rule r) n m h p = RuleIn-below r n m h p
    RuleIn-below (compare_rule op ts bars) n m h p = TermsIn-below ts n m h p

    pub RulesIn-below : (rs : Rules F) (n m : ℕ) → n ≤ m → RulesIn rs n → RulesIn rs m
    RulesIn-below nil n m h p = tt
    RulesIn-below (cons r rs) n m h (p, ps) = (RuleIn-below r n m h p, RulesIn-below rs n m h ps)
