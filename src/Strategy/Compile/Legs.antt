-- ===== src/Strategy/Compile/Legs.antt =====
-- internal/strategy/compile.go: the legs that the compiler makes read slots that are there, and so do the
-- inputs that it declares.
use alvo_backtester.Base.{ℕ, ◌≤◌, Option, none, some, length, Float}
use alvo_backtester.Strategy.Spec.{Level, LevelType, level_pct, level_atr}
use alvo_backtester.Strategy.Syntax.{
  Node, Nodes, all_node, any_node, not_node, compare_node, stop_loss, take_profit, no_nodes,
  more_nodes,
}
use alvo_backtester.Strategy.Plan.{Bracket, Leg}
use alvo_backtester.Strategy.Compile.{Catalog, Builder, fail}
use alvo_backtester.Strategy.Compile.Rules.{
  rule, slot_of, bracket_by, bracket, hoist, hoist_all, make_leg,
}
use alvo_backtester.Strategy.Compile.Whole.{residual_rule, exit_leg, leg_by}
use alvo_backtester.Strategy.Compile.Planned.{FeedIn, IsPlanned, OptionHas, FeedIn-below}
use alvo_backtester.Strategy.Compile.Kept.{Kept, Keeps, pure-Kept, bind-Kept, RuleIn, RuleIn-below}
use alvo_backtester.Strategy.Compile.Fits.{SlotIn, attached-Kept, rule-Keeps}

OptionHas-below :
    {A : Type 0} (P : A → ℕ → Type 0) (o : Option A) (n m : ℕ)
    → ((a : A) → P a n → P a m)
    → OptionHas (λ a. P a n) o
    → OptionHas (λ a. P a m) o
OptionHas-below P none n m f h = tt
OptionHas-below P (some a) n m f h = f a h

module _ {F : Type 0} where
  abbrev pub BracketIn : Bracket F → ℕ → Type 0
  BracketIn b n = FeedIn n b.slot

  -- Every slot that a leg reads is below `n`.
  abbrev pub LegIn : Leg F → ℕ → Type 0
  LegIn leg n =
      OptionHas (λ r. RuleIn r n) leg.entry
      × OptionHas (λ r. RuleIn r n) leg.exit
      × OptionHas (λ b. BracketIn b n) leg.stop
      × OptionHas (λ b. BracketIn b n) leg.target

  pub LegIn-below : (leg : Leg F) (n m : ℕ) → n ≤ m → LegIn leg n → LegIn leg m
  LegIn-below leg n m h (entry, exit, stop, target) = (
    OptionHas-below RuleIn leg.entry n m (λ r p. RuleIn-below r n m h p) entry,
    OptionHas-below RuleIn leg.exit n m (λ r p. RuleIn-below r n m h p) exit,
    OptionHas-below BracketIn leg.stop n m (λ b p. FeedIn-below n m b.slot h p) stop,
    OptionHas-below BracketIn leg.target n m (λ b p. FeedIn-below n m b.slot h p) target,
  )

  abbrev pub HoistIn : {A : Type 0} → Leg F × A → ℕ → Type 0
  HoistIn r n = LegIn r.0 n

module _ {I F : Type 0} (C : Catalog I F) ⦃fl : Float F⦄ where
  open C use {make}
  open fl use {of_int}

  slot_of-Keeps : (i : Option I) → Keeps SlotIn (slot_of C i)
  unfolding slot_of fail
  slot_of-Keeps none b planned = tt
  slot_of-Keeps (some i) b planned = attached-Kept C i none 0 b planned tt

  bracket_by-Keeps : (kind : LevelType) (l : Level F) → Keeps BracketIn (bracket_by C kind l)
  unfolding bracket_by
  bracket_by-Keeps level_pct l b planned = pure-Kept BracketIn _ b planned tt
  bracket_by-Keeps level_atr l b planned =
      bind-Kept SlotIn BracketIn b (slot_of C _) _ (slot_of-Keeps _ b planned)
        (λ at b' planned' _ h. pure-Kept BracketIn _ b' planned' h)

  mutual
    unfolding hoist hoist_all bracket

    hoist-Kept :
        (leg : Leg F) (n : Node F) (b : Builder I)
        → IsPlanned b
        → LegIn leg (length b.slots)
        → Kept HoistIn b (hoist C leg n b)
    hoist-Kept leg (stop_loss l) b planned h =
        bind-Kept BracketIn HoistIn b (bracket_by C l.kind l) _
          (bracket_by-Keeps l.kind l b planned)
          (λ at b' planned' grown there.
            let (entry, exit, stop, target) = LegIn-below leg _ _ grown h in
            pure-Kept HoistIn _ b' planned' (entry, exit, there, target))
    hoist-Kept leg (take_profit l) b planned h =
        bind-Kept BracketIn HoistIn b (bracket_by C l.kind l) _
          (bracket_by-Keeps l.kind l b planned)
          (λ at b' planned' grown there.
            let (entry, exit, stop, target) = LegIn-below leg _ _ grown h in
            pure-Kept HoistIn _ b' planned' (entry, exit, stop, there))
    hoist-Kept leg (any_node ns) b planned h =
        bind-Kept HoistIn HoistIn b (hoist_all C leg ns) _ (hoist_all-Kept leg ns b planned h)
          (λ r b' planned' _ there. pure-Kept HoistIn _ b' planned' there)
    hoist-Kept leg (all_node ns) b planned h = pure-Kept HoistIn _ b planned h
    hoist-Kept leg (not_node n) b planned h = pure-Kept HoistIn _ b planned h
    hoist-Kept leg (compare_node op os) b planned h = pure-Kept HoistIn _ b planned h

    hoist_all-Kept :
        (leg : Leg F) (ns : Nodes F) (b : Builder I)
        → IsPlanned b
        → LegIn leg (length b.slots)
        → Kept HoistIn b (hoist_all C leg ns b)
    hoist_all-Kept leg no_nodes b planned h = pure-Kept HoistIn _ b planned h
    hoist_all-Kept leg (more_nodes n ns) b planned h =
        bind-Kept HoistIn HoistIn b (hoist C leg n) _ (hoist-Kept leg n b planned h)
          (λ r b' planned' _ there.
            bind-Kept HoistIn HoistIn b' (hoist_all C r.0 ns) _
              (hoist_all-Kept r.0 ns b' planned' there)
              (λ rest b'' planned'' _ here. pure-Kept HoistIn _ b'' planned'' here))

  residual_rule-Kept :
      (leg : Leg F) (n : Option (Node F)) (b : Builder I)
      → IsPlanned b
      → LegIn leg (length b.slots)
      → Kept LegIn b (residual_rule C leg n b)
  unfolding residual_rule
  residual_rule-Kept leg none b planned h = pure-Kept LegIn _ b planned h
  residual_rule-Kept leg (some n) b planned h =
      bind-Kept RuleIn LegIn b (rule C n) _ (rule-Keeps C n b planned) (λ r b' planned' grown there.
        let (entry, exit, stop, target) = LegIn-below leg _ _ grown h in
        pure-Kept LegIn _ b' planned' (entry, there, stop, target))

  exit_leg-Kept :
      (leg : Leg F) (exit : Option (Node F)) (b : Builder I)
      → IsPlanned b
      → LegIn leg (length b.slots)
      → Kept LegIn b (exit_leg C leg exit b)
  unfolding exit_leg
  exit_leg-Kept leg none b planned h = pure-Kept LegIn _ b planned h
  exit_leg-Kept leg (some exit) b planned h =
      bind-Kept HoistIn LegIn b (hoist C leg exit) _ (hoist-Kept leg exit b planned h)
        (λ r b' planned' _ there. residual_rule-Kept r.0 r.1 b' planned' there)

  pub leg_by-Keeps : (entry exit : Option (Node F)) → Keeps LegIn (leg_by C entry exit)
  unfolding leg_by make_leg
  leg_by-Keeps none exit b planned = pure-Kept LegIn _ b planned (tt, tt, tt, tt)
  leg_by-Keeps (some entry) exit b planned =
      bind-Kept RuleIn LegIn b (rule C entry) _ (rule-Keeps C entry b planned)
        (λ r b' planned' _ h. exit_leg-Kept _ exit b' planned' (h, tt, tt, tt))
