-- ===== src/Backtest/Actions.antt =====
-- internal/backtest/actions.go: dividends and splits, read off the adjusted closes.
use alvo_backtester.Base.{
  ℕ, ◌+◌, Bool, ◌&&◌, ◌||◌, Option, none, some, List, [], ◌∷◌, get_or, if◌then◌else◌, Float,
}
use alvo_backtester.Market.Bar.{Candle}

pub record Actions (F : Type 0) : Type 0 where
  pub per_share : List F
  pub factor : List F
  pub events : ℕ
  pub splits : ℕ
  pub unadjusted : ℕ
  pub unpriced : ℕ

-- What one bar is found to be, from its close and the one before it.
pub data Action (F : Type 0) : Type 0 where
  plain : Action F
  dividend : F → Action F
  split : F → Action F
  unexplained : Action F

module _ {F : Type 0} ⦃fl : Float F⦄ where
  open fl use {decimal, add, sub, mul, div, lt, le, abs, is_nan, is_inf}

  abbrev pub split_terms : List F
  split_terms =
      decimal 15 1
      ∷ decimal 2 0
      ∷ decimal 25 1
      ∷ decimal 3 0
      ∷ div (decimal 10 0) (decimal 3 0)
      ∷ decimal 4 0
      ∷ decimal 5 0
      ∷ decimal 6 0
      ∷ decimal 8 0
      ∷ decimal 10 0
      ∷ decimal 15 0
      ∷ decimal 20 0
      ∷ decimal 25 0
      ∷ decimal 50 0
      ∷ decimal 100 0
      ∷ []

  unfoldable pub ratio_of : Candle F → F
  ratio_of c = elim c.adj_close [
    | none ↦ decimal 0 0
    | some adjusted ↦ if le c.close (decimal 0 0) then decimal 0 0 else div adjusted c.close
  ]

  -- One candidate of the inner loop, against the best one so far and its gap.
  closer : F → F → F × F → F × F
  closer want candidate (best, gap) =
      let off = div (abs (sub candidate want)) want in
      if lt off gap then (candidate, off) else (best, gap)

  closest : F → List F → F × F → F × F
  unfolding closer
  closest want [] found = found
  closest want (term ∷ terms) found =
      closest want terms (closer want (div (decimal 1 0) term) (closer want term found))

  unfoldable pub split_factor : F → Option F
  unfolding closest
  split_factor ratio =
      let want = div (decimal 1 0) ratio in
      let best = (closest want split_terms (decimal 0 0, decimal 1 2)).0 in
      if lt (decimal 0 0) best then some best else none

  abbrev is_flat : F → Bool
  is_flat ratio =
      le ratio (decimal 0 0)
      || is_nan ratio
      || is_inf ratio
      || le (abs (sub ratio (decimal 1 0))) (decimal 1 6)

  -- The body of the loop of `actionsOf`, less its first lines.
  unfoldable pub action_of : Candle F → Candle F → Action F
  unfolding ratio_of split_factor
  action_of prev c =
      let before = ratio_of prev in
      let after = ratio_of c in
      let ratio = div before after in
      let cash = mul prev.close (sub (decimal 1 0) ratio) in
      if le before (decimal 0 0) || le after (decimal 0 0)
      then plain
      else if is_flat ratio
      then plain
      else if lt (decimal 0 0) cash && le cash (mul prev.close (decimal 30 2))
      then dividend cash
      else elim (split_factor ratio) [ some factor ↦ split factor | none ↦ unexplained ]

  abbrev missing : Candle F → ℕ
  missing c = elim c.adj_close [ none ↦ 1 | some x ↦ 0 ]

  -- One bar's entry, in front of those of the bars after it.
  entered : Action F → Actions F → Actions F
  entered plain a = record a {
    per_share = decimal 0 0 ∷ a.per_share;
    factor = decimal 0 0 ∷ a.factor;
  }
  entered (dividend cash) a = record a {
    per_share = cash ∷ a.per_share;
    factor = decimal 0 0 ∷ a.factor;
    events = a.events + 1;
  }
  entered (split f) a = record a {
    per_share = decimal 0 0 ∷ a.per_share;
    factor = f ∷ a.factor;
    splits = a.splits + 1;
  }
  entered unexplained a = record a {
    per_share = decimal 0 0 ∷ a.per_share;
    factor = decimal 0 0 ∷ a.factor;
    unpriced = a.unpriced + 1;
  }

  actions_after : Candle F → List (Candle F) → Actions F
  unfolding action_of entered
  actions_after prev [] = record {
    per_share = [];
    factor = [];
    events = 0;
    splits = 0;
    unadjusted = 0;
    unpriced = 0;
  }
  actions_after prev (c ∷ cs) =
      let rest = entered (action_of prev c) (actions_after c cs) in
      record rest { unadjusted = missing c + rest.unadjusted }

  -- `actionsOf`: the first bar has no bar before it, and no action.
  unfoldable pub actions_of : List (Candle F) → Actions F
  unfolding actions_after
  actions_of [] = record {
    per_share = [];
    factor = [];
    events = 0;
    splits = 0;
    unadjusted = 0;
    unpriced = 0;
  }
  actions_of (c ∷ cs) =
      let rest = entered plain (actions_after c cs) in
      record rest { unadjusted = missing c + rest.unadjusted }

  -- `dividendAt` and `factorAt`: nothing out of range.
  unfoldable pub dividend_at : Actions F → ℕ → F
  dividend_at a i = get_or a.per_share i (decimal 0 0)

  unfoldable pub factor_at : Actions F → ℕ → F
  factor_at a i = get_or a.factor i (decimal 0 0)
