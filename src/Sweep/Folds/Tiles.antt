-- ===== src/Sweep/Folds/Tiles.antt =====
-- internal/sweep/folds.go: the folds in a zone that keeps its offset.
use alvo_backtester.Base.{ℕ, ◌+◌, ◌-◌, ◌*◌, List, [], ◌∷◌, ltb, if◌then◌else◌}
use alvo_backtester.Zone.{Zone, KeepsOffset}
use alvo_backtester.Sweep.Folds.{Fold}

module _ (z : Zone) (start in_days out_days last : ℕ) (steady : KeepsOffset z start) where
  -- How many days after the start a fold ends.
  abbrev ends : ℕ → ℕ
  ends i = i * out_days + (in_days - 1) + 1 + (out_days - 1)

  -- A turn of the loop.
  abbrev one_round : Fold × ℕ → ℕ → List Fold → List Fold
  one_round (f, out_end) end rest = if ltb end out_end then [] else f ∷ rest
