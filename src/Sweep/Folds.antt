-- ===== src/Sweep/Folds.antt =====
-- internal/sweep/folds.go: the windows of a walk-forward sweep. The ends of the range are instants of a zone,
-- the midnights of their dates; a fold holds dates, a date in the text form `DateOnly` being its number of
-- days. The numbers of days that a range allows are far below the largest `int`.
pub mod Days
pub mod Tiles
use alvo_backtester.Base.{
  ℕ, zero, suc, ◌+◌, ◌-◌, ◌*◌, ◌/◌, Bool, true, false, ◌||◌, Option, none, some, List, [], ◌∷◌, ltb,
  if◌then◌else◌,
}
use alvo_backtester.Zone.{Zone, add_days, day_length}

-- `type Fold`
pub record Fold : Type 0 where
  pub fold : ℕ
  pub in_start : ℕ
  pub in_end : ℕ
  pub out_start : ℕ
  pub out_end : ℕ

abbrev pub max_folds : ℕ
max_folds = 12

abbrev pub min_fold_days : ℕ
min_fold_days = 5

-- The body of the loop of `Folds`: the fold, and the instant of its `outEnd`.
unfoldable pub fold_at : Zone → ℕ → ℕ → ℕ → ℕ → Fold × ℕ
fold_at z start in_days out_days i =
    let in_start = add_days z start (i * out_days) in
    let in_end = add_days z in_start (in_days - 1) in
    let out_start = add_days z in_end 1 in
    let out_end = add_days z out_start (out_days - 1) in
    (
      record {
        fold = i;
        in_start = z.day_of in_start;
        in_end = z.day_of in_end;
        out_start = z.day_of out_start;
        out_end = z.day_of out_end;
      },
      out_end,
    )

-- The loop, with room for so many more folds.
unfoldable pub folds_from : Zone → ℕ → ℕ → ℕ → ℕ → ℕ → ℕ → List Fold
unfolding fold_at
folds_from z zero i start end in_days out_days = []
folds_from z (suc room) i start end in_days out_days =
    let (f, out_end) = fold_at z start in_days out_days i in
    let rest = folds_from z room (i + 1) start end in_days out_days in
    if ltb end out_end then [] else f ∷ rest

unfoldable pub some_folds : List Fold → Option (List Fold)
some_folds [] = none
some_folds (f ∷ folds) = some (f ∷ folds)

-- `span`: the whole stretches of twenty-four hours between the two instants, and one. Where the end is
-- before the start it is one at the most, and here 0; either is less than any fold needs.
unfoldable pub span_days : ℕ → ℕ → ℕ
span_days start end = if ltb end start then 0 else (end - start) / day_length + 1

-- `Folds`; every error is `none`.
unfoldable pub folds : Zone → ℕ → ℕ → ℕ → ℕ → Option (List Fold)
unfolding folds_from some_folds span_days
folds z start end in_days out_days =
    if ltb in_days min_fold_days
      || ltb out_days min_fold_days
      || ltb (span_days start end) (in_days + out_days)
    then none
    else some_folds (folds_from z max_folds 0 start end in_days out_days)
