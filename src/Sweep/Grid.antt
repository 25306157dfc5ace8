-- ===== src/Sweep/Grid.antt =====
-- internal/sweep/axis.go: the points of a grid. `Apply`, which writes a point's values into the JSON
-- of a strategy and parses it again, is the argument `apply`; a failure of it fails the grid.
pub mod Odometer
pub mod Count
use alvo_backtester.Base.{
  ℕ, zero, suc, ◌+◌, ◌*◌, Bool, true, false, Option, none, some, String, List, [], ◌∷◌, map, get_or,
  length, ltb, if◌then◌else◌, Float, ◌==◌,
}

pub record Axis (F : Type 0) : Type 0 where
  pub path : String
  pub values : List F

pub record Point (F P : Type 0) : Type 0 where
  pub index : ℕ
  pub values : List (String × F)
  pub spec : P

-- `MaxPoints`
abbrev pub max_points : ℕ
max_points = 200

module _ {F : Type 0} where
  abbrev pub sizes : List (Axis F) → List ℕ
  sizes axes = map (λ (a : Axis F). length a.values) axes

-- The first loop of `Grid`: the number of points, unless there are too many.
unfoldable pub total_of : ℕ → List ℕ → Option ℕ
total_of total [] = some total
total_of total (n ∷ ns) =
    let rest = total_of (total * n) ns in if ltb max_points (total * n) then none else rest

-- The innermost loop: the last axis turns first. The flag says that the loop goes on to the axis
-- before.
unfoldable pub turn : List ℕ → List ℕ → Bool × List ℕ
turn (n ∷ ns) (c ∷ cursor) =
    let (carry, rest) = turn ns cursor in
    if carry
    then (if ltb (c + 1) n then (false, (c + 1) ∷ rest) else (true, 0 ∷ rest))
    else (false, c ∷ rest)
turn _ cursor = (true, cursor)

module _ {F : Type 0} ⦃fl : Float F⦄ where
  open fl use {decimal}

  -- `values[axis.Path] = axis.Values[cursor[k]]`; the paths of the axes differ.
  unfoldable pub values_at : List (Axis F) → List ℕ → List (String × F)
  values_at (a ∷ axes) (c ∷ cursor) =
      (a.path, get_or a.values c (decimal 0 0)) ∷ values_at axes cursor
  values_at _ cursor = []

  -- The second loop, with `n` points to go.
  unfoldable pub points_from :
      {P : Type 0}
      → (List (String × F) → Option P)
      → ℕ
      → ℕ
      → List (Axis F)
      → List ℕ
      → Option (List (Point F P))
  unfolding values_at turn
  points_from apply zero i axes cursor = some []
  points_from apply (suc n) i axes cursor = elim (apply (values_at axes cursor)) [
    | none ↦ none
    | some built ↦ elim (points_from apply n (i + 1) axes (turn (sizes axes) cursor).1) [
      | none ↦ none
      | some points ↦
          some (record { index = i; values = values_at axes cursor; spec = built } ∷ points)
    ]
  ]

  -- `Grid`; every failure is `none`.
  unfoldable pub grid :
      {P : Type 0} → (List (String × F) → Option P) → List (Axis F) → Option (List (Point F P))
  unfolding total_of points_from
  grid apply axes = elim (total_of 1 (sizes axes)) [
    | none ↦ none
    | some total ↦ points_from apply total 0 axes (map (λ n. 0) (sizes axes))
  ]
