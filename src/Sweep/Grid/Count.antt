-- ===== src/Sweep/Grid/Count.antt =====
-- internal/sweep/axis.go: the points of a grid are all the choices of a value on every axis.
use native.Mathlib.Nat.{mul_assoc, le-mul_of_pos_right, mul-one}
use alvo_backtester.Base.{
  ℕ, zero, suc, ◌+◌, ◌*◌, ◌<◌, ◌≤◌, ◌≡◌, refl, sym, ◌∙◌, ap, false, none, some, String, List, [],
  ◌∷◌, map, All, length, ltb, arith, Bool-cases, inl, inr, ◌⊎◌, Float,
}
use alvo_backtester.Sweep.Grid.{
  Axis, Point, sizes, turn, max_points, total_of, values_at, points_from, grid,
}
use alvo_backtester.Sweep.Grid.Odometer.{product, number, Points, turn-number}

-- The points have the indices from `i` on, and the index of a point is the number of the cursor that
-- its values are read at, a place on every axis.
abbrev pub Numbered : {F P : Type 0} ⦃fl : Float F⦄ → ℕ → List (Axis F) → List (Point F P) → Type 0
Numbered i axes [] = Unit
Numbered i axes (p ∷ points) =
    (p.index ≡ i)
    × ((cursor : List ℕ) × Points (sizes axes) cursor
        × (number (sizes axes) cursor ≡ i)
        × (p.values ≡ values_at axes cursor))
    × Numbered (i + 1) axes points

product-pos : (ns : List ℕ) → All (λ n. 0 < n) ns → 0 < product ns
product-pos [] a = omega arith
product-pos (n ∷ ns) a =
    let rest = product-pos ns a.1 in
    let first = a.0 in
    let le = le-mul_of_pos_right {m = product ns} n rest in omega (arith, first, le)

total_of-product :
    (total : ℕ) (ns : List ℕ)
    → All (λ n. 0 < n) ns
    → total * product ns ≤ max_points
    → total_of total ns ≡ some (total * product ns)
unfolding total_of
total_of-product total [] a h = ap some (sym (mul-one total))
total_of-product total (n ∷ ns) a h =
    let same : total * n * product ns ≡ total * (n * product ns) = mul_assoc total n (product ns) in
    let le = le-mul_of_pos_right {m = product ns} (total * n) (product-pos ns a.1) in
    let few : ltb max_points (total * n) ≡ false = ground (arith, same, le) in
    rw (few, sym same) (total_of-product (total * n) ns a.1 (omega (arith, same)))

total_of-none :
    (total : ℕ) (ns : List ℕ)
    → total ≤ max_points
    → max_points < total * product ns
    → total_of total ns ≡ none
unfolding total_of
total_of-none total [] t h = let same = mul-one total in absurd (omega (arith, same))
total_of-none total (n ∷ ns) t h =
    let same : total * n * product ns ≡ total * (n * product ns) = mul_assoc total n (product ns) in
    elim (Bool-cases (ltb max_points (total * n))) [
      | inl many ↦ rw many
      | inr few ↦ rw few (total_of-none (total * n) ns (ground arith) (omega (arith, same)))
    ]

module _ {F P : Type 0} ⦃fl : Float F⦄ (build : List (String × F) → P) where
  points_from-Numbered :
      (n i : ℕ) (axes : List (Axis F)) (cursor : List ℕ)
      → Points (sizes axes) cursor
      → (n ≡ 0) ⊎ (number (sizes axes) cursor ≡ i)
      → i + n ≤ product (sizes axes)
      → (points : List (Point F P)) × (points_from (λ v. some (build v)) n i axes cursor
          ≡ some points)
        × (length points ≡ n)
        × Numbered i axes points
  unfolding points_from
  points_from-Numbered zero i axes cursor p at h = ([], refl, refl, tt)
  points_from-Numbered (suc n) i axes cursor p (inl none_left) h = absurd (omega arith)
  points_from-Numbered (suc n) i axes cursor p (inr at) h =
      let (inside, plain, wraps) = turn-number (sizes axes) cursor p in
      let next : (n ≡ 0) ⊎ (number (sizes axes) (turn (sizes axes) cursor).1 ≡ i + 1) =
        elim (Bool-cases (turn (sizes axes) cursor).0) [
          | inl carry ↦ let full = (wraps carry).1 in inl (omega (arith, full))
          | inr stays ↦ let step = plain stays in inr (omega (arith, step))
        ] in
      let (points, is, count, numbered) =
        points_from-Numbered n (i + 1) axes (turn (sizes axes) cursor).1 inside next
          (omega arith) in
      (
        record { index = i; values = values_at axes cursor; spec = build (values_at axes cursor) }
            ∷ points,
        rw (is, points_from),
        ap suc count,
        (refl, (cursor, p, at, refl), numbered),
      )

start-Points : (ns : List ℕ) → All (λ n. 0 < n) ns → Points ns (map (λ n. 0) ns)
start-Points [] a = tt
start-Points (n ∷ ns) a = (a.0, start-Points ns a.1)

start-number : (ns : List ℕ) → number ns (map (λ n. 0) ns) ≡ 0
start-number [] = refl
start-number (n ∷ ns) = omega (arith, start-number ns)

-- When every axis has a value and every choice of values can be built: a grid of at most two hundred
-- points has as many points as there are choices, and its point `i` has the index `i` and takes on
-- every axis the value that the `i`-th choice takes, the first axis varying slowest; a larger grid is
-- refused.
pub grid-Numbered :
    {F P : Type 0} ⦃fl : Float F⦄ (build : List (String × F) → P) (axes : List (Axis F))
    → All (λ n. 0 < n) (sizes axes)
    → (product (sizes axes) ≤ max_points
        → (points : List (Point F P)) × (grid (λ v. some (build v)) axes ≡ some points)
          × (length points ≡ product (sizes axes))
          × Numbered 0 axes points)
      × (max_points < product (sizes axes) → grid (λ v. some (build v)) axes ≡ none)
unfolding grid
grid-Numbered build axes a =
    let ns = sizes axes in
    let one : 1 * product ns ≡ product ns = omega arith in
    (
      (λ few.
          let is : total_of 1 ns ≡ some (product ns) =
            total_of-product 1 ns a (omega arith) ∙ ap some one in
          rw (is, grid)
            (points_from-Numbered build (product ns) 0 axes (map (λ n. 0) ns) (start-Points ns a)
              (inr (start-number ns)) (omega arith))),
      λ many. let is = total_of-none 1 ns (omega arith) (omega arith) in rw (is, grid),
    )
