-- ===== src/Sweep/Folds/Days.antt =====
-- internal/sweep/folds.go: folds that are computed on numbers of days.
use native.Mathlib.Nat.{add-mul}
use alvo_backtester.Base.{
  ℕ, zero, suc, ◌+◌, ◌-◌, ◌*◌, ◌<◌, ◌≤◌, ◌≡◌, refl, false, List, [], ◌∷◌, length, ltb, arith,
  Bool-cases, ◌⊎◌, inl, inr, if◌then◌else◌,
}
use alvo_backtester.Sweep.Folds.{Fold, max_folds}

-- A fold of dates, and the folds up to an end.
abbrev pub day_fold : ℕ → ℕ → ℕ → ℕ → Fold
day_fold start in_days out_days i =
    let in_start = start + i * out_days in
    let in_end = in_start + (in_days - 1) in
    let out_start = in_end + 1 in
    record {
      fold = i;
      in_start = in_start;
      in_end = in_end;
      out_start = out_start;
      out_end = out_start + (out_days - 1);
    }

abbrev pub day_folds : ℕ → ℕ → ℕ → ℕ → ℕ → ℕ → List Fold
day_folds zero i start end in_days out_days = []
day_folds (suc room) i start end in_days out_days =
    let f = day_fold start in_days out_days i in
    let rest = day_folds room (i + 1) start end in_days out_days in
    if ltb end f.out_end then [] else f ∷ rest

-- The tests of the folds cover the days from `day` on, one window after the other, every one after
-- the window that it is trained on and none past `end`; where the folds stop short of the most there
-- may be, one more test would go past `end`.
abbrev pub Tiles : ℕ → ℕ → ℕ → ℕ → ℕ → List Fold → Type 0
Tiles room day end in_days out_days [] = (room ≡ 0) ⊎ (end < day + (out_days - 1))
Tiles room day end in_days out_days (f ∷ fs) =
    (f.out_start ≡ day)
    × (f.out_end + 1 ≡ day + out_days)
    × (f.in_end + 1 ≡ f.out_start)
    × (f.in_start + in_days ≡ f.out_start)
    × (f.out_end ≤ end)
    × Tiles (room - 1) (day + out_days) end in_days out_days fs

pub day_folds-Tiles :
    (room i start end in_days out_days : ℕ)
    → 0 < in_days
    → 0 < out_days
    → Tiles room
        (start + i * out_days + in_days)
        end
        in_days
        out_days
        (day_folds room i start end in_days out_days)
day_folds-Tiles zero i start end in_days out_days p q = inl refl
day_folds-Tiles (suc room) i start end in_days out_days p q =
    elim (Bool-cases (ltb end (day_fold start in_days out_days i).out_end)) [
      | inl past ↦ simp (past) (inr (ground arith))
      | inr fits ↦
          let step = add-mul i 1 out_days in
          let next : start + (i + 1) * out_days + in_days
              ≡ start + i * out_days + in_days + out_days =
            omega (arith, step) in
          let less : suc room - 1 ≡ room = omega arith in
          let tail = day_folds-Tiles room (i + 1) start end in_days out_days p q in
          let rest = rw next at tail in
          simp (fits)
            (omega arith, omega arith, omega arith, omega arith, ground arith, rw less rest)
    ]

pub length-day_folds :
    (room i start end in_days out_days : ℕ)
    → length (day_folds room i start end in_days out_days) ≤ room
length-day_folds zero i start end in_days out_days = omega arith
length-day_folds (suc room) i start end in_days out_days =
    let rest = length-day_folds room (i + 1) start end in_days out_days in ground (arith, rest)

pub first_fold :
    (start end in_days out_days : ℕ)
    → 0 < in_days
    → 0 < out_days
    → start + in_days + out_days ≤ end + 1
    → 0 < length (day_folds max_folds 0 start end in_days out_days)
first_fold start end in_days out_days p q h =
    let fits : ltb end (day_fold start in_days out_days 0).out_end ≡ false = ground arith in
    simp (fits) (omega arith)
