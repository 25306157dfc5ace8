-- ===== src/Indicator/Extreme.antt =====
-- internal/indicator/extreme.go: the highest or the lowest of the last values, a queue on a ring.
-- `seen` counts the pushes.
use Prim.Native.Nat.{max}
use alvo_backtester.Base.{
  ℕ, zero, suc, ◌+◌, ◌-◌, ◌%◌, Bool, true, false, ◌&&◌, List, map, ltb, leb, ◌==◌, if◌then◌else◌,
  get_or, set, replicate, Float,
}

pub record Extreme (F : Type 0) : Type 0 where
  pub size : ℕ
  pub highest : Bool
  pub values : List F
  pub ages : List ℕ
  pub head : ℕ
  pub count : ℕ
  pub seen : ℕ

module _ {F : Type 0} where
  unfoldable pub full : Extreme F → Bool
  full e = leb e.size e.seen

  unfoldable pub age : Extreme F → ℕ
  age e = if e.count == 0 then 0 else e.seen - 1 - get_or e.ages e.head 0

  -- The first `if` of `push`: the oldest value leaves when its age is `size`. The source compares
  -- with `seen - size`, which may be negative.
  unfoldable pub expire : Extreme F → Extreme F
  expire e =
      if ltb 0 e.count && leb (get_or e.ages e.head 0 + e.size) e.seen
      then record e { head = (e.head + 1) % e.size; count = e.count - 1 }
      else e

module _ {F : Type 0} ⦃fl : Float F⦄ where
  open fl use {decimal, lt}

  -- `newExtreme`
  unfoldable pub new : ℕ → Bool → Extreme F
  new size highest = record {
    size = max size 1;
    highest = highest;
    values = replicate (max size 1) (decimal 0 0);
    ages = replicate (max size 1) 0;
    head = 0;
    count = 0;
    seen = 0;
  }

  -- The value at the tail stops the loop of `push`.
  unfoldable pub stands : Bool → F → F → Bool
  stands true old value = lt value old
  stands false old value = lt old value

  -- The loop of `push` that takes values off the tail, from a count of them.
  unfoldable pub survivors : Extreme F → F → ℕ → ℕ
  unfolding stands
  survivors e value zero = 0
  survivors e value (suc n) =
      let rest = survivors e value n in
      let tail = (e.head + n) % e.size in
      if stands e.highest (get_or e.values tail (decimal 0 0)) value then suc n else rest

  unfoldable pub append : Extreme F → F → Extreme F
  append e value =
      let slot = (e.head + e.count) % e.size in
      record e {
        values = set e.values slot value;
        ages = set e.ages slot e.seen;
        count = e.count + 1;
        seen = e.seen + 1;
      }

  -- `extreme.push`
  unfoldable pub push : Extreme F → F → Extreme F
  unfolding expire survivors append
  push e value =
      let e' : Extreme F = expire e in
      append (record e' { count = survivors e' value e'.count }) value

  unfoldable pub value : Extreme F → F
  value e = if e.count == 0 then decimal 0 0 else get_or e.values e.head (decimal 0 0)

  unfoldable pub reset : Extreme F → Extreme F
  reset e = record e {
    values = map (λ v. decimal 0 0) e.values;
    ages = map (λ a. 0) e.ages;
    head = 0;
    count = 0;
    seen = 0;
  }
