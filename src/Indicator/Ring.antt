-- ===== src/Indicator/Ring.antt =====
-- internal/indicator/ring.go: `ring`, the last values of a series with their sum.
pub mod Spots
pub mod Refines
use Prim.Native.Nat.{max}
use alvo_backtester.Base.{
  ℕ, ◌+◌, ◌-◌, ◌%◌, Bool, List, map, ltb, leb, ◌==◌, if◌then◌else◌, length, get_or, set, replicate,
  Float,
}

pub record Ring (F : Type 0) : Type 0 where
  pub values : List F
  pub next : ℕ
  pub count : ℕ
  pub total : F

module _ {F : Type 0} where
  unfoldable pub len : Ring F → ℕ
  len r = r.count

  unfoldable pub sum : Ring F → F
  sum r = r.total

  unfoldable pub full : Ring F → Bool
  full r = r.count == length r.values

module _ {F : Type 0} ⦃fl : Float F⦄ where
  open fl use {decimal, of_int, add, sub, div}

  -- `newRing`
  unfoldable pub new : ℕ → Ring F
  new size = record {
    values = replicate (max size 1) (decimal 0 0);
    next = 0;
    count = 0;
    total = decimal 0 0;
  }

  -- `ring.push`, without the value that it returns.
  unfoldable pub push : Ring F → F → Ring F
  push r value = record {
    values = set r.values r.next value;
    next = (r.next + 1) % length r.values;
    count = if ltb r.count (length r.values) then r.count + 1 else r.count;
    total = add r.total (sub value (get_or r.values r.next (decimal 0 0)));
  }

  -- The value that a push returns: the one that it writes over.
  unfoldable pub evicted : Ring F → F
  evicted r = get_or r.values r.next (decimal 0 0)

  unfoldable pub at : Ring F → ℕ → F
  at r i =
      let size = length r.values in
      let start = (r.next + size - r.count) % size in
      if leb r.count i then decimal 0 0 else get_or r.values ((start + i) % size) (decimal 0 0)

  unfoldable pub mean : Ring F → F
  mean r = if r.count == 0 then decimal 0 0 else div r.total (of_int r.count)

  -- `ring.reset`
  unfoldable pub reset : Ring F → Ring F
  reset r = record {
    values = map (λ v. decimal 0 0) r.values;
    next = 0;
    count = 0;
    total = decimal 0 0;
  }
