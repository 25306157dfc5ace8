-- ===== src/Indicator/Wilder.antt =====
-- internal/indicator/smooth.go: Wilder's average.
use Prim.Native.Nat.{max}
use alvo_backtester.Base.{ℕ, ◌+◌, Bool, true, false, ◌==◌, if◌then◌else◌, Float}

pub record Wilder (F : Type 0) : Type 0 where
  pub period : ℕ
  pub sum : F
  pub count : ℕ
  pub value : F
  pub ready : Bool

abbrev pub wilder_prime_factor : ℕ
wilder_prime_factor = 16

module _ {F : Type 0} ⦃fl : Float F⦄ where
  open fl use {decimal, of_int, add, sub, div}

  -- `newWilder`
  unfoldable pub new : ℕ → Wilder F
  new period = record {
    period = max period 1;
    sum = decimal 0 0;
    count = 0;
    value = decimal 0 0;
    ready = false;
  }

  -- The part of `push` before the average is ready.
  unfoldable pub gathered : Wilder F → F → Wilder F
  gathered w sum =
      if w.count + 1 == w.period
      then record w {
        sum = sum;
        count = w.count + 1;
        value = div sum (of_int w.period);
        ready = true;
      }
      else record w { sum = sum; count = w.count + 1 }

  unfoldable pub push : Wilder F → F → Wilder F
  unfolding gathered
  push w x =
      if w.ready
      then record w { value = add w.value (div (sub x w.value) (of_int w.period)) }
      else gathered w (add w.sum x)

  unfoldable pub reset : Wilder F → Wilder F
  reset w = record w { sum = decimal 0 0; count = 0; value = decimal 0 0; ready = false }
