-- ===== src/Indicator/Window.antt =====
-- internal/indicator/ring.go: `window`, a ring with the sum of the squared deviations.
use alvo_backtester.Base.{ℕ, Bool, ◌==◌, if◌then◌else◌, Float}
use alvo_backtester.Indicator.Ring
use alvo_backtester.Indicator.Ring.{Ring}

pub record Window (F : Type 0) : Type 0 where
  pub ring : Ring F
  pub sq_dev : F

module _ {F : Type 0} where
  unfoldable pub full : Window F → Bool
  full w = Ring.full w.ring

module _ {F : Type 0} ⦃fl : Float F⦄ where
  open fl use {decimal, of_int, add, sub, mul, div, max, sqrt}

  -- `newWindow`
  unfoldable pub new : ℕ → Window F
  new size = record { ring = Ring.new size; sq_dev = decimal 0 0 }

  unfoldable pub push : Window F → F → Window F
  push w value =
      let before = Ring.mean w.ring in
      let old = Ring.evicted w.ring in
      let ring : Ring F = Ring.push w.ring value in
      let after = Ring.mean ring in
      let change =
        if Ring.full w.ring
        then mul (sub value old) (sub (add (sub value after) old) before)
        else mul (sub value before) (sub value after) in
      record { ring = ring; sq_dev = add w.sq_dev change }

  unfoldable pub mean : Window F → F
  mean w = Ring.mean w.ring

  unfoldable pub stddev : Window F → F
  stddev w =
      if Ring.len w.ring == 0
      then decimal 0 0
      else sqrt (div (max w.sq_dev (decimal 0 0)) (of_int (Ring.len w.ring)))

  unfoldable pub reset : Window F → Window F
  reset w = record { ring = Ring.reset w.ring; sq_dev = decimal 0 0 }
