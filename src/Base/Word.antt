-- ===== src/Base/Word.antt =====
-- Go's `int64` (and `int`, on a 64-bit machine) as its bit pattern: a number below 2 ^ 64 in two's
-- complement. Every operation wraps as Go's does. A pattern from `half_size` up is negative.
use Prim.Native.Nat.{ℕ, ◌+◌, ◌-◌, ◌*◌, ◌/◌, ◌%◌, ◌^◌}
use mathlib.Core.Bool.{Bool, xor}
use alvo_backtester.Base.Tests.{ltb, leb, if◌then◌else◌}

abbrev pub word_size : ℕ
word_size = 2 ^ 64

abbrev pub half_size : ℕ
half_size = 2 ^ 63

unfoldable pub add64 : ℕ → ℕ → ℕ
add64 a b = (a + b) % word_size

unfoldable pub sub64 : ℕ → ℕ → ℕ
sub64 a b = (a + word_size - b % word_size) % word_size

unfoldable pub neg64 : ℕ → ℕ
neg64 a = (word_size - a % word_size) % word_size

unfoldable pub mul64 : ℕ → ℕ → ℕ
mul64 a b = (a * b) % word_size

unfoldable pub is_negative : ℕ → Bool
is_negative a = leb half_size a

unfoldable pub magnitude : ℕ → ℕ
unfolding is_negative
magnitude a = if is_negative a then word_size - a else a

-- Division truncates towards zero; the callers never divide by zero.
unfoldable pub quot64 : ℕ → ℕ → ℕ
unfolding magnitude is_negative neg64
quot64 a b =
    let q = magnitude a / magnitude b in
    if xor (is_negative a) (is_negative b) then neg64 q else q % word_size

unfoldable pub rem64 : ℕ → ℕ → ℕ
unfolding quot64 mul64 sub64
rem64 a b = sub64 a (mul64 (quot64 a b) b)

-- Signed order: adding half the size turns it into the order of the patterns.
unfoldable pub lt64 : ℕ → ℕ → Bool
lt64 a b = ltb ((a + half_size) % word_size) ((b + half_size) % word_size)

unfoldable pub le64 : ℕ → ℕ → Bool
le64 a b = leb ((a + half_size) % word_size) ((b + half_size) % word_size)

unfoldable pub min64 : ℕ → ℕ → ℕ
unfolding lt64
min64 a b = if lt64 b a then b else a

unfoldable pub max64 : ℕ → ℕ → ℕ
unfolding lt64
max64 a b = if lt64 a b then b else a
