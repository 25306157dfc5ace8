-- ===== src/Base/Real.antt =====
-- Go's `float64`, as a type with the operations that the program uses. The development holds for
-- every such type; what a theorem needs of the order is `IsOrdered`, which IEEE 754 meets.
use Prim.Native.Nat.{ℕ, zero, suc, ◌+◌, ◌-◌, ◌*◌, ◌/◌, ◌^◌}
use mathlib.Core.Path.{◌≡◌}
use mathlib.Core.Logic.{◌⊎◌}
use mathlib.Core.Bool.{Bool, true, false, not}
use mathlib.Core.Option.{Option, none, some}
use native.Mathlib.Omega.{arith}
use alvo_backtester.Base.Tests.{ltb, leb, ◌==◌, if◌then◌else◌}

pub record Float (F : Type 0) : Type 0 where
  -- `decimal m k` is the literal m / 10 ^ k.
  pub decimal : ℕ → ℕ → F
  -- The conversions from and to an `int64`; the second truncates.
  pub of_int : ℕ → F
  pub to_int : F → ℕ
  pub add : F → F → F
  pub sub : F → F → F
  pub mul : F → F → F
  pub div : F → F → F
  pub lt : F → F → Bool
  pub le : F → F → Bool
  -- `==`, which a NaN never satisfies.
  pub eq : F → F → Bool
  pub min : F → F → F
  pub max : F → F → F
  pub abs : F → F
  pub neg : F → F
  pub sqrt : F → F
  pub log : F → F
  pub floor : F → F
  pub ceil : F → F
  pub round : F → F
  pub is_nan : F → Bool
  pub is_inf : F → Bool
  pub nan : F

infix 4 ◌≼◌
abbrev pub ◌≼◌ : {F : Type 0} ⦃f : Float F⦄ → F → F → Type 0
◌≼◌ ⦃f⦄ x y = f.le x y ≡ true

-- A NaN is the value that is not `<=` itself. Away from it the order is total, `<` is its strict
-- part, and `math.Min` and `math.Max` are its bounds.
pub record IsOrdered (F : Type 0) ⦃f : Float F⦄ : Type 0 where
  pub refl_of_le : (x y : F) → x ≼ y → (x ≼ x) × (y ≼ y)
  pub le_trans : (x y z : F) → x ≼ y → y ≼ z → x ≼ z
  pub le_total : (x y : F) → x ≼ x → y ≼ y → (x ≼ y) ⊎ (y ≼ x)
  pub lt-eq-not-le : (x y : F) → x ≼ x → y ≼ y → f.lt x y ≡ not (f.le y x)
  pub min-le_left : (x y : F) → x ≼ x → y ≼ y → f.min x y ≼ x
  pub min-le_right : (x y : F) → x ≼ x → y ≼ y → f.min x y ≼ y
  pub le-min : (x y z : F) → z ≼ x → z ≼ y → z ≼ f.min x y
  pub le-max_left : (x y : F) → x ≼ x → y ≼ y → x ≼ f.max x y
  pub le-max_right : (x y : F) → x ≼ x → y ≼ y → y ≼ f.max x y
  pub max-le : (x y z : F) → x ≼ z → y ≼ z → f.max x y ≼ z

-- A concrete type with these operations: whole hundredths that are not negative, `none` for NaN.
abbrev pub Hundredths : Type 0
Hundredths = Option ℕ

abbrev lift₂ {ℓ} : {A : Type ℓ} → (ℕ → ℕ → A) → A → Hundredths → Hundredths → A
lift₂ g d (some a) (some b) = g a b
lift₂ g d _ _ = d

abbrev lift₁ : (ℕ → ℕ) → Hundredths → Hundredths
lift₁ g (some a) = some (g a)
lift₁ g none = none

abbrev whole : Hundredths → ℕ
whole (some a) = a / 100
whole none = 0

abbrev missing : Hundredths → Bool
missing none = true
missing (some a) = false

abbrev less : ℕ → ℕ → Hundredths
less a b = if ltb a b then none else some (a - b)

abbrev quotient : ℕ → ℕ → Hundredths
quotient a b = if b == 0 then none else some (a * 100 / b)

abbrev lesser : ℕ → ℕ → Hundredths
lesser a b = some (if leb a b then a else b)

abbrev greater : ℕ → ℕ → Hundredths
greater a b = some (if leb a b then b else a)

abbrev negated : Hundredths → Hundredths
negated (some zero) = some 0
negated _ = none

-- The root of a number in steps of one, and the logarithm in steps of a halving.
abbrev root_from : ℕ → ℕ → ℕ → ℕ
root_from zero n k = k
root_from (suc fuel) n k =
    let next = root_from fuel n (k + 1) in if leb ((k + 1) * (k + 1)) n then next else k

abbrev halvings : ℕ → ℕ → ℕ
halvings zero n = 0
halvings (suc fuel) n = let next = halvings fuel (n / 2) in if ltb n 200 then 0 else next + 69

abbrev logarithm : Hundredths → Hundredths
logarithm (some a) = if a == 0 then none else some (halvings a a)
logarithm none = none

instance abbrev pub hundredths : Float Hundredths
hundredths = record {
  decimal = λ m k. some (m * 100 / 10 ^ k);
  of_int = λ n. some (n * 100);
  to_int = whole;
  add = lift₂ (λ a b. some (a + b)) none;
  sub = lift₂ less none;
  mul = lift₂ (λ a b. some (a * b / 100)) none;
  div = lift₂ quotient none;
  lt = lift₂ ltb false;
  le = lift₂ leb false;
  eq = lift₂ (λ a b. a == b) false;
  min = lift₂ lesser none;
  max = lift₂ greater none;
  abs = λ a. a;
  neg = negated;
  sqrt = lift₁ (λ a. root_from (a * 100) (a * 100) 0);
  log = logarithm;
  floor = lift₁ (λ a. a / 100 * 100);
  ceil = lift₁ (λ a. (a + 99) / 100 * 100);
  round = lift₁ (λ a. (a + 50) / 100 * 100);
  is_nan = missing;
  is_inf = λ a. false;
  nan = none;
}

pub Hundredths-IsOrdered : IsOrdered Hundredths
Hundredths-IsOrdered = ground arith
