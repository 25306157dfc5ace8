-- ===== src/Indicator/Warmup.antt =====
-- internal/indicator: the bars that an indicator takes until it is ready. `WarmsUp` is what an
-- indicator owes its callers: a predicate on its state after `k` bars that says when it is ready.
pub mod Averages
pub mod Oscillators
pub mod Strengths
pub mod Bands
pub mod Structure
use alvo_backtester.Base.{ℕ, ◌+◌, ◌≡◌, Bool, leb}
use alvo_backtester.Indicator.{Candle, Indicator}

pub record WarmsUp {S F : Type 0} (methods : Indicator S F) (start : S) (bars : ℕ) : Type 1 where
  pub After : ℕ → S → Type 0
  pub initial : After 0 start
  pub update : (k : ℕ) (s : S) (c : Candle F) → After k s → After (k + 1) (methods.update s c)
  pub reset : (k : ℕ) (s : S) → After k s → After 0 (methods.reset s)
  pub ready : (k : ℕ) (s : S) → After k s → methods.ready s ≡ leb (bars + 1) k
  pub warmup : (k : ℕ) (s : S) → After k s → methods.warmup s ≡ bars
