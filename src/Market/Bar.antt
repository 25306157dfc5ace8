-- ===== src/Market/Bar.antt =====
-- internal/market/candle.go: the stored bar, and what the engine asks of the borrow table of
-- borrow.go.
use alvo_backtester.Base.{ℕ, Bool, String, Option}

-- `ts` is the instant in nanoseconds; `opening` is `Open`; `volume` is an `int64`.
pub record Candle (F : Type 0) : Type 0 where
  pub ts : ℕ
  pub opening : F
  pub high : F
  pub low : F
  pub close : F
  pub adj_close : Option F
  pub volume : ℕ

-- The two methods of `Borrow` that a run calls.
pub record Borrow (F : Type 0) : Type 0 where
  pub per_period : String → ℕ → F → F
  pub available : String → ℕ → Bool
