-- ===== src/Indicator.antt =====
-- internal/indicator/indicator.go and source.go: what a strategy reads of a bar, and the interface
-- that every indicator implements.
pub mod Ring
pub mod Window
pub mod Extreme
pub mod Ema
pub mod Wilder
pub mod Wma
pub mod Atr
pub mod Sma
pub mod StdDev
pub mod BollingerBands
pub mod Dema
pub mod Tema
pub mod Hma
pub mod Macd
pub mod Momentum
pub mod Roc
pub mod Rsi
pub mod Cci
pub mod Obv
pub mod Stochastic
pub mod Mfi
pub mod VolumeMa
pub mod Vwap
pub mod Vwma
pub mod WilliamsR
pub mod Donchian
pub mod Aroon
pub mod StochRsi
pub mod Adx
pub mod Keltner
pub mod AdLine
pub mod ChaikinOscillator
pub mod ChaikinVolatility
pub mod HistoricalVolatility
pub mod Ichimoku
pub mod Fractals
pub mod PivotPoints
pub mod SuperTrend
pub mod ParabolicSar
pub mod ZigZag
pub mod Registry
pub mod Warm
pub mod Warmup
pub mod Emit
pub mod Library
use alvo_backtester.Base.{ℕ, Bool, List, Float}

-- `volume` is a float here, as in the source. `opening` is `Open`.
pub record Candle (F : Type 0) : Type 0 where
  pub ts : ℕ
  pub opening : F
  pub high : F
  pub low : F
  pub close : F
  pub volume : F

-- `pathPrimeBars` of request.go
abbrev pub path_prime_bars : ℕ
path_prime_bars = 250

-- `interface Indicator`. A value of `S` is an indicator with its state: `update` and `reset` return
-- the state that the Go methods leave behind their pointer.
pub record Indicator (S F : Type 0) : Type 0 where
  pub update : S → Candle F → S
  pub values : S → List F
  pub ready : S → Bool
  pub warmup : S → ℕ
  pub reset : S → S

-- `type Source`, with the constants of the source.
pub data Source : Type 0 where
  source_close source_open source_high source_low source_hl2 source_hlc3 source_ohlc4 : Source

module _ {F : Type 0} ⦃fl : Float F⦄ where
  open fl use {decimal, add, div}

  -- `Source.Value`
  unfoldable pub value : Source → Candle F → F
  value source_open c = c.opening
  value source_high c = c.high
  value source_low c = c.low
  value source_hl2 c = div (add c.high c.low) (decimal 2 0)
  value source_hlc3 c = div (add (add c.high c.low) c.close) (decimal 3 0)
  value source_ohlc4 c = div (add (add (add c.opening c.high) c.low) c.close) (decimal 4 0)
  value source_close c = c.close

  -- `Candle{}`
  unfoldable pub blank : Candle F
  blank = record {
    ts = 0;
    opening = decimal 0 0;
    high = decimal 0 0;
    low = decimal 0 0;
    close = decimal 0 0;
    volume = decimal 0 0;
  }
