-- ===== src/Indicator/Library.antt =====
-- internal/indicator: the indicators that `init` registers, and the making of one by its name
-- (`Lookup` and `Catalog` of registry.go, `New` of request.go). The registry is the list of the specs by
-- name. A name is taken as `Lookup` leaves it, without spaces and in small letters; the key and the
-- offsets of an instance, which only name and draw it, are left out.
pub mod Registered
pub mod Laws
use text.Mathlib.Text.{◌==◌}
use alvo_backtester.Base.{
  String, Option, none, some, List, [], ◌∷◌, ◌⊎◌, inl, inr, Float, if◌then◌else◌,
}
use alvo_backtester.Indicator.{Source}
use alvo_backtester.Indicator.Registry.{Spec, Params, Fault, Made, resolve}
use alvo_backtester.Indicator.Registry.Volume.{
  ad_spec, chaikin_spec, mfi_spec, obv_spec, volma_spec, vwma_spec,
}
use alvo_backtester.Indicator.Registry.Momentum.{
  adx_spec, aroon_spec, cci_spec, macd_spec, mom_spec, roc_spec, rsi_spec, stoch_spec,
  stochrsi_spec, willr_spec,
}
use alvo_backtester.Indicator.Registry.Volatility.{
  atr_spec, bollinger_spec, cvol_spec, hv_spec, stddev_spec,
}
use alvo_backtester.Indicator.Registry.Overlay.{
  dema_spec, donchian_spec, ema_spec, hma_spec, ichimoku_spec, keltner_spec, psar_spec, sma_spec,
  supertrend_spec, tema_spec, vwap_spec, wma_spec,
}
use alvo_backtester.Indicator.Registry.Structure.{
  fractals_spec, pivots_spec, fibpivots_spec, zigzag_spec,
}

-- `type Instance`
pub record Instance (F : Type 0) : Type 1 where
  pub spec : Spec F
  pub params : Params F
  pub indicator : Made F

-- The errors of `New`.
pub data Denial : Type 0 where
  unknown_indicator : String → Denial
  unusable : Fault → Denial

module _ {F : Type 0} where
  unfoldable pub find_spec : List (Spec F) → String → Option (Spec F)
  find_spec [] name = none
  find_spec (s ∷ specs) name =
      let rest = find_spec specs name in if s.name == name then some s else rest

module _ {F : Type 0} ⦃fl : Float F⦄ where
  -- What the `init` functions register, in the order of `Catalog`.
  unfoldable pub registry : List (Spec F)
  registry =
      ad_spec ∷ adx_spec ∷ aroon_spec ∷ atr_spec ∷ bollinger_spec ∷ cci_spec ∷ chaikin_spec
      ∷ cvol_spec ∷ dema_spec ∷ donchian_spec ∷ ema_spec ∷ fibpivots_spec ∷ fractals_spec ∷ hma_spec
      ∷ hv_spec ∷ ichimoku_spec ∷ keltner_spec ∷ macd_spec ∷ mfi_spec ∷ mom_spec ∷ obv_spec
      ∷ pivots_spec ∷ psar_spec ∷ roc_spec ∷ rsi_spec ∷ sma_spec ∷ stddev_spec ∷ stoch_spec
      ∷ stochrsi_spec ∷ supertrend_spec ∷ tema_spec ∷ volma_spec ∷ vwap_spec ∷ vwma_spec
      ∷ willr_spec ∷ wma_spec ∷ zigzag_spec ∷ []

  unfoldable pub instance_of : Spec F → Fault ⊎ Params F → Denial ⊎ Instance F
  instance_of s (inl fault) = inl (unusable fault)
  instance_of s (inr p) = inr (record { spec = s; params = p; indicator = s.make p })

  unfoldable pub made_by :
      Option (Spec F) → String → List (String × F) → Option Source → Denial ⊎ Instance F
  made_by none name values source = inl (unknown_indicator name)
  made_by (some s) name values source = instance_of s (resolve s values source)

  -- `New` of request.go
  unfoldable pub instantiate : String → List (String × F) → Option Source → Denial ⊎ Instance F
  instantiate name values source = made_by (find_spec registry name) name values source
