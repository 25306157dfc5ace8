-- ===== src/Indicator/Library/Registered.antt =====
-- internal/indicator: the warm-up of every indicator of the registry.
use alvo_backtester.Base.{ℕ, true, false, Float, All}
use alvo_backtester.Indicator.Warmup.{WarmsUp}
use alvo_backtester.Indicator.Registry.{Spec, Params, Made, get_int, get_float}
use alvo_backtester.Indicator.Library.{registry}
use alvo_backtester.Indicator.Warmup.Averages.{
  sma_warms, ema_warms, wma_warms, dema_warms, tema_warms, hma_warms, volume_ma_warms, vwap_warms,
  vwma_warms,
}
use alvo_backtester.Indicator.Warmup.Oscillators.{
  momentum_warms, roc_warms, cci_warms, williams_r_warms, aroon_warms, macd_warms,
}
use alvo_backtester.Indicator.Warmup.Strengths.{
  rsi_warms, mfi_warms, adx_warms, stochastic_warms, stoch_rsi_warms,
}
use alvo_backtester.Indicator.Warmup.Bands.{
  std_dev_warms, bollinger_bands_warms, donchian_warms, atr_warms, keltner_warms,
  historical_volatility_warms, chaikin_oscillator_warms, chaikin_volatility_warms,
}
use alvo_backtester.Indicator.Warmup.Structure.{
  ichimoku_warms, fractals_warms, pivot_points_warms, super_trend_warms, parabolic_sar_warms,
  zig_zag_warms, ad_line_warms, obv_warms,
}
use alvo_backtester.Indicator.Registry.Volume.{
  ad_spec, chaikin_spec, mfi_spec, obv_spec, volma_spec, vwma_spec,
}
use alvo_backtester.Indicator.Registry.Momentum.{
  adx_spec, aroon_spec, cci_spec, macd_spec, mom_spec, roc_spec, rsi_spec, stoch_spec,
  stochrsi_spec, willr_spec,
}
use alvo_backtester.Indicator.Registry.Volatility.{
  atr_spec, bollinger_spec, cvol_spec, hv_spec, stddev_spec,
}
use alvo_backtester.Indicator.Registry.Overlay.{
  dema_spec, donchian_spec, ema_spec, hma_spec, ichimoku_spec, keltner_spec, psar_spec, sma_spec,
  supertrend_spec, tema_spec, vwap_spec, wma_spec,
}
use alvo_backtester.Indicator.Registry.Structure.{
  fractals_spec, pivots_spec, fibpivots_spec, zigzag_spec,
}

-- An indicator that is ready after a number of bars that its state tells.
abbrev pub Warms : {F : Type 0} → Made F → Type 1
Warms m = (bars : ℕ) × WarmsUp m.methods m.state bars

-- Whatever its parameters are.
abbrev pub AlwaysWarms : {F : Type 0} → Spec F → Type 1
AlwaysWarms {F = F} s = (p : Params F) → Warms (s.make p)

module _ (F : Type 0) ⦃fl : Float F⦄ where
  pub registry_warms : All AlwaysWarms (registry {F = F})
  unfolding registry ad_spec adx_spec aroon_spec atr_spec bollinger_spec cci_spec chaikin_spec
      cvol_spec dema_spec donchian_spec ema_spec fibpivots_spec fractals_spec hma_spec hv_spec
      ichimoku_spec keltner_spec macd_spec mfi_spec mom_spec obv_spec pivots_spec psar_spec roc_spec
      rsi_spec sma_spec stddev_spec stoch_spec stochrsi_spec supertrend_spec tema_spec volma_spec
      vwap_spec vwma_spec willr_spec wma_spec zigzag_spec
  registry_warms = (
    λ p. (_, ad_line_warms),
    (
      λ p. (_, adx_warms (get_int p "period")),
      (
        λ p. (_, aroon_warms (get_int p "period")),
        (
          λ p. (_, atr_warms (get_int p "period")),
          (
            λ p. (_, bollinger_bands_warms (get_int p "period") (get_float p "mult") p.source),
            (
              λ p. (_, cci_warms (get_int p "period")),
              (
                λ p. (_, chaikin_oscillator_warms (get_int p "fast") (get_int p "slow")),
                (
                  λ p. (_, chaikin_volatility_warms (get_int p "period") (get_int p "roc")),
                  (
                    λ p. (_, dema_warms (get_int p "period") p.source),
                    (
                      λ p. (_, donchian_warms (get_int p "period")),
                      (
                        λ p. (_, ema_warms (get_int p "period") p.source),
                        (
                          λ p. (_, pivot_points_warms (get_int p "period") true),
                          (
                            λ p. (_, fractals_warms (get_int p "period")),
                            (
                              λ p. (_, hma_warms (get_int p "period") p.source),
                              (
                                λ p. (
                                  _,
                                  historical_volatility_warms (get_int p "period")
                                      (get_int p "annual") p.source,
                                ),
                                (
                                  λ p. (
                                    _,
                                    ichimoku_warms (get_int p "tenkan") (get_int p "kijun")
                                        (get_int p "senkou"),
                                  ),
                                  (
                                    λ p. (
                                      _,
                                      keltner_warms (get_int p "period") (get_float p "mult")
                                          (get_int p "atr"),
                                    ),
                                    (
                                      λ p. (
                                        _,
                                        macd_warms (get_int p "fast") (get_int p "slow")
                                            (get_int p "signal") p.source,
                                      ),
                                      (
                                        λ p. (_, mfi_warms (get_int p "period")),
                                        (
                                          λ p. (_, momentum_warms (get_int p "period") p.source),
                                          (
                                            λ p. (_, obv_warms),
                                            (
                                              λ p. (
                                                _,
                                                pivot_points_warms (get_int p "period") false,
                                              ),
                                              (
                                                λ p. (
                                                  _,
                                                  parabolic_sar_warms (get_float p "step")
                                                      (get_float p "max"),
                                                ),
                                                (
                                                  λ p. (_, roc_warms (get_int p "period") p.source),
                                                  (
                                                    λ p. (
                                                      _,
                                                      rsi_warms (get_int p "period") p.source,
                                                    ),
                                                    (
                                                      λ p. (
                                                        _,
                                                        sma_warms (get_int p "period") p.source,
                                                      ),
                                                      (
                                                        λ p. (
                                                          _,
                                                          std_dev_warms (get_int p "period")
                                                            p.source,
                                                        ),
                                                        (
                                                          λ p. (
                                                            _,
                                                            stochastic_warms (get_int p "k")
                                                            (get_int p "smooth") (get_int p "d"),
                                                          ),
                                                          (
                                                            λ p. (
                                                            _,
                                                            stoch_rsi_warms (get_int p "rsi")
                                                            (get_int p "stoch") (get_int p "k")
                                                            (get_int p "d") p.source,
                                                            ),
                                                            (
                                                            λ p. (
                                                            _,
                                                            super_trend_warms (get_int p "period")
                                                            (get_float p "mult"),
                                                            ),
                                                            (
                                                            λ p. (
                                                            _,
                                                            tema_warms (get_int p "period")
                                                            p.source,
                                                            ),
                                                            (
                                                            λ p. (
                                                            _,
                                                            volume_ma_warms (get_int p "period"),
                                                            ),
                                                            (
                                                            λ p.
                                                            (_, vwap_warms (get_int p "period")),
                                                            (
                                                            λ p. (
                                                            _,
                                                            vwma_warms (get_int p "period")
                                                            p.source,
                                                            ),
                                                            (
                                                            λ p. (
                                                            _,
                                                            williams_r_warms (get_int p "period"),
                                                            ),
                                                            (
                                                            λ p. (
                                                            _,
                                                            wma_warms (get_int p "period") p.source,
                                                            ),
                                                            (
                                                            λ p. (
                                                            _,
                                                            zig_zag_warms (get_float p "deviation"),
                                                            ),
                                                            tt,
                                                            ),
                                                            ),
                                                            ),
                                                            ),
                                                            ),
                                                            ),
                                                            ),
                                                            ),
                                                          ),
                                                        ),
                                                      ),
                                                    ),
                                                  ),
                                                ),
                                              ),
                                            ),
                                          ),
                                        ),
                                      ),
                                    ),
                                  ),
                                ),
                              ),
                            ),
                          ),
                        ),
                      ),
                    ),
                  ),
                ),
              ),
            ),
          ),
        ),
      ),
    ),
  )
