-- ===== src/Tests/Indicators.antt =====
-- The theorems on the indicators, applied.
use alvo_backtester.Base.{
  ℕ, ◌+◌, ◌*◌, ◌≡◌, inr, refl, String, none, List, [], ◌∷◌, ltb, length, Hundredths, hundredths,
}
use Prim.Native.Nat.{min, max}
use alvo_backtester.Indicator.{Candle, source_close}
use alvo_backtester.Indicator.Emit.{feed, compute}
use alvo_backtester.Indicator.Registry.{
  Params, resolve, settle, unknown, get_param, find, or_initial, is_whole, checked, with_source,
  validated,
}
use alvo_backtester.Indicator.Registry.Settled.{IsAdmitted, resolve-IsAdmitted}
use alvo_backtester.Indicator.Registry.Volume.{ad_spec}
use alvo_backtester.Indicator.Registry.Momentum.{adx_spec}
use alvo_backtester.Indicator.Library.{
  Instance, registry, find_spec, instance_of, made_by, instantiate,
}
use alvo_backtester.Indicator.Library.Laws.{feed-ready, compute-start}
use alvo_backtester.Indicator.Ring.{new}
use alvo_backtester.Indicator.Ring.Refines.{HoldsSeries, pushes, slides, new-pushes-HoldsSeries}
use alvo_backtester.Tests.Sample.{cents}

abbrev three_bars : List (String × Hundredths)
three_bars = ("period", cents 300) ∷ []

abbrev three_settled : Params Hundredths
three_settled = record { values = three_bars; source = source_close }

resolve_three : resolve (adx_spec {F = Hundredths}) three_bars none ≡ inr three_settled
unfolding resolve settle unknown get_param find or_initial is_whole checked with_source validated
    adx_spec
resolve_three = refl

resolve-IsAdmitted_example : IsAdmitted (adx_spec {F = Hundredths}) three_bars none three_settled
resolve-IsAdmitted_example = resolve-IsAdmitted adx_spec three_bars none three_settled resolve_three

abbrev adx_of_three : Instance Hundredths
adx_of_three = record {
  spec = adx_spec;
  params = three_settled;
  indicator = (adx_spec {F = Hundredths}).make three_settled;
}

instantiate_three : instantiate "adx" three_bars none ≡ inr adx_of_three
unfolding instantiate made_by instance_of find_spec registry resolve settle unknown get_param find
    or_initial is_whole checked with_source validated ad_spec adx_spec
instantiate_three = refl

-- Seven bars that rise.
abbrev tick : ℕ → Candle Hundredths
tick n = record {
  ts = n;
  opening = cents (1000 + n);
  high = cents (1100 + n * 3);
  low = cents (900 + n);
  close = cents (1000 + n * 2);
  volume = cents 100;
}

abbrev ticks : List (Candle Hundredths)
ticks = tick 0 ∷ tick 1 ∷ tick 2 ∷ tick 3 ∷ tick 4 ∷ tick 5 ∷ tick 6 ∷ []

feed-ready_example :
    (adx_of_three.indicator.methods.ready
        (feed adx_of_three.indicator.methods ticks adx_of_three.indicator.state)
      ≡ ltb (adx_of_three.indicator.methods.warmup adx_of_three.indicator.state) (length ticks))
    × (adx_of_three.indicator.methods.ready (
          feed adx_of_three.indicator.methods ticks (
            adx_of_three.indicator.methods.reset
              (feed adx_of_three.indicator.methods ticks adx_of_three.indicator.state)))
        ≡ ltb (adx_of_three.indicator.methods.warmup adx_of_three.indicator.state) (length ticks))
feed-ready_example = feed-ready "adx" three_bars none adx_of_three ticks ticks instantiate_three

compute-start_example :
    (compute adx_of_three.indicator.methods ticks adx_of_three.indicator.state).start
    ≡ min (adx_of_three.indicator.methods.warmup adx_of_three.indicator.state) (length ticks)
compute-start_example = compute-start "adx" three_bars none adx_of_three ticks instantiate_three

-- Three values through a ring of two.
abbrev three_values : List Hundredths
three_values = cents 100 ∷ cents 200 ∷ cents 300 ∷ []

last_two : slides (max 2 1) [] three_values ≡ cents 200 ∷ cents 300 ∷ []
last_two = refl

new-pushes-HoldsSeries_example :
    HoldsSeries (pushes (new 2) three_values) (slides (max 2 1) [] three_values)
new-pushes-HoldsSeries_example = new-pushes-HoldsSeries 2 three_values
