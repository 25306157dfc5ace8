-- ===== src/Indicator/Library/Laws.antt =====
-- internal/indicator: what holds of every indicator that the registry makes.
use Prim.Native.Nat.{min}
use text.Mathlib.Text.{◌==◌}
use alvo_backtester.Base.{
  ℕ, ◌+◌, ◌≡◌, ◌∙◌, sym, ap, arith, String, Option, none, some, List, [], ◌∷◌, ◌⊎◌, inl, inr, Float,
  All, length, ltb, Bool-cases,
}
use alvo_backtester.Indicator.{Candle, Source}
use alvo_backtester.Indicator.Emit.{feed, compute, feed-After, compute_start}
use alvo_backtester.Indicator.Warmup.{WarmsUp}
use alvo_backtester.Indicator.Registry.{Spec, Params, Made, resolve, Fault}
use alvo_backtester.Indicator.Library.{
  Instance, Denial, registry, find_spec, instantiate, instance_of, made_by,
}
use alvo_backtester.Indicator.Library.Registered.{Warms, AlwaysWarms, registry_warms}

-- What holds of a spec that a search finds.
abbrev Found : {F : Type 0} → (Spec F → Type 1) → Option (Spec F) → Type 1
Found P none = Unit
Found P (some s) = P s

-- What holds of an instance that is made.
abbrev Makes : {F : Type 0} → (Instance F → Type 1) → Denial ⊎ Instance F → Type 1
Makes P (inl denial) = Unit
Makes P (inr i) = P i

find_spec-Found :
    {F : Type 0} (P : Spec F → Type 1) (specs : List (Spec F)) (name : String)
    → All P specs
    → Found P (find_spec specs name)
unfolding find_spec
find_spec-Found P [] name _ = tt
find_spec-Found P (s ∷ specs) name (p, ps) = elim (Bool-cases (s.name == name)) [
  | inl same ↦ rw same p
  | inr other ↦ rw other (find_spec-Found P specs name ps)
]

module _ {F : Type 0} ⦃fl : Float F⦄ where
  instance_of-Warms :
      (s : Spec F) (r : Fault ⊎ Params F)
      → AlwaysWarms s
      → Makes (λ i. Warms i.indicator) (instance_of s r)
  unfolding instance_of
  instance_of-Warms s (inl fault) w = tt
  instance_of-Warms s (inr p) w = w p

  made_by-Warms :
      (found : Option (Spec F)) (name : String) (values : List (String × F))
      (source : Option Source)
      → Found AlwaysWarms found
      → Makes (λ i. Warms i.indicator) (made_by found name values source)
  unfolding made_by
  made_by-Warms none name values source w = tt
  made_by-Warms (some s) name values source w = instance_of-Warms s (resolve s values source) w

  instantiate-Warms :
      (name : String) (values : List (String × F)) (source : Option Source)
      → Makes (λ i. Warms i.indicator) (instantiate name values source)
  unfolding instantiate
  instantiate-Warms name values source =
      let found = find_spec-Found AlwaysWarms registry name (registry_warms F) in
      made_by-Warms (find_spec registry name) name values source found

  warmth :
      (name : String) (values : List (String × F)) (source : Option Source) (i : Instance F)
      → instantiate name values source ≡ inr i
      → Warms i.indicator
  warmth name values source i e = rw e at (instantiate-Warms name values source)

  made_ready :
      (m : Made F) (cs : List (Candle F)) (s : m.State) (bars : ℕ)
      (laws : WarmsUp m.methods m.state bars)
      → laws.After 0 s
      → m.methods.ready (feed m.methods cs s) ≡ ltb (m.methods.warmup m.state) (length cs)
  made_ready m cs s bars laws a =
      let there =
        laws.ready (0 + length cs) (feed m.methods cs s) (feed-After m.methods laws 0 cs s a) in
      let bars_are = laws.warmup 0 m.state laws.initial in ground arith

  -- An indicator that `New` makes, whatever its name and its parameters, is ready after some bars
  -- exactly when they are more than its `Warmup`; after a `Reset`, only the bars since then count.
  pub feed-ready :
      (name : String) (values : List (String × F)) (source : Option Source) (i : Instance F)
      (old cs : List (Candle F))
      → instantiate name values source ≡ inr i
      → (i.indicator.methods.ready (feed i.indicator.methods cs i.indicator.state)
          ≡ ltb (i.indicator.methods.warmup i.indicator.state) (length cs))
        × (i.indicator.methods.ready (
              feed i.indicator.methods cs
                (i.indicator.methods.reset (feed i.indicator.methods old i.indicator.state)))
            ≡ ltb (i.indicator.methods.warmup i.indicator.state) (length cs))
  feed-ready name values source i old cs e =
      let (bars, laws) = warmth name values source i e in
      let fed = feed-After i.indicator.methods laws 0 old i.indicator.state laws.initial in
      (
        made_ready i.indicator cs i.indicator.state bars laws laws.initial,
        made_ready i.indicator cs _ bars laws (laws.reset (0 + length old) _ fed),
      )

  -- `Compute` over some bars with an indicator that `New` makes starts its values at the bar that
  -- `Warmup` tells, or at the end when there are not so many bars.
  pub compute-start :
      (name : String) (values : List (String × F)) (source : Option Source) (i : Instance F)
      (cs : List (Candle F))
      → instantiate name values source ≡ inr i
      → (compute i.indicator.methods cs i.indicator.state).start
        ≡ min (i.indicator.methods.warmup i.indicator.state) (length cs)
  compute-start name values source i cs e =
      let (bars, laws) = warmth name values source i e in
      let bars_are = laws.warmup 0 i.indicator.state laws.initial in
      compute_start i.indicator.methods laws cs i.indicator.state 0 laws.initial
      ∙ ap (λ w. min w (length cs)) (sym bars_are)
