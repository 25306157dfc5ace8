-- ===== src/Indicator/Registry/Settled.antt =====
-- internal/indicator/registry.go: the parameters that `resolve` settles.
use alvo_backtester.Base.{
  ◌≡◌, refl, String, Bool, true, false, ◌⊎◌, inl, inr, Option, none, some, List, [], ◌∷◌, Float,
  Bool-cases, if◌then◌else◌,
}
use alvo_backtester.Indicator.{Source, source_close}
use alvo_backtester.Indicator.Registry.{
  Param, Params, Spec, Fault, takes_no_source, find, or_initial, unknown, is_whole, settle,
  with_source, validated, checked, resolve,
}

-- What a loop that may fail has when it does not.
abbrev Succeeds : {E A : Type 0} → (A → Type 0) → E ⊎ A → Type 0
Succeeds P (inl e) = Unit
Succeeds P (inr a) = P a

module _ {F : Type 0} ⦃fl : Float F⦄ where
  open fl use {lt}

  -- One value for each parameter, under its name: the given value or else the initial one, neither
  -- below the least value nor above the greatest, and whole where the parameter is.
  abbrev pub IsSettled : List (Param F) → List (String × F) → List (String × F) → Type 0
  IsSettled [] given [] = Unit
  IsSettled (p ∷ params) given ((name, value) ∷ values) =
      (name ≡ p.name)
      × (value ≡ or_initial (find given p.name) p.initial)
      × (lt value p.least ≡ false)
      × (lt p.most value ≡ false)
      × (is_whole p.kind value ≡ true)
      × IsSettled params given values
  IsSettled params given values = ⊥

  one_more :
      (p : Param F) (params : List (Param F)) (given : List (String × F)) (value : F)
      (rest : Fault ⊎ List (String × F))
      → value ≡ or_initial (find given p.name) p.initial
      → lt value p.least ≡ false
      → lt p.most value ≡ false
      → is_whole p.kind value ≡ true
      → Succeeds (IsSettled params given) rest
      → Succeeds (IsSettled (p ∷ params) given) (elim rest as (λ r. Fault ⊎ List (String × F)) [
        | inl fault ↦ inl fault
        | inr others ↦ inr ((p.name, value) ∷ others)
      ])
  one_more p params given value (inl fault) is low high whole r = tt
  one_more p params given value (inr others) is low high whole r = (refl, is, low, high, whole, r)

  settle-IsSettled :
      (params : List (Param F)) (given : List (String × F))
      → Succeeds (IsSettled params given) (settle params given)
  unfolding settle
  settle-IsSettled [] given = tt
  settle-IsSettled (p ∷ params) given =
      let value : F = or_initial (find given p.name) p.initial in
      let rest = settle-IsSettled params given in
      elim (Bool-cases (lt value p.least)) [
        | inl low ↦ rw low tt
        | inr low ↦ elim (Bool-cases (lt p.most value)) [
          | inl high ↦ rw (low, high) tt
          | inr high ↦ elim (Bool-cases (is_whole p.kind value)) [
            | inl whole ↦
                rw (low, high, whole)
                  (one_more p params given value (settle params given) refl low high whole rest)
            | inr part ↦ rw (low, high, part) tt
          ]
        ]
      ]

  -- The source that is used: the close, unless the request names another.
  abbrev pub IsSourced : Spec F → Option Source → Source → Type 0
  IsSourced s none used = used ≡ source_close
  IsSourced s (some source) used = (used ≡ source) × (s.sourced ≡ true)

  -- What a spec allows, and what the request named.
  abbrev pub IsAdmitted : Spec F → List (String × F) → Option Source → Params F → Type 0
  IsAdmitted s given source p =
      IsSettled s.params given p.values
      × (unknown s.params given ≡ none)
      × (s.valid p ≡ true)
      × IsSourced s source p.source

  validated_ok :
      (s : Spec F) (given values : List (String × F)) (source : Option Source) (p : Params F)
      → p.values ≡ values
      → IsSettled s.params given values
      → unknown s.params given ≡ none
      → IsSourced s source p.source
      → Succeeds (IsAdmitted s given source) (validated s (inr p))
  unfolding validated
  validated_ok s given values source p same settled known sourced = elim (Bool-cases (s.valid p)) [
    | inl valid ↦ rw valid (rw same settled, known, valid, sourced)
    | inr refused ↦ rw refused tt
  ]

  taken_ok :
      (s : Spec F) (given values : List (String × F)) (source : Source) (takes : Bool)
      → s.sourced ≡ takes
      → IsSettled s.params given values
      → unknown s.params given ≡ none
      → Succeeds (IsAdmitted s given (some source)) (
          validated s (
            if takes
            then inr (record { values = values; source = source })
            else inl takes_no_source))
  unfolding validated
  taken_ok s given values source true takes settled known =
      validated_ok s given values (some source) _ refl settled known (refl, takes)
  taken_ok s given values source false takes settled known = tt

  sourced_ok :
      (s : Spec F) (given values : List (String × F)) (source : Option Source)
      → IsSettled s.params given values
      → unknown s.params given ≡ none
      → Succeeds (IsAdmitted s given source) (validated s (with_source s values source))
  unfolding with_source validated
  sourced_ok s given values none settled known =
      validated_ok s given values none _ refl settled known refl
  sourced_ok s given values (some source) settled known =
      taken_ok s given values source s.sourced refl settled known

  checked_ok :
      (s : Spec F) (given values : List (String × F)) (source : Option Source)
      (stray : Option String)
      → IsSettled s.params given values
      → unknown s.params given ≡ stray
      → Succeeds (IsAdmitted s given source) (checked s values source stray)
  unfolding checked
  checked_ok s given values source none settled known =
      sourced_ok s given values source settled known
  checked_ok s given values source (some name) settled known = tt

  resolved_ok :
      (s : Spec F) (given : List (String × F)) (source : Option Source)
      (r : Fault ⊎ List (String × F))
      → Succeeds (IsSettled s.params given) r
      → Succeeds (IsAdmitted s given source) (elim r as (λ r. Fault ⊎ Params F) [
        | inl fault ↦ inl fault
        | inr values ↦ checked s values source (unknown s.params given)
      ])
  resolved_ok s given source (inl fault) r = tt
  resolved_ok s given source (inr values) r = checked_ok s given values source _ r refl

  -- The parameters that `resolve` gives are one value for each parameter of the spec, under its name: the
  -- requested value or else the initial one, neither below the least value nor above the greatest, and
  -- whole where the parameter is. The request names no other parameter, the spec's own check passes, and
  -- the source is the requested one, which the spec takes, or the close.
  pub resolve-IsAdmitted :
      (s : Spec F) (given : List (String × F)) (source : Option Source) (p : Params F)
      → resolve s given source ≡ inr p
      → IsAdmitted s given source p
  unfolding resolve
  resolve-IsAdmitted s given source p e =
      let all : Succeeds (IsAdmitted s given source) (resolve s given source) =
        resolved_ok s given source (settle s.params given) (settle-IsSettled s.params given) in
      rw e at all
