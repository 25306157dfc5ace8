-- ===== src/Strategy/Tape/Cells.antt =====
-- A push of the tape writes one column of its values and leaves the others alone.
use alvo_backtester.Base.{
  ℕ, zero, suc, ◌≡◌, ◌≢◌, refl, ◌∙◌, List, [], ◌∷◌, length, get_or, length-set, get_or-set_ne,
  Option, none, some, Float, Bool-cases, inl, inr,
}
use alvo_backtester.Indicator.{Candle, Indicator}
use alvo_backtester.Strategy.Plan.{PlanSlot, PlanUnit}
use alvo_backtester.Strategy.Tape.{Tape, set_cell, blank, store, feed_of, push_fed, push_units}

-- Two tables of one shape that differ at the place `at` of their rows at most.
pub record SameBut {F : Type 0} (at : ℕ) (vs ws : List (List F)) : Type 0 where
  pub rows : length ws ≡ length vs
  pub widths : (s : ℕ) → length (get_or ws s []) ≡ length (get_or vs s [])
  pub cells : (s j : ℕ) (d : F) → at ≢ j → get_or (get_or ws s []) j d ≡ get_or (get_or vs s []) j d

module _ {F : Type 0} {at : ℕ} where
  pub SameBut-refl : (vs : List (List F)) → SameBut at vs vs
  SameBut-refl vs = record { rows = refl; widths = λ s. refl; cells = λ s j d h. refl }

  pub SameBut-trans :
      {us vs ws : List (List F)} → SameBut at us vs → SameBut at vs ws → SameBut at us ws
  SameBut-trans a b = record {
    rows = b.rows ∙ a.rows;
    widths = λ s. b.widths s ∙ a.widths s;
    cells = λ s j d h. b.cells s j d h ∙ a.cells s j d h;
  }

module _ {F : Type 0} (at : ℕ) (v : F) where
  width-set :
      (vs : List (List F)) (s k : ℕ)
      → length (get_or (set_cell vs s at v) k []) ≡ length (get_or vs k [])
  unfolding set_cell
  width-set [] s k = refl
  width-set (r ∷ vs) zero zero = length-set r at v
  width-set (r ∷ vs) zero (suc k) = refl
  width-set (r ∷ vs) (suc s) zero = refl
  width-set (r ∷ vs) (suc s) (suc k) = width-set vs s k

  cell-set :
      (vs : List (List F)) (s k j : ℕ) (d : F)
      → at ≢ j
      → get_or (get_or (set_cell vs s at v) k []) j d ≡ get_or (get_or vs k []) j d
  unfolding set_cell
  cell-set [] s k j d h = refl
  cell-set (r ∷ vs) zero zero j d h = get_or-set_ne r at j v d h
  cell-set (r ∷ vs) zero (suc k) j d h = refl
  cell-set (r ∷ vs) (suc s) zero j d h = refl
  cell-set (r ∷ vs) (suc s) (suc k) j d h = cell-set vs s k j d h

  set_cell-SameBut : (vs : List (List F)) (s : ℕ) → SameBut at vs (set_cell vs s at v)
  unfolding set_cell
  set_cell-SameBut vs s = record {
    rows = length-set vs s _;
    widths = width-set vs s;
    cells = cell-set vs s;
  }

module _ {F : Type 0} ⦃fl : Float F⦄ (at : ℕ) where
  blank-SameBut : (slots : List ℕ) (vs : List (List F)) → SameBut at vs (blank slots at vs)
  unfolding blank
  blank-SameBut [] vs = SameBut-refl vs
  blank-SameBut (s ∷ slots) vs = SameBut-trans (set_cell-SameBut at _ vs s) (blank-SameBut slots _)

  store-SameBut :
      (plan : List PlanSlot) (out : List F) (slots : List ℕ) (vs : List (List F))
      → SameBut at vs (store plan out slots at vs)
  unfolding store
  store-SameBut plan out [] vs = SameBut-refl vs
  store-SameBut plan out (s ∷ slots) vs =
      SameBut-trans (set_cell-SameBut at _ vs s) (store-SameBut plan out slots _)

-- The ring's place, count and bars, which the units do not touch.
pub record Untouched {F : Type 0} (at : ℕ) (t t' : Tape F) : Type 0 where
  pub size : t'.size ≡ t.size
  pub place : t'.at ≡ t.at
  pub filled : t'.filled ≡ t.filled
  pub bars : t'.bars ≡ t.bars
  pub values : SameBut at t.values t'.values

rewritten :
    {F : Type 0} (at : ℕ) (t : Tape F) (vs : List (List F))
    → SameBut at t.values vs
    → Untouched at t (record t { values = vs })
rewritten at t vs h = record { size = refl; place = refl; filled = refl; bars = refl; values = h }

module _ {F S : Type 0} ⦃fl : Float F⦄ ⦃ind : Indicator S F⦄ (plan : List PlanSlot) (at : ℕ) where
  open ind use {update, values, ready}

  push_fed-Untouched :
      (u : PlanUnit S) (c : Option (Candle F)) (t : Tape F)
      → Untouched at t (push_fed plan u at c t).1
  unfolding push_fed
  push_fed-Untouched u none t = rewritten at t _ (blank-SameBut at u.slots t.values)
  push_fed-Untouched u (some c) t = elim (Bool-cases (ready (update u.indicator c))) [
    | inl e ↦ rw e (rewritten at t _ (store-SameBut at plan _ u.slots t.values))
    | inr e ↦ rw e (rewritten at t _ (blank-SameBut at u.slots t.values))
  ]

  pub push_units-Untouched :
      (c : Candle F) (us : List (PlanUnit S)) (t : Tape F)
      → Untouched at t (push_units plan c at us t).1
  unfolding push_units
  push_units-Untouched c [] t = rewritten at t t.values (SameBut-refl t.values)
  push_units-Untouched c (u ∷ us) t =
      let first = push_fed-Untouched u (feed_of u c t) t in
      let rest = push_units-Untouched c us (push_fed plan u at (feed_of u c t) t).1 in
      record {
        size = rest.size ∙ first.size;
        place = rest.place ∙ first.place;
        filled = rest.filled ∙ first.filled;
        bars = rest.bars ∙ first.bars;
        values = SameBut-trans first.values rest.values;
      }
