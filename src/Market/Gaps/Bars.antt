-- ===== src/Market/Gaps/Bars.antt =====
-- internal/market/gaps.go: what the loop over the bars counts.
use alvo_backtester.Base.{
  ℕ, ◌+◌, ◌==◌, ◌≡◌, refl, ◌∙◌, arith, Bool, true, false, ◌&&◌, List, [], ◌∷◌, length,
  length-append, leb, if◌then◌else◌, Bool-cases, inl, inr,
}
use alvo_backtester.Zone.{Zone}
use alvo_backtester.Market.Calendar.{Calendar, session_on, day_key}
use alvo_backtester.Market.Gaps.{
  GapReport, Census, found_on, count_day, count_bar, count_bars, is_expected, insert, sorted,
}

found_on-count_day :
    (counts : List (ℕ × ℕ)) (at day : ℕ)
    → found_on (count_day counts at) day ≡ (if at == day then 1 else 0) + found_on counts day
unfolding found_on count_day
found_on-count_day [] at day = omega arith
found_on-count_day ((key, n) ∷ counts) at day =
    let rest = found_on-count_day counts at day in
    elim (Bool-cases (key == at)) [
      | inl same ↦ simp (same) (ground arith)
      | inr other ↦ simp (other) (ground (arith, rest))
    ]

module _ (z : Zone) (c : Calendar) where
  -- How many of the bars are of a day, inside its session.
  abbrev pub held : List ℕ → ℕ → ℕ
  held [] day = 0
  held (ts ∷ rest) day =
      (if is_expected (session_on z c ts) ts && day_key z ts == day then 1 else 0) + held rest day

  -- What a census counts, against the bars that went into it.
  abbrev pub Counts : List ℕ → Census → Census → Type 0
  Counts present (before, r) (after, s) =
      ((day : ℕ) → found_on after day ≡ held present day + found_on before day)
      × (s.bars + length s.unexpected ≡ length present + (r.bars + length r.unexpected))
      × (s.missing ≡ r.missing)

  count_bar-Counts :
      (ts : ℕ) (b : Bool) (counts : List (ℕ × ℕ)) (r : GapReport)
      → is_expected (session_on z c ts) ts ≡ b
      → Counts (ts ∷ []) (counts, r) (count_bar (day_key z ts) ts b (counts, r))
  unfolding count_bar
  count_bar-Counts ts true counts r e = (
    λ day.
        let found = found_on-count_day counts (day_key z ts) day in
        simp (e) (ground (arith, found)),
    omega arith,
    refl,
  )
  count_bar-Counts ts false counts r e = (
    λ day. simp (e) (omega arith),
    let more = length-append r.unexpected (ts ∷ []) in omega (arith, more),
    refl,
  )

  both_counted :
      (ts : ℕ) (rest : List ℕ) (before between after : Census)
      → Counts (ts ∷ []) before between
      → Counts rest between after
      → Counts (ts ∷ rest) before after
  both_counted ts rest before between after (found, bars, missing) (found', bars', missing') = (
    λ day. let f = found day in let g = found' day in omega (arith, f, g),
    omega (arith, bars, bars'),
    missing' ∙ missing,
  )

  pub count_bars-Counts :
      (present : List ℕ) (census : Census) → Counts present census (count_bars z c present census)
  unfolding count_bars
  count_bars-Counts [] (counts, r) = (λ day. omega arith, omega arith, refl)
  count_bars-Counts (ts ∷ rest) (counts, r) =
      let next = count_bar (day_key z ts) ts (is_expected (session_on z c ts) ts) (counts, r) in
      both_counted ts rest (counts, r) next (count_bars z c rest next)
        (count_bar-Counts ts _ counts r refl) (count_bars-Counts rest next)

length-insert : (ts : ℕ) (us : List ℕ) → length (insert ts us) ≡ 1 + length us
unfolding insert
length-insert ts [] = refl
length-insert ts (u ∷ us) =
    let rest = length-insert ts us in
    elim (Bool-cases (leb ts u)) [
      | inl le ↦ simp (le) (omega arith)
      | inr gt ↦ simp (gt) (omega (arith, rest))
    ]

pub length-sorted : (us : List ℕ) → length (sorted us) ≡ length us
unfolding sorted
length-sorted [] = refl
length-sorted (u ∷ us) =
    let one = length-insert u (sorted us) in let rest = length-sorted us in omega (arith, one, rest)
