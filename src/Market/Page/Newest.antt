-- ===== src/Market/Page/Newest.antt =====
-- internal/market/page.go: a page is the newest of the candles that were read.
use mathlib.Core.List.{append_assoc}
use alvo_backtester.Base.{
  ℕ, zero, suc, ◌-◌, ◌<◌, ◌≤◌, ◌≡◌, refl, ap, sym, ◌∙◌, Bool, true, false, List, [], ◌∷◌, ◌++◌,
  drop, length, ltb, arith, Bool-cases, ◌⊎◌, inl, inr,
}
use alvo_backtester.Market.Bar.{Candle}
use alvo_backtester.Market.Page.{drop_oldest, keep_newest, trim_page}

-- The second list is the first less some candles at its front.
abbrev pub Suffix : {F : Type 0} → List (Candle F) → List (Candle F) → Type 0
Suffix candles kept = (older : List _) × (candles ≡ older ++ kept)

module _ {F : Type 0} where
  drop-Suffix : (n : ℕ) (candles : List (Candle F)) → Suffix candles (drop n candles)
  drop-Suffix zero candles = ([], refl)
  drop-Suffix (suc n) [] = ([], refl)
  drop-Suffix (suc n) (c ∷ candles) =
      let (older, same) = drop-Suffix n candles in (c ∷ older, ap (λ rest. c ∷ rest) same)

  length-drop : (n : ℕ) (candles : List (Candle F)) → length (drop n candles) ≡ length candles - n
  length-drop zero candles = omega arith
  length-drop (suc n) [] = omega arith
  length-drop (suc n) (c ∷ candles) = omega (arith, length-drop n candles)

  newest :
      (limit : ℕ) (candles : List (Candle F)) (more : Bool)
      → let (kept, more') = keep_newest limit (candles, more) in
        (length kept ≤ limit)
        × Suffix candles kept
        × (more' ≡ true → (more ≡ true) ⊎ (length kept < length candles))
        × (more' ≡ false → (kept ≡ candles) × (more ≡ false))
        × (length kept ≤ length candles)
  unfolding keep_newest
  newest limit candles more = elim (Bool-cases (ltb limit (length candles))) [
    | inl long ↦
        let size = length-drop (length candles - limit) candles in
        rw (long, keep_newest)
          (
            ground arith,
            drop-Suffix (length candles - limit) candles,
            λ e. inr (ground arith),
            λ e. cc,
            ground arith,
          )
    | inr short ↦
        rw (short, keep_newest) (ground arith, ([], refl), λ e. inl e, λ e. (refl, e), ground arith)
  ]

  -- Taking off the oldest candle of a truncated read, and keeping the newest.
  oldest :
      (truncated : Bool) (candles : List (Candle F))
      → let (kept, more) = drop_oldest truncated candles in
        Suffix candles kept
        × (more ≡ true → length kept < length candles)
        × (more ≡ false → kept ≡ candles)
        × (length kept ≤ length candles)
  unfolding drop_oldest
  oldest true [] = (([], refl), λ e. cc, λ e. refl, omega arith)
  oldest true (c ∷ candles) = ((c ∷ [], refl), λ e. omega arith, λ e. cc, omega arith)
  oldest false [] = (([], refl), λ e. cc, λ e. refl, omega arith)
  oldest false (c ∷ candles) = (([], refl), λ e. cc, λ e. refl, omega arith)

  Suffix_trans : (xs ys zs : List (Candle F)) → Suffix xs ys → Suffix ys zs → Suffix xs zs
  Suffix_trans xs ys zs (older, same) (older', same') = (
    older ++ older',
    same ∙ ap (λ rest. older ++ rest) same' ∙ sym (append_assoc older older' zs),
  )

-- A trimmed page has no more candles than its limit, and they are the newest of those read; when it
-- says that there is no more it has all of them, and when it says that there is more it has fewer.
pub trim_page-newest :
    {F : Type 0} (candles : List (Candle F)) (limit : ℕ) (truncated : Bool)
    → let page = trim_page candles limit truncated in
      (length page.candles ≤ limit)
      × Suffix candles page.candles
      × (page.has_more ≡ false → page.candles ≡ candles)
      × (page.has_more ≡ true → length page.candles < length candles)
unfolding trim_page
trim_page-newest candles limit truncated =
    let rest : List (Candle _) = (drop_oldest truncated candles).0 in
    let more : Bool = (drop_oldest truncated candles).1 in
    let (suffix, fewer, all, shorter) = oldest truncated candles in
    let (fits, suffix', fewer', all', small) = newest limit rest more in
    (
      fits,
      Suffix_trans candles rest _ suffix suffix',
      (λ e. let (same, no_more) = all' e in same ∙ all no_more),
      λ e. elim (fewer' e) [
        | inl dropped ↦ let less = fewer dropped in omega (arith, less, small)
        | inr cut ↦ omega (arith, cut, shorter)
      ],
    )
