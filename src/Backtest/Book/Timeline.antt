-- ===== src/Backtest/Book/Timeline.antt =====
-- internal/backtest/book.go: the stamps of a run, the union of its books' bars. A stamp is its own
-- key: `UnixNano` tells instants apart and keeps their order between the years 1678 and 2262.
pub mod Union
use alvo_backtester.Base.{
  ℕ, Bool, true, false, ◌||◌, ◌==◌, List, [], ◌∷◌, ◌++◌, map, leb, if◌then◌else◌,
}
use alvo_backtester.Market.Bar.{Candle}

-- `seen[key] = ts`: a map of stamps is the list of its keys.
unfoldable pub holds : ℕ → List ℕ → Bool
holds ts [] = false
holds ts (k ∷ keys) = k == ts || holds ts keys

unfoldable pub note : ℕ → List ℕ → List ℕ
unfolding holds
note ts keys = if holds ts keys then keys else ts ∷ keys

unfoldable pub insert : ℕ → List ℕ → List ℕ
insert x [] = x ∷ []
insert x (y ∷ ys) = if leb x y then x ∷ y ∷ ys else y ∷ insert x ys

-- `slices.Sort`
unfoldable pub sort : List ℕ → List ℕ
unfolding insert
sort [] = []
sort (x ∷ xs) = insert x (sort xs)

unfoldable pub note_all : List ℕ → List ℕ → List ℕ
unfolding note
note_all [] seen = seen
note_all (ts ∷ rest) seen = note_all rest (note ts seen)

unfoldable pub union_of : List (List ℕ) → List ℕ → List ℕ
unfolding note_all
union_of [] seen = seen
union_of (stamps ∷ rest) seen = union_of rest (note_all stamps seen)

-- `timelineOf`, of the stamps of each book's bars.
unfoldable pub timeline_of : List (List ℕ) → List ℕ
unfolding union_of sort
timeline_of (stamps ∷ []) = stamps
timeline_of books = sort (union_of books [])

abbrev pub stamps_of : {F : Type 0} → List (Candle F) → List ℕ
stamps_of cs = map (λ c. c.ts) cs
