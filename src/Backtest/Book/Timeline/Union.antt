-- ===== src/Backtest/Book/Timeline/Union.antt =====
-- internal/backtest/book.go: the timeline is ascending, has the stamps of every book and no others.
use alvo_backtester.Base.{
  ℕ, ◌<◌, ◌≡◌, refl, ◌∙◌, Bool, true, false, ◌||◌, ◌==◌, ==_iff, List, [], ◌∷◌, leb, arith,
  if◌then◌else◌, All, Bool-cases, inl, inr,
}
use alvo_backtester.Backtest.Book.Timeline.{
  holds, note, insert, sort, note_all, union_of, timeline_of,
}

abbrev pub IsAscending : List ℕ → Type 0
IsAscending [] = Unit
IsAscending (x ∷ xs) = All (λ y. x < y) xs × IsAscending xs

abbrev IsDistinct : List ℕ → Type 0
IsDistinct [] = Unit
IsDistinct (x ∷ xs) = (holds x xs ≡ false) × IsDistinct xs

abbrev pub holds_any : ℕ → List (List ℕ) → Bool
holds_any ts [] = false
holds_any ts (stamps ∷ rest) = holds ts stamps || holds_any ts rest

holds-note : (t ts : ℕ) (keys : List ℕ) → holds t (note ts keys) ≡ (ts == t || holds t keys)
unfolding note holds
holds-note t ts keys = ground arith

holds-note_all :
    (t : ℕ) (stamps seen : List ℕ)
    → holds t (note_all stamps seen) ≡ (holds t stamps || holds t seen)
unfolding note_all holds
holds-note_all t [] seen = refl
holds-note_all t (ts ∷ rest) seen =
    ground (arith, holds-note_all t rest (note ts seen), holds-note t ts seen)

holds-union_of :
    (t : ℕ) (books : List (List ℕ)) (seen : List ℕ)
    → holds t (union_of books seen) ≡ (holds_any t books || holds t seen)
unfolding union_of
holds-union_of t [] seen = refl
holds-union_of t (stamps ∷ rest) seen =
    ground (arith, holds-union_of t rest (note_all stamps seen), holds-note_all t stamps seen)

holds-insert : (t x : ℕ) (xs : List ℕ) → holds t (insert x xs) ≡ (x == t || holds t xs)
unfolding insert holds
holds-insert t x [] = refl
holds-insert t x (y ∷ ys) = ground (arith, holds-insert t x ys)

holds-sort : (t : ℕ) (xs : List ℕ) → holds t (sort xs) ≡ holds t xs
unfolding sort holds
holds-sort t [] = refl
holds-sort t (x ∷ xs) = ground (arith, holds-insert t x (sort xs), holds-sort t xs)

note-IsDistinct : (ts : ℕ) (keys : List ℕ) → IsDistinct keys → IsDistinct (note ts keys)
unfolding note
note-IsDistinct ts keys d = elim (Bool-cases (holds ts keys)) [
  | inl old ↦ rw old d
  | inr new ↦ rw new (new, d)
]

note_all-IsDistinct : (stamps seen : List ℕ) → IsDistinct seen → IsDistinct (note_all stamps seen)
unfolding note_all
note_all-IsDistinct [] seen d = d
note_all-IsDistinct (ts ∷ rest) seen d = note_all-IsDistinct rest _ (note-IsDistinct ts seen d)

union_of-IsDistinct :
    (books : List (List ℕ)) (seen : List ℕ) → IsDistinct seen → IsDistinct (union_of books seen)
unfolding union_of
union_of-IsDistinct [] seen d = d
union_of-IsDistinct (stamps ∷ rest) seen d =
    union_of-IsDistinct rest _ (note_all-IsDistinct stamps seen d)

All-lt_trans : (x y : ℕ) (ys : List ℕ) → x < y → All (λ z. y < z) ys → All (λ z. x < z) ys
All-lt_trans x y [] h a = tt
All-lt_trans x y (z ∷ zs) h a = (omega arith, All-lt_trans x y zs h a.1)

All-insert : (b x : ℕ) (ys : List ℕ) → b < x → All (λ z. b < z) ys → All (λ z. b < z) (insert x ys)
unfolding insert
All-insert b x [] h a = (h, tt)
All-insert b x (y ∷ ys) h a = elim (Bool-cases (leb x y)) [
  | inl le ↦ rw le (h, a)
  | inr gt ↦ rw gt (a.0, All-insert b x ys h a.1)
]

insert-IsAscending :
    (x : ℕ) (ys : List ℕ) → holds x ys ≡ false → IsAscending ys → IsAscending (insert x ys)
unfolding insert holds
insert-IsAscending x [] n a = (tt, tt)
insert-IsAscending x (y ∷ ys) n a = elim (Bool-cases (leb x y)) [
  | inl le ↦ let lt : x < y = ground arith in rw le ((lt, All-lt_trans x y ys lt a.0), a)
  | inr gt ↦
      let lt : y < x = ground arith in
      rw gt (All-insert y x ys lt a.0, insert-IsAscending x ys (ground arith) a.1)
]

sort-IsAscending : (xs : List ℕ) → IsDistinct xs → IsAscending (sort xs)
unfolding sort
sort-IsAscending [] d = tt
sort-IsAscending (x ∷ xs) d =
    insert-IsAscending x (sort xs) (holds-sort x xs ∙ d.0) (sort-IsAscending xs d.1)

-- The timeline of ascending books is ascending, and a stamp is on it exactly when one of the books
-- has a bar of that stamp.
pub timeline_of-merges :
    (books : List (List ℕ))
    → All IsAscending books
    → IsAscending (timeline_of books) × ((t : ℕ) → holds t (timeline_of books) ≡ holds_any t books)
unfolding timeline_of
timeline_of-merges [] a = (tt, λ t. refl)
timeline_of-merges (xs ∷ []) a = (a.0, λ t. ground arith)
timeline_of-merges (xs ∷ ys ∷ rest) a =
    let books : List (List ℕ) = xs ∷ ys ∷ rest in
    (
      sort-IsAscending (union_of books []) (union_of-IsDistinct books [] tt),
      λ t. ground (arith, holds-sort t (union_of books []), holds-union_of t books []),
    )

-- The stamps `ts`, met one after the other by a loop over `timeline` that takes the first of them
-- wherever it stands.
abbrev pub Follows : List ℕ → List ℕ → Type 0
Follows [] timeline = Unit
Follows (t ∷ ts) [] = ⊥
Follows (t ∷ ts) (s ∷ timeline) = if t == s then Follows ts timeline else Follows (t ∷ ts) timeline

above_holds : (t x : ℕ) (ys : List ℕ) → All (λ y. x < y) ys → holds t ys ≡ true → x < t
unfolding holds
above_holds t x [] a h = cc
above_holds t x (y ∷ ys) a h = elim (Bool-cases (y == t)) [
  | inl e ↦ omega (arith, (==_iff y t).0 e)
  | inr ne ↦ above_holds t x ys a.1 (ground arith)
]

later_hold :
    (s : ℕ) (ts timeline : List ℕ)
    → All (λ t. s < t) ts
    → All (λ t. holds t (s ∷ timeline) ≡ true) ts
    → All (λ t. holds t timeline ≡ true) ts
unfolding holds
later_hold s [] timeline a h = tt
later_hold s (t ∷ ts) timeline a h = (ground arith, later_hold s ts timeline a.1 h.1)

pub Follows-timeline :
    (ts timeline : List ℕ)
    → IsAscending ts
    → IsAscending timeline
    → All (λ t. holds t timeline ≡ true) ts
    → Follows ts timeline
unfolding holds
Follows-timeline [] timeline a b h = tt
Follows-timeline (t ∷ ts) [] a b h = cc
Follows-timeline (t ∷ ts) (s ∷ timeline) a b h = elim (Bool-cases (t == s)) [
  | inl e ↦
      let same : t ≡ s = (==_iff t s).0 e in
      rw e (Follows-timeline ts timeline a.1 b.1 (later_hold s ts timeline (rw same at a.0) h.1))
  | inr ne ↦
      let there : holds t timeline ≡ true = ground arith in
      let lt : s < t = above_holds t s timeline b.0 there in
      rw ne (
        Follows-timeline (t ∷ ts) timeline a b.1
          (there, later_hold s ts timeline (All-lt_trans s t ts lt a.0) h.1))
]
