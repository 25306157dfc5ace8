-- ===== src/Backtest/Closing/Whole.antt =====
-- internal/backtest/engine.go: what a whole run leaves behind.
use alvo_backtester.Base.{
  ℕ, ◌%◌, ◌≡◌, refl, ◌∙◌, ap, Bool, true, false, List, [], ◌∷◌, map, arith, Float, add64, sub64,
  word_size, All, ==_self, drop,
}
use alvo_backtester.Indicator.{Indicator}
use alvo_backtester.Market.Bar.{Candle}
use alvo_backtester.Strategy.Plan.{PlanUnit, Plan}
use alvo_backtester.Backtest.Book.{Instrument, Book, Request, new_book}
use alvo_backtester.Backtest.Book.Timeline.{stamps_of, timeline_of, holds}
use alvo_backtester.Backtest.Book.Timeline.Union.{
  IsAscending, Follows, holds_any, timeline_of-merges, Follows-timeline,
}
use alvo_backtester.Backtest.Run.{new_books, new_engine, run}
use alvo_backtester.Backtest.Ledger.{profits, carried}
use alvo_backtester.Backtest.Ledger.Whole.{carried_all, worth, run-worth}
use alvo_backtester.Backtest.Closing.{Met, Met-intro, Due, run_stamps-Due}

-- Every instrument's bars are in the order of their stamps, and no two have one stamp.
abbrev pub IsOrderly : {F S : Type 0} → Request F S → Type 0
IsOrderly req = All (λ i. IsAscending (stamps_of i.candles)) req.instruments

self_any :
    (xs own : List ℕ) (all : List (List ℕ))
    → ((t : ℕ) → holds t xs ≡ true → holds t own ≡ true)
    → ((t : ℕ) → holds t own ≡ true → holds_any t all ≡ true)
    → All (λ t. holds_any t all ≡ true) xs
unfolding holds
self_any [] own all h k = tt
self_any (x ∷ xs) own all h k =
    (k x (h x (ground (arith, ==_self x))), self_any xs own all (λ t e. h t (ground arith)) k)

-- Every list's own stamps are held by any of the lists.
each_holds :
    (books all : List (List ℕ))
    → ((t : ℕ) → holds_any t books ≡ true → holds_any t all ≡ true)
    → All (λ xs. All (λ t. holds_any t all ≡ true) xs) books
each_holds [] all h = tt
each_holds (xs ∷ books) all h = (
  self_any xs xs all (λ t e. e) (λ t e. h t (ground arith)),
  each_holds books all (λ t e. h t (ground arith)),
)

follow_each :
    (books : List (List ℕ)) (timeline : List ℕ)
    → All IsAscending books
    → IsAscending timeline
    → All (λ xs. All (λ t. holds t timeline ≡ true) xs) books
    → All (λ xs. Follows xs timeline) books
follow_each [] timeline a b h = tt
follow_each (xs ∷ books) timeline a b h =
    (Follows-timeline xs timeline a.0 b h.0, follow_each books timeline a.1 b h.1)

held_there :
    (all : List (List ℕ)) (timeline xs : List ℕ)
    → ((t : ℕ) → holds t timeline ≡ holds_any t all)
    → All (λ t. holds_any t all ≡ true) xs
    → All (λ t. holds t timeline ≡ true) xs
held_there all timeline [] same h = tt
held_there all timeline (x ∷ xs) same h = (same x ∙ h.0, held_there all timeline xs same h.1)

held_everywhere :
    (all : List (List ℕ)) (timeline : List ℕ) (books : List (List ℕ))
    → ((t : ℕ) → holds t timeline ≡ holds_any t all)
    → All (λ xs. All (λ t. holds_any t all ≡ true) xs) books
    → All (λ xs. All (λ t. holds t timeline ≡ true) xs) books
held_everywhere all timeline [] same h = tt
held_everywhere all timeline (xs ∷ books) same h =
    (held_there all timeline xs same h.0, held_everywhere all timeline books same h.1)

timeline_of-Follows :
    (books : List (List ℕ))
    → All IsAscending books
    → All (λ xs. Follows xs (timeline_of books)) books
timeline_of-Follows books a =
    let (ascending, same) = timeline_of-merges books a in
    follow_each books (timeline_of books) a ascending
      (held_everywhere books (timeline_of books) books same (each_holds books books (λ t e. e)))

abbrev pub stamps_by_instrument : {F : Type 0} → List (Instrument F) → List (List ℕ)
stamps_by_instrument [] = []
stamps_by_instrument (i ∷ is) = stamps_of i.candles ∷ stamps_by_instrument is

orderly_stamps :
    {F : Type 0} (is : List (Instrument F))
    → All (λ i. IsAscending (stamps_of i.candles)) is
    → All IsAscending (stamps_by_instrument is)
orderly_stamps [] a = tt
orderly_stamps (i ∷ is) a = (a.0, orderly_stamps is a.1)

module _ {F S : Type 0} ⦃fl : Float F⦄ ⦃ind : Indicator S F⦄ where
  new_books-stamps :
      (plan : Plan F) (is : List (Instrument F)) (us : List (PlanUnit S))
      → map (λ (b : Book F). stamps_of b.candles) (new_books plan is us).1 ≡ stamps_by_instrument is
  unfolding new_books new_book
  new_books-stamps plan [] us = refl
  new_books-stamps plan (i ∷ is) us =
      ap (λ rest. stamps_of i.candles ∷ rest) (new_books-stamps plan is (new_book plan i us).0)

  new_books-Due :
      (plan : Plan F) (is : List (Instrument F)) (us : List (PlanUnit S)) (timeline : List ℕ)
      → All (λ xs. Follows xs timeline) (stamps_by_instrument is)
      → All (Due timeline) (new_books plan is us).1
  unfolding new_books new_book
  new_books-Due plan [] us timeline f = tt
  new_books-Due plan (i ∷ is) us timeline f = (
    Met-intro timeline i.candles false f.0 (λ e. refl),
    new_books-Due plan is (new_book plan i us).0 timeline f.1,
  )

  new_engine-Due :
      (req : Request F S) → IsOrderly req → All (Due (new_engine req).0.stamps) (new_engine req).1
  unfolding new_engine
  new_engine-Due req orderly =
      let books = stamps_by_instrument req.instruments in
      let stamps = new_books-stamps req.plan req.instruments req.units in
      rw stamps (
        new_books-Due req.plan req.instruments req.units (timeline_of books)
          (timeline_of-Follows books (orderly_stamps req.instruments orderly)))

module _ {F : Type 0} where
  Met-end : (cs : List (Candle F)) (held : Bool) → Met [] cs held → held ≡ false
  Met-end [] held m = m
  Met-end (c ∷ cs) held m = absurd m

  Due-closed : (bs : List (Book F)) → All (Due []) bs → All (λ b. b.pos.is_open ≡ false) bs
  Due-closed [] d = tt
  Due-closed (b ∷ bs) d = (Met-end (drop b.at b.candles) b.pos.is_open d.0, Due-closed bs d.1)

  closed-carried : (bs : List (Book F)) → All (λ b. b.pos.is_open ≡ false) bs → carried_all bs ≡ 0
  unfolding carried_all carried add64
  closed-carried [] a = refl
  closed-carried (b ∷ bs) a =
      let closed : b.pos.is_open ≡ false = a.0 in rw (closed, closed-carried bs a.1)

module _ {F S : Type 0} ⦃fl : Float F⦄ ⦃ind : Indicator S F⦄ where
  -- When every instrument's bars are in the order of their stamps, and no two of one instrument have
  -- one stamp, no book holds a position at the end of a run.
  pub run_closes :
      (req : Request F S) → IsOrderly req → All (λ b. b.pos.is_open ≡ false) (run req).1
  unfolding run
  run_closes req orderly =
      Due-closed (run req).1 (run_stamps-Due _ _ _ (new_engine-Due req orderly))

  -- When every instrument's bars are in the order of their stamps, and no two of one instrument
  -- have one stamp, the cash at the end of a run is the capital and the profits of the trades it
  -- records, modulo 2 ^ 64.
  pub run_cash :
      (req : Request F S)
      → IsOrderly req
      → (run req).0.cash % word_size ≡ add64 req.capital (profits (run req).0.trades)
  unfolding add64 sub64 worth
  run_cash req orderly =
      let nothing = closed-carried (run req).1 (run_closes req orderly) in
      let whole = run-worth req in omega (arith, nothing, whole)
