-- ===== src/Backtest/Closing.antt =====
-- internal/backtest/engine.go: a run leaves no position open.
pub mod Whole
use alvo_backtester.Base.{
  ℕ, zero, suc, ◌+◌, ◌%◌, ◌<◌, ◌≡◌, refl, sym, ◌∙◌, ap, Bool, true, false, Option, none, some, List,
  [], ◌∷◌, map, arith, if◌then◌else◌, Float, add64, sub64, word_size, Option-cases, inl, inr,
  Bool-cases, get_elem?, ◌==◌, ==_self, drop, length, All,
}
use alvo_backtester.Indicator.{Indicator}
use alvo_backtester.Market.Bar.{Candle}
use alvo_backtester.Backtest.Broker.{Bar, close_of, order_fill}
use alvo_backtester.Backtest.Book.{Reason, Book, Engine, Request, advance, advance_at, final, held}
use alvo_backtester.Backtest.Book.Timeline.{stamps_of}
use alvo_backtester.Backtest.Book.Timeline.Union.{Follows}
use alvo_backtester.Backtest.Engine.{State, settle_borrow, record_trade, book_trade}
use alvo_backtester.Backtest.Orders.{close_at, exit, close_out, closing_side, market_order}
use alvo_backtester.Backtest.Run.{
  settle_bar, decide_bar, push_bar, on_bar, step_book, step_books, mark_book, mark_books, mark,
  run_stamps, new_books, new_engine, run,
}
use alvo_backtester.Backtest.Place.{place, settle_bar-place, decide_bar-place}

module _ {F S : Type 0} ⦃fl : Float F⦄ where
  record_trade-closed :
      (ts : ℕ) (price : F) (gross fee : ℕ) (reason : Reason) (s : State F S)
      → (record_trade ts price gross fee reason s).1.pos.is_open ≡ false
  unfolding record_trade book_trade
  record_trade-closed ts price gross fee reason s = refl

  -- A market order always fills, so the last bar of a book closes what is open.
  pub close_out-closed : (c : Candle F) (s : State F S) → (close_out c s).1.pos.is_open ≡ false
  unfolding close_out exit order_fill close_at
  close_out-closed c (e, b) = grind (arith, record_trade-closed)

-- What is left of a book's bars is met by the stamps that are left, and a book with no bars left
-- holds nothing.
abbrev pub Met : {F : Type 0} → List ℕ → List (Candle F) → Bool → Type 0
Met stamps [] held = held ≡ false
Met stamps (c ∷ cs) held = Follows (c.ts ∷ stamps_of cs) stamps

abbrev pub Due : {F : Type 0} → List ℕ → Book F → Type 0
Due stamps b = Met stamps (drop b.at b.candles) b.pos.is_open

module _ {F : Type 0} where
  pub Met-intro :
      (stamps : List ℕ) (cs : List (Candle F)) (held : Bool)
      → Follows (stamps_of cs) stamps
      → (cs ≡ [] → held ≡ false)
      → Met stamps cs held
  Met-intro stamps [] held f h = h refl
  Met-intro stamps (c ∷ cs) held f h = f

  drop-none : (cs : List (Candle F)) (at : ℕ) → get_elem? cs at ≡ none → drop at cs ≡ []
  drop-none [] zero h = refl
  drop-none [] (suc at) h = refl
  drop-none (c ∷ cs) zero h = cc
  drop-none (c ∷ cs) (suc at) h = drop-none cs at h

  drop-some :
      (cs : List (Candle F)) (at : ℕ) (c : Candle F)
      → get_elem? cs at ≡ some c
      → drop at cs ≡ c ∷ drop (suc at) cs
  drop-some [] at c h = cc
  drop-some (x ∷ cs) zero c h = cc
  drop-some (x ∷ cs) (suc at) c h = drop-some cs at c h

  drop-last :
      (cs : List (Candle F)) (at : ℕ) (c : Candle F)
      → get_elem? cs at ≡ some c
      → drop (suc at) cs ≡ []
      → suc at ≡ length cs
  drop-last [] at c h e = cc
  drop-last (x ∷ []) zero c h e = refl
  drop-last (x ∷ y ∷ cs) zero c h e = cc
  drop-last (x ∷ cs) (suc at) c h e = ap suc (drop-last cs at c h e)

module _ {F : Type 0} ⦃fl : Float F⦄ where
  either_way :
      (stamps : List ℕ) (counted b : Book F) (x y : ℕ × Bool) (in_market : Bool)
      → Due stamps counted
      → Due stamps b
      → Due stamps (if◌then◌else◌ {A = Book F × (ℕ × Bool)} in_market (counted, x) (b, y)).0
  either_way stamps counted b x y true d d' = d
  either_way stamps counted b x y false d d' = d'

  mark_book-Due :
      (stamps : List ℕ) (o : Option (Candle F)) (b : Book F) (sum : ℕ × Bool)
      → Due stamps b
      → Due stamps (mark_book o b sum).0
  unfolding mark_book
  mark_book-Due stamps none b sum d = d
  mark_book-Due stamps (some c) b (equity, in_market) d =
      either_way stamps _ b _ _ b.pos.is_open d d

  mark_books-Due :
      (stamps : List ℕ) (bs : List (Book F)) (sum : ℕ × Bool)
      → All (Due stamps) bs
      → All (Due stamps) (mark_books bs sum).0
  unfolding mark_books
  mark_books-Due stamps [] sum d = tt
  mark_books-Due stamps (b ∷ bs) sum d = (
    mark_book-Due stamps (held b) b sum d.0,
    mark_books-Due stamps bs (mark_book (held b) b sum).1 d.1,
  )

module _ {F S : Type 0} ⦃fl : Float F⦄ ⦃ind : Indicator S F⦄ where
  on_bar-place :
      (c : Candle F) (at : ℕ) (s : State F S) → place (on_bar (some (c, at)) s).1 ≡ place s.1
  unfolding on_bar push_bar
  on_bar-place c at s = decide_bar-place c at _ ∙ settle_bar-place c at s

  on_bar-closed :
      (c : Candle F) (at : ℕ) (s : State F S)
      → at + 1 ≡ length s.1.candles
      → (on_bar (some (c, at)) s).1.pos.is_open ≡ false
  unfolding on_bar push_bar decide_bar final
  on_bar-closed c at s h =
      let same : (settle_bar c at s).1.candles ≡ s.1.candles =
        ap (λ p. p.0) (settle_bar-place c at s) in
      let last : (at + 1 == length (settle_bar c at s).1.candles) ≡ true = rw (same, h, ==_self) in
      rw last (close_out-closed c _)

  on_bar-Due :
      (stamps : List ℕ) (c : Candle F) (e : Engine F S) (b : Book F)
      → get_elem? b.candles b.at ≡ some c
      → Follows (stamps_of (drop (suc b.at) b.candles)) stamps
      → Due stamps (on_bar (some (c, b.at)) (e, record b { at = b.at + 1 })).1
  on_bar-Due stamps c e b here follows =
      let b' : Book F = record b { at = b.at + 1 } in
      let kept = on_bar-place c b.at (e, b') in
      let one : b.at + 1 ≡ suc b.at = omega arith in
      let cs : (on_bar (some (c, b.at)) (e, b')).1.candles ≡ b.candles = ap (λ p. p.0) kept in
      let at : (on_bar (some (c, b.at)) (e, b')).1.at ≡ suc b.at = ap (λ p. p.1) kept ∙ one in
      rw (cs, at)
        (Met-intro stamps (drop (suc b.at) b.candles) _ follows λ none_left.
          on_bar-closed c b.at (e, b') (one ∙ drop-last b.candles b.at c here none_left))

  step_book-Due :
      (ts : ℕ) (stamps : List ℕ) (e : Engine F S) (b : Book F)
      → Due (ts ∷ stamps) b
      → Due stamps (step_book ts (e, b)).1
  unfolding step_book advance advance_at on_bar
  step_book-Due ts stamps e b due = elim (Option-cases (get_elem? b.candles b.at)) [
    | inl ended ↦
        let nothing = drop-none b.candles b.at ended in rw (ended, nothing) (rw nothing at due)
    | inr (c, here) ↦
        let left = drop-some b.candles b.at c here in
        elim (Bool-cases (c.ts == ts)) [
          | inl now ↦ rw (here, now) (on_bar-Due stamps c e b here (rw (left, now) at due))
          | inr later ↦ rw (here, later, left) (rw (left, later) at due)
        ]
  ]

  step_books-Due :
      (ts : ℕ) (stamps : List ℕ) (e : Engine F S) (bs : List (Book F))
      → All (Due (ts ∷ stamps)) bs
      → All (Due stamps) (step_books ts e bs).1
  unfolding step_books
  step_books-Due ts stamps e [] d = tt
  step_books-Due ts stamps e (b ∷ bs) d =
      (step_book-Due ts stamps e b d.0, step_books-Due ts stamps (step_book ts (e, b)).0 bs d.1)

  pub run_stamps-Due :
      (stamps : List ℕ) (e : Engine F S) (bs : List (Book F))
      → All (Due stamps) bs
      → All (Due []) (run_stamps stamps (e, bs)).1
  unfolding run_stamps mark
  run_stamps-Due [] e bs d = d
  run_stamps-Due (ts ∷ stamps) e bs d = run_stamps-Due stamps _ _ (
      mark_books-Due stamps (step_books ts e bs).1 ((step_books ts e bs).0.cash, false)
        (step_books-Due ts stamps e bs d))
