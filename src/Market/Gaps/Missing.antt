-- ===== src/Market/Gaps/Missing.antt =====
-- internal/market/gaps.go: what a report counts and which days it calls missing.
use alvo_backtester.Base.{
  ℕ, ◌+◌, ◌<◌, ◌==◌, map, ◌≡◌, refl, sym, ◌∙◌, ap, arith, Bool, true, false, ◌&&◌, Option, none,
  some, List, [], ◌∷◌, ◌++◌, length, ltb, add64, if◌then◌else◌, Bool-cases, inl, inr,
}
use alvo_backtester.Market.Page.{Timeframe}
use alvo_backtester.Market.Resample.{Session}
use alvo_backtester.Market.Calendar.{
  Calendar, session, session_on, instant_at, day_key, midnight, is_trading_day, trades_on,
  trading_days,
}
use alvo_backtester.Market.Calendar.Walk.{chosen, Walks, trading_days-Walks}
use alvo_backtester.Zone.{Zone, add_days}
use alvo_backtester.Market.Gaps.{
  GapReport, found_on, count_bars, sorted, classed, check_day, check_days, report_of, no_gaps,
  find_gaps, bucket_count,
}
use alvo_backtester.Market.Gaps.Bars.{held, Counts, count_bars-Counts, length-sorted}

-- Whether a day of this session, with so many bars, is missing.
abbrev lacks : Option Session → ℕ → Bool
lacks none n = false
lacks (some s) n = n == 0

append_all : (xs : List ℕ) (x : ℕ) (ys : List ℕ) → (xs ++ (x ∷ [])) ++ ys ≡ xs ++ (x ∷ ys)
append_all [] x ys = refl
append_all (z ∷ xs) x ys = ap (λ rest. z ∷ rest) (append_all xs x ys)

append_none : (xs : List ℕ) → xs ++ [] ≡ xs
append_none [] = refl
append_none (z ∷ xs) = ap (λ rest. z ∷ rest) (append_none xs)

-- What a day adds to a report, and what the days do.
abbrev DayChecks : ℕ → Bool → GapReport → GapReport → Type 0
DayChecks day absent r s =
    (s.bars + length s.unexpected ≡ r.bars + length r.unexpected)
    × (s.missing ≡ (if absent then r.missing ++ (day ∷ []) else r.missing))

abbrev Checks : (ℕ → ℕ) → (ℕ → Bool) → List ℕ → GapReport → GapReport → Type 0
Checks named absent days r s =
    (s.bars + length s.unexpected ≡ r.bars + length r.unexpected)
    × (s.missing ≡ r.missing ++ map named (chosen absent days))

classed-DayChecks :
    (day expected found : ℕ) (r : GapReport)
    → DayChecks day (found == 0) r (classed day expected found r)
unfolding classed
classed-DayChecks day expected found r = elim (Bool-cases (found == 0)) [
  | inl none_held ↦ simp (none_held) (refl, refl)
  | inr held_some ↦ elim (Bool-cases (ltb found expected)) [
    | inl few ↦ simp (held_some, few) (refl, refl)
    | inr all ↦ simp (held_some, all) (refl, refl)
  ]
]

check_day-DayChecks :
    (tf : Timeframe) (counts : List (ℕ × ℕ)) (key day : ℕ) (o : Option Session) (r : GapReport)
    → DayChecks day (lacks o (found_on counts key)) r (check_day tf counts key day o r)
unfolding check_day
check_day-DayChecks tf counts key day none r = (refl, refl)
check_day-DayChecks tf counts key day (some s) r =
    classed-DayChecks day (bucket_count tf s) (found_on counts key)
      (record r { sessions = r.sessions + 1; expected = add64 r.expected (bucket_count tf s) })

days_checked :
    (named : ℕ → ℕ) (absent : ℕ → Bool) (day : ℕ) (days : List ℕ) (r s t : GapReport) (b : Bool)
    → absent day ≡ b
    → DayChecks (named day) b r s
    → Checks named absent days s t
    → Checks named absent (day ∷ days) r t
days_checked named absent day days r s t true e (bars, missing) (bars', missing') = (
  omega (arith, bars, bars'),
  simp (e) (
      missing'
      ∙ ap (λ m. m ++ map named (chosen absent days)) missing
      ∙ append_all r.missing (named day) (map named (chosen absent days))),
)
days_checked named absent day days r s t false e (bars, missing) (bars', missing') = (
  omega (arith, bars, bars'),
  simp (e) (missing' ∙ ap (λ m. m ++ map named (chosen absent days)) missing),
)

module _ (z : Zone) (c : Calendar) (tf : Timeframe) (counts : List (ℕ × ℕ)) where
  check_days-Checks :
      (days : List ℕ) (r : GapReport)
      → Checks
          (midnight z)
          (λ day. lacks (session_on z c day) (found_on counts (day_key z day)))
          days
          r
          (check_days z c tf counts days r)
  unfolding check_days
  check_days-Checks [] r = (refl, sym (append_none r.missing))
  check_days-Checks (day ∷ days) r =
      let next = check_day tf counts (day_key z day) (midnight z day) (session_on z c day) r in
      days_checked (midnight z) _ day days r next (check_days z c tf counts days next) _ refl
        (check_day-DayChecks tf counts (day_key z day) (midnight z day) (session_on z c day) r)
        (check_days-Checks days next)

chosen-cong :
    (p q : ℕ → Bool) (days : List ℕ) → ((day : ℕ) → p day ≡ q day) → chosen p days ≡ chosen q days
chosen-cong p q [] same = refl
chosen-cong p q (day ∷ days) same =
    let one = same day in let rest = chosen-cong p q days same in simp (one, rest) refl

chosen_again :
    (p q r : ℕ → Bool) (xs : List ℕ)
    → ((x : ℕ) → r x ≡ p x && q x)
    → chosen r (chosen p xs) ≡ chosen r xs
chosen_again p q r [] e = refl
chosen_again p q r (x ∷ xs) e =
    let rest = chosen_again p q r xs e in
    elim (Bool-cases (p x)) [
      | inl h ↦ simp (h, rest) refl
      | inr h ↦ let f : r x ≡ false = rw h at (e x) in simp (h, f, rest) refl
    ]

lacks-trades_on :
    (z : Zone) (c : Calendar) (day n : ℕ)
    → lacks (session_on z c day) n ≡ trades_on z c day && n == 0
unfolding trades_on session_on is_trading_day
lacks-trades_on z c day n =
    elim (session (instant_at z) c (day_key z day))
      as (λ o. lacks o n ≡ (elim o as (λ p. Bool) [ none ↦ false | some s ↦ true ]) && n == 0) [
        | none ↦ refl
        | some s ↦ refl
      ]

module _ (z : Zone) (c : Calendar) (present : List ℕ) where
  -- The day trades, and no bar of its date stands inside a session.
  abbrev pub is_missing : ℕ → Bool
  is_missing day = trades_on z c day && held z c present (day_key z day) == 0

module _ (z : Zone) (c : Calendar) (from to : ℕ) (present : List ℕ) where
  abbrev pub IsCensus : Option GapReport → Type 0
  IsCensus none = Unit
  IsCensus (some r) =
      (r.bars + length r.unexpected ≡ length present)
      × ((days : List ℕ) × Walks z to (midnight z from) days
          × (r.missing ≡ map (midnight z) (chosen (is_missing z c present) days)))

  unless-IsCensus :
      (fails : Bool) (r : GapReport) → IsCensus (some r) → IsCensus (if fails then none else some r)
  unless-IsCensus true r h = tt
  unless-IsCensus false r h = h

  counted-missing :
      (tf : Timeframe) (counts : List (ℕ × ℕ)) (r : GapReport) (days : List ℕ)
      → Counts z c present ([], no_gaps) (counts, r)
      → ((report_of z c tf days (counts, r)).bars
            + length (report_of z c tf days (counts, r)).unexpected
          ≡ length present)
        × ((report_of z c tf days (counts, r)).missing
            ≡ map (midnight z) (chosen (is_missing z c present) days))
  unfolding report_of no_gaps found_on
  counted-missing tf counts r days (found, bars, missing) =
      let (bars', missing') =
        check_days-Checks z c tf counts days (record r { unexpected = sorted r.unexpected }) in
      let ordered = length-sorted r.unexpected in
      let same : (day : ℕ)
          → lacks (session_on z c day) (found_on counts (day_key z day))
            ≡ is_missing z c present day =
        λ day.
          let held_there : found_on counts (day_key z day) ≡ held z c present (day_key z day) =
            omega (arith, found (day_key z day)) in
          lacks-trades_on z c day (found_on counts (day_key z day))
          ∙ ap (λ n. trades_on z c day && n == 0) held_there in
      let absent : ℕ → Bool = λ day. lacks (session_on z c day) (found_on counts (day_key z day)) in
      (
        omega (arith, bars, bars', ordered),
        missing'
            ∙ ap (λ m. m ++ map (midnight z) (chosen absent days)) missing
            ∙ ap (map (midnight z)) (chosen-cong absent (is_missing z c present) days same),
      )

  report_of-IsCensus :
      (tf : Timeframe)
      → ((ts : ℕ) → ts < add_days z ts 1)
      → IsCensus (
          some (report_of z c tf (trading_days z c from to) (count_bars z c present ([], no_gaps))))
  report_of-IsCensus tf goes_on =
      let (counts, r) = count_bars z c present ([], no_gaps) in
      let (days, walk, same) = trading_days-Walks z c to goes_on from in
      let (bars, missing) =
        counted-missing tf counts r (trading_days z c from to)
          (count_bars-Counts z c present ([], no_gaps)) in
      let all =
        ap (chosen (is_missing z c present)) same
        ∙ chosen_again (trades_on z c) (λ x. held z c present (day_key z x) == 0)
            (is_missing z c present) days (λ x. refl) in
      (bars, (days, walk, missing ∙ ap (map (midnight z)) all))

  find_gaps-IsCensus :
      (tf : Timeframe)
      → ((ts : ℕ) → ts < add_days z ts 1)
      → IsCensus (find_gaps z c tf from to present)
  unfolding find_gaps
  find_gaps-IsCensus tf goes_on =
      unless-IsCensus _
        (report_of z c tf (trading_days z c from to) (count_bars z c present ([], no_gaps)))
        (report_of-IsCensus tf goes_on)

-- In a zone where a day later is later, the bars that a gap report counts, with those it does not expect, are
-- all the bars it was given, and the days it calls missing are, in order, the midnights of those cursors on a
-- trading day whose date holds no bar inside a session, where the cursors start at the first midnight and go
-- on by `AddDate` of a day as long as they are not after the end of the range.
pub find_gaps-counts :
    (z : Zone) (c : Calendar) (tf : Timeframe) (from to : ℕ) (present : List ℕ) (r : GapReport)
    → ((ts : ℕ) → ts < add_days z ts 1)
    → find_gaps z c tf from to present ≡ some r
    → (r.bars + length r.unexpected ≡ length present)
      × ((days : List ℕ) × Walks z to (midnight z from) days
          × (r.missing ≡ map (midnight z) (chosen (is_missing z c present) days)))
find_gaps-counts z c tf from to present r goes_on e =
    rw e at (find_gaps-IsCensus z c from to present tf goes_on)
