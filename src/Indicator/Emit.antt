-- ===== src/Indicator/Emit.antt =====
-- internal/indicator/indicator.go: `Feed`, `Emit` and `Compute`, which run an indicator over the bars.
use Prim.Native.Nat.{min}
use alvo_backtester.Base.{
  ℕ, ◌+◌, ◌<◌, ◌≡◌, ◌++◌, sym, ◌∙◌, arith, List, [], ◌∷◌, map, length, ltb, if◌then◌else◌,
}
use alvo_backtester.Indicator.{Candle, Indicator}
use alvo_backtester.Indicator.Warmup.{WarmsUp}

-- `type Result`
pub record Series (F : Type 0) : Type 0 where
  pub start : ℕ
  pub columns : List (List F)

module _ {F : Type 0} where
  -- `result.Values[j] = append(result.Values[j], value)` for each value
  unfoldable pub append_row : List (List F) → List F → List (List F)
  append_row (column ∷ columns) (value ∷ values) =
      (column ++ (value ∷ [])) ∷ append_row columns values
  append_row columns values = columns

  -- The part of the loop for a bar `i` at which the indicator is ready.
  unfoldable pub emit_row : ℕ → List F → Series F → Series F
  unfolding append_row
  emit_row i values r =
      let first = ltb i r.start in
      record {
        start = if first then i else r.start;
        columns = append_row (if first then map (λ v. []) values else r.columns) values;
      }

module _ {S F : Type 0} where
  -- `Feed`
  unfoldable pub feed : Indicator S F → List (Candle F) → S → S
  feed ind [] s = s
  feed ind (c ∷ cs) s = feed ind cs (ind.update s c)

  -- The loop of `Emit`, from the bar `i` on.
  unfoldable pub emit_from : Indicator S F → ℕ → List (Candle F) → S → Series F → Series F
  unfolding emit_row
  emit_from ind i [] s r = r
  emit_from ind i (c ∷ cs) s r =
      let s' : S = ind.update s c in
      emit_from ind (i + 1) cs s' (if ind.ready s' then emit_row i (ind.values s') r else r)

  unfoldable pub emit : Indicator S F → List (Candle F) → S → Series F
  unfolding emit_from
  emit ind cs s = emit_from ind 0 cs s (record { start = length cs; columns = [] })

  unfoldable pub compute : Indicator S F → List (Candle F) → S → Series F
  unfolding emit
  compute ind cs s = emit ind cs (ind.reset s)

-- The start that `Emit` has found after `i` of `n` bars.
abbrev found : ℕ → ℕ → ℕ → ℕ
found bars i n = if ltb bars i then bars else n

module _ {S F : Type 0} (ind : Indicator S F) {start : S} {bars : ℕ}
    (laws : WarmsUp ind start bars) where
  pub feed-After :
      (k : ℕ) (cs : List (Candle F)) (s : S)
      → laws.After k s
      → laws.After (k + length cs) (feed ind cs s)
  unfolding feed
  feed-After k [] s a = let same : k + 0 ≡ k = omega arith in rw same a
  feed-After k (c ∷ cs) s a =
      let same : k + 1 + length cs ≡ k + length (c ∷ cs) = omega arith in
      rw (sym same) (feed-After (k + 1) cs (ind.update s c) (laws.update k s c a))

  emit_row_start :
      (i n : ℕ) (s : S) (r : Series F)
      → i < n
      → laws.After (i + 1) s
      → r.start ≡ found bars i n
      → (if ind.ready s then emit_row i (ind.values s) r else r).start ≡ found bars (i + 1) n
  unfolding emit_row
  emit_row_start i n s r h a e = let there = laws.ready (i + 1) s a in ground arith

  pub emit_from_start :
      (i n : ℕ) (cs : List (Candle F)) (s : S) (r : Series F)
      → i + length cs ≡ n
      → laws.After i s
      → r.start ≡ found bars i n
      → (emit_from ind i cs s r).start ≡ found bars n n
  unfolding emit_from
  emit_from_start i n [] s r h a e = let same : i ≡ n = omega arith in rw same at e
  emit_from_start i n (c ∷ cs) s r h a e =
      let a' = laws.update i s c a in
      emit_from_start (i + 1) n cs (ind.update s c) _ (omega arith) a'
        (emit_row_start i n (ind.update s c) r (omega arith) a' e)

  pub compute_start :
      (cs : List (Candle F)) (s : S) (k : ℕ)
      → laws.After k s
      → (compute ind cs s).start ≡ min bars (length cs)
  unfolding compute emit
  compute_start cs s k a =
      let begun : length cs ≡ found bars 0 (length cs) = ground arith in
      let fresh = laws.reset k s a in
      let none : Series F = record { start = length cs; columns = [] } in
      let end = emit_from_start 0 (length cs) cs (ind.reset s) none (omega arith) fresh begun in
      let least : found bars (length cs) (length cs) ≡ min bars (length cs) = ground arith in
      end ∙ least
