-- ===== src/Indicator/Ring/Refines.antt =====
-- internal/indicator/ring.go: the ring against a list of its values.
use Prim.Native.Nat.{max}
use alvo_backtester.Base.{
  ℕ, zero, suc, ◌+◌, ◌%◌, ◌<◌, ◌≤◌, ◌≡◌, refl, sym, ◌∙◌, ap, Bool, true, false, List, [], ◌∷◌, ◌++◌,
  arith, ltb, leb, if◌then◌else◌, length, get_or, set, drop, length-set, length-replicate,
  length-append, get_or-set_self, get_or-set_ne, Float, Bool-cases, inl, inr, ltb→lt,
}
use native.Mathlib.Nat.{mod-lt}
use alvo_backtester.Indicator.Ring.{Ring, new, push, at}
use alvo_backtester.Indicator.Ring.Spots.{
  spot, spot-grow, spot-slide, spot-newest, spot-ne, spot-ne_full,
}

module _ {F : Type 0} where
  -- The last values of a series, at most so many, with one more value.
  abbrev pub slide : ℕ → List F → F → List F
  slide size vs v = if ltb (length vs) size then vs ++ (v ∷ []) else drop 1 vs ++ (v ∷ [])

  abbrev pub slides : ℕ → List F → List F → List F
  slides size ws [] = ws
  slides size ws (v ∷ vs) = slides size (slide size ws v) vs

  get_or-snoc :
      (vs : List F) (v d : F) (i : ℕ) → i < length vs → get_or (vs ++ (v ∷ [])) i d ≡ get_or vs i d
  get_or-snoc [] v d i h = absurd (omega (arith, h))
  get_or-snoc (w ∷ vs) v d zero h = refl
  get_or-snoc (w ∷ vs) v d (suc i) h = get_or-snoc vs v d i (omega (arith, h))

  get_or-snoc_last : (vs : List F) (v d : F) → get_or (vs ++ (v ∷ [])) (length vs) d ≡ v
  get_or-snoc_last [] v d = refl
  get_or-snoc_last (w ∷ vs) v d = get_or-snoc_last vs v d

  read_new :
      (xs : List F) (next count : ℕ) (v d : F)
      → next < length xs
      → count < length xs
      → get_or (set xs next v) (spot (length xs) ((next + 1) % length xs) (count + 1) count) d ≡ v
  read_new xs next count v d a b =
      rw (spot-newest (length xs) next count a b) (get_or-set_self xs next v d a)

  read_old :
      (xs : List F) (next count i : ℕ) (v d : F)
      → next < length xs
      → count < length xs
      → i < count
      → get_or (set xs next v) (spot (length xs) ((next + 1) % length xs) (count + 1) i) d
        ≡ get_or xs (spot (length xs) next count i) d
  read_old xs next count i v d a b c =
      rw (spot-grow (length xs) next count i a b (omega (arith, c))) (
        get_or-set_ne xs next (spot (length xs) next count i) v d
          (spot-ne (length xs) next count i a b c))

  read_slid :
      (xs : List F) (next i : ℕ) (v d : F)
      → next < length xs
      → i + 1 < length xs
      → get_or (set xs next v) (spot (length xs) ((next + 1) % length xs) (length xs) i) d
        ≡ get_or xs (spot (length xs) next (length xs) (i + 1)) d
  read_slid xs next i v d a b = rw (spot-slide (length xs) next i a b) (
      get_or-set_ne xs next (spot (length xs) next (length xs) (i + 1)) v d
        (spot-ne_full (length xs) next i a b))

module _ {F : Type 0} ⦃fl : Float F⦄ where
  open fl use {decimal}

  -- The ring has room for a value, and reads the series from its oldest value on.
  pub record HoldsSeries (r : Ring F) (vs : List F) : Type 0 where
    pub place : r.next < length r.values
    pub held : r.count ≡ length vs
    pub fits : length vs ≤ length r.values
    pub reads : (i : ℕ) → i < length vs → at r i ≡ get_or vs i (decimal 0 0)

  at-spot :
      (r : Ring F) (i : ℕ)
      → i < r.count
      → at r i ≡ get_or r.values (spot (length r.values) r.next r.count i) (decimal 0 0)
  unfolding at
  at-spot r i h = let e : leb r.count i ≡ false = ground arith in simp (e) refl

  push-place :
      (r : Ring F) (v : F) → r.next < length r.values → (push r v).next < length (push r v).values
  unfolding push
  push-place r v h = rw (length-set r.values r.next v) (mod-lt (r.next + 1) (omega (arith, h)))

  -- What a push reads at a place, once its count is known.
  push-reads :
      (r : Ring F) (v : F) (count i : ℕ)
      → (push r v).count ≡ count
      → i < count
      → at (push r v) i
        ≡ get_or
            (set r.values r.next v)
            (spot (length r.values) ((r.next + 1) % length r.values) count i)
            (decimal 0 0)
  unfolding push
  push-reads r v count i e h =
      let there = at-spot (push r v) i (rw e h) in there ∙ rw (e, length-set r.values r.next v) refl

  push-count :
      (r : Ring F) (v : F)
      → (push r v).count ≡ (if ltb r.count (length r.values) then r.count + 1 else r.count)
  unfolding push
  push-count r v = refl

  push_grown :
      (r : Ring F) (vs : List F) (v : F)
      → HoldsSeries r vs
      → length vs < length r.values
      → HoldsSeries (push r v) (vs ++ (v ∷ []))
  unfolding push
  push_grown r vs v h room =
      let held = h.held in
      let counted : (push r v).count ≡ r.count + 1 = push-count r v ∙ ground (arith, held, room) in
      let longer = length-append vs (v ∷ []) in
      let same = length-set r.values r.next v in
      record {
        place = push-place r v h.place;
        held = omega (arith, counted, held, longer);
        fits = omega (arith, same, room, longer);
        reads = λ i below.
            push-reads r v (r.count + 1) i counted (omega (arith, below, longer, held))
            ∙ elim (Bool-cases (ltb i (length vs))) [
              | inl e ↦
                  let old : i < length vs = ltb→lt _ _ e in
                  let old' : i < r.count = omega (arith, old, held) in
                  read_old r.values r.next r.count i v (decimal 0 0) h.place
                    (omega (arith, held, room)) old'
                  ∙ sym (at-spot r i old')
                  ∙ h.reads i old
                  ∙ sym (get_or-snoc vs v (decimal 0 0) i old)
              | inr e ↦
                  let last : i ≡ r.count = ground (arith, below, longer, held) in
                  let last' : i ≡ length vs = omega (arith, last, held) in
                  ap
                    (λ j.
                      get_or (set r.values r.next v)
                        (spot (length r.values) ((r.next + 1) % length r.values) (r.count + 1) j)
                        (decimal 0 0))
                    last
                  ∙ read_new r.values r.next r.count v (decimal 0 0) h.place
                      (omega (arith, held, room))
                  ∙ sym (get_or-snoc_last vs v (decimal 0 0))
                  ∙ ap (λ j. get_or (vs ++ (v ∷ [])) j (decimal 0 0)) (sym last')
            ];
      }

  push_slid :
      (r : Ring F) (w : F) (vs : List F) (v : F)
      → HoldsSeries r (w ∷ vs)
      → length r.values ≡ 1 + length vs
      → HoldsSeries (push r v) (vs ++ (v ∷ []))
  unfolding push
  push_slid r w vs v h all =
      let held = h.held in
      let full : r.count ≡ length r.values = omega (arith, held, all) in
      let counted : (push r v).count ≡ length r.values = push-count r v ∙ ground (arith, full) in
      let counted' : (push r v).count ≡ length vs + 1 = omega (arith, counted, all) in
      let longer = length-append vs (v ∷ []) in
      let same = length-set r.values r.next v in
      record {
        place = push-place r v h.place;
        held = omega (arith, counted', longer);
        fits = omega (arith, same, all, longer);
        reads = λ i below. elim (Bool-cases (ltb i (length vs))) [
          | inl e ↦
              let old : i < length vs = ltb→lt _ _ e in
              let next_one : i + 1 < r.count = omega (arith, old, held) in
              let seen =
                at-spot r (i + 1) next_one
                ∙ ap (λ k. get_or r.values (spot (length r.values) r.next k (i + 1)) (decimal 0 0))
                    full in
              let one : i + 1 ≡ suc i = omega arith in
              push-reads r v (length r.values) i counted (omega (arith, old, all))
              ∙ read_slid r.values r.next i v (decimal 0 0) h.place (omega (arith, old, all))
              ∙ sym seen
              ∙ h.reads (i + 1) (omega (arith, old))
              ∙ ap (λ j. get_or (w ∷ vs) j (decimal 0 0)) one
              ∙ sym (get_or-snoc vs v (decimal 0 0) i old)
          | inr e ↦
              let last : i ≡ length vs = ground (arith, below, longer) in
              push-reads r v (length vs + 1) i counted' (omega (arith, last))
              ∙ ap
                  (λ j.
                    get_or (set r.values r.next v)
                      (spot (length r.values) ((r.next + 1) % length r.values) (length vs + 1) j)
                      (decimal 0 0))
                  last
              ∙ read_new r.values r.next (length vs) v (decimal 0 0) h.place (omega (arith, all))
              ∙ sym (get_or-snoc_last vs v (decimal 0 0))
              ∙ ap (λ j. get_or (vs ++ (v ∷ [])) j (decimal 0 0)) (sym last)
        ];
      }

  new-HoldsSeries : (size : ℕ) → HoldsSeries (new size) []
  unfolding new
  new-HoldsSeries size =
      let room = length-replicate (max size 1) (decimal 0 0) in
      record {
        place = omega (arith, room);
        held = refl;
        fits = omega arith;
        reads = λ i below. absurd (omega (arith, below));
      }

  either_held :
      (r : Ring F) (vs : List F) (v : F) (b : Bool)
      → ltb (length vs) (length r.values) ≡ b
      → HoldsSeries r vs
      → HoldsSeries (push r v) (if b then vs ++ (v ∷ []) else drop 1 vs ++ (v ∷ []))
  either_held r vs v true e h = push_grown r vs v h (ltb→lt _ _ e)
  either_held r [] v false e h = let place = h.place in absurd (ground (arith, e, place))
  either_held r (w ∷ vs) v false e h =
      let fits = h.fits in push_slid r w vs v h (ground (arith, e, fits))

  abbrev pub pushes : Ring F → List F → Ring F
  pushes r [] = r
  pushes r (v ∷ vs) = pushes (push r v) vs

  push-size : (r : Ring F) (v : F) → length (push r v).values ≡ length r.values
  unfolding push
  push-size r v = length-set r.values r.next v

  pushes-HoldsSeries :
      (size : ℕ) (vs ws : List F) (r : Ring F)
      → length r.values ≡ size
      → HoldsSeries r ws
      → HoldsSeries (pushes r vs) (slides size ws vs)
  pushes-HoldsSeries size [] ws r e h = h
  pushes-HoldsSeries size (v ∷ vs) ws r e h =
      let one = rw e at (either_held r ws v _ refl h) in
      pushes-HoldsSeries size vs (slide size ws v) (push r v) (push-size r v ∙ e) one

  -- A new ring that is given values one after the other reads, oldest first, the last of them that a list
  -- of the ring's size holds when it drops its oldest value to make room for one more.
  pub new-pushes-HoldsSeries :
      (size : ℕ) (vs : List F) → HoldsSeries (pushes (new size) vs) (slides (max size 1) [] vs)
  unfolding new
  new-pushes-HoldsSeries size vs =
      pushes-HoldsSeries (max size 1) vs [] (new size) (length-replicate (max size 1) (decimal 0 0))
        (new-HoldsSeries size)
