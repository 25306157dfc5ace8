-- ===== src/Strategy/Compile/Planned.antt =====
-- internal/strategy/compile.go: the units and the slots that the builder grows fit together.
use alvo_backtester.Base.{
  ℕ, zero, suc, ◌+◌, ◌<◌, ◌≤◌, ◌≡◌, refl, ap, arith, Bool, Option, none, some, List, [], ◌∷◌, ◌++◌,
  length, length-append, get_elem?, All, Bool-cases, inl, inr,
}
use alvo_backtester.Strategy.Plan.{PlanSlot}
use alvo_backtester.Strategy.Compile.{
  Catalog, Wired, SlotKey, Builder, same_unit, same_slot, search, key_of, unit_for, give_slot,
  slot_for, attach,
}

-- A feed that a unit may have which stands at place `i`: a slot of an earlier unit.
abbrev pub FeedsBefore : List PlanSlot → ℕ → Option ℕ → Type 0
FeedsBefore slots i none = Unit
FeedsBefore slots i (some f) = (s : PlanSlot) × (get_elem? slots f ≡ some s) × (s.unit < i)

abbrev pub FeedIn : ℕ → Option ℕ → Type 0
FeedIn n none = Unit
FeedIn n (some f) = f < n

-- From the place `i` on, every unit reads from an earlier one, and its slots are there.
abbrev pub InOrder : {I : Type 0} → List PlanSlot → ℕ → List (Wired I) → Type 0
InOrder slots i [] = Unit
InOrder slots i (u ∷ us) =
    FeedsBefore slots i u.feed × All (λ at. at < length slots) u.slots × InOrder slots (i + 1) us

abbrev pub IsPlanned : {I : Type 0} → Builder I → Type 0
IsPlanned b =
    All (λ s. s.unit < length b.units) b.slots
    × InOrder b.slots 0 b.units
    × All (λ e. e.1 < length b.units) b.unit_keys
    × All (λ e. e.1 < length b.slots) b.slot_keys
    × All (λ e. e.1 < length b.slots) b.index
    × All (λ e. FeedIn (length b.slots) e.1.1) b.built

pub All-map {ℓ κ} :
    {A : Type ℓ} (P Q : A → Type κ) (xs : List A) → ((x : A) → P x → Q x) → All P xs → All Q xs
All-map P Q [] f _ = tt
All-map P Q (x ∷ xs) f (p, ps) = (f x p, All-map P Q xs f ps)

All-snoc {ℓ κ} :
    {A : Type ℓ} (P : A → Type κ) (xs : List A) (x : A) → All P xs → P x → All P (xs ++ (x ∷ []))
All-snoc P [] x _ p = (p, tt)
All-snoc P (y ∷ ys) x (q, qs) p = (q, All-snoc P ys x qs p)

-- What holds of a value that may be missing.
abbrev pub OptionHas : {A : Type 0} → (A → Type 0) → Option A → Type 0
OptionHas P none = Unit
OptionHas P (some a) = P a

pub search-OptionHas :
    {K V : Type 0} (same : K → K → Bool) (P : V → Type 0) (entries : List (K × V)) (k : K)
    → All (λ e. P e.1) entries
    → OptionHas P (search same entries k)
unfolding search
search-OptionHas same P [] k _ = tt
search-OptionHas same P ((j, v) ∷ entries) k (p, ps) = elim (Bool-cases (same j k)) [
  | inl here ↦ rw here p
  | inr later ↦ rw later (search-OptionHas same P entries k ps)
]

get_elem?-snoc :
    {A : Type 0} (xs : List A) (x y : A) (i : ℕ)
    → get_elem? xs i ≡ some y
    → get_elem? (xs ++ (x ∷ [])) i ≡ some y
get_elem?-snoc [] x y i e = absurd (ground arith)
get_elem?-snoc (z ∷ xs) x y zero e = e
get_elem?-snoc (z ∷ xs) x y (suc i) e = get_elem?-snoc xs x y i e

FeedsBefore-slot :
    (slots : List PlanSlot) (n f : ℕ)
    → All (λ s. s.unit < n) slots
    → f < length slots
    → FeedsBefore slots n (some f)
FeedsBefore-slot [] n f _ h = absurd (omega arith)
FeedsBefore-slot (s ∷ slots) n zero (p, ps) h = (s, refl, p)
FeedsBefore-slot (s ∷ slots) n (suc f) (p, ps) h = FeedsBefore-slot slots n f ps (omega arith)

FeedsBefore-feed :
    (slots : List PlanSlot) (n : ℕ) (feed : Option ℕ)
    → All (λ s. s.unit < n) slots
    → FeedIn (length slots) feed
    → FeedsBefore slots n feed
FeedsBefore-feed slots n none all h = tt
FeedsBefore-feed slots n (some f) all h = FeedsBefore-slot slots n f all h

FeedsBefore-snoc :
    (slots : List PlanSlot) (s : PlanSlot) (i : ℕ) (feed : Option ℕ)
    → FeedsBefore slots i feed
    → FeedsBefore (slots ++ (s ∷ [])) i feed
FeedsBefore-snoc slots s i none h = tt
FeedsBefore-snoc slots s i (some f) (r, there, before) =
    (r, get_elem?-snoc slots s r f there, before)

module _ {I : Type 0} where
  InOrder-unit :
      (slots : List PlanSlot) (i : ℕ) (us : List (Wired I)) (u : Wired I)
      → InOrder slots i us
      → FeedsBefore slots (i + length us) u.feed
      → u.slots ≡ []
      → InOrder slots i (us ++ (u ∷ []))
  InOrder-unit slots i [] u _ h fresh =
      let same : i + 0 ≡ i = omega arith in (rw same at h, rw fresh tt, tt)
  InOrder-unit slots i (v ∷ us) u (feed, own, rest) h fresh =
      let same : i + 1 + length us ≡ i + length (v ∷ us) = omega arith in
      (feed, own, InOrder-unit slots (i + 1) us u rest (rw same h) fresh)

  InOrder-slot :
      (slots : List PlanSlot) (s : PlanSlot) (i : ℕ) (us : List (Wired I))
      → InOrder slots i us
      → InOrder (slots ++ (s ∷ [])) i us
  InOrder-slot slots s i [] _ = tt
  InOrder-slot slots s i (u ∷ us) (feed, own, rest) =
      let longer : length (slots ++ (s ∷ [])) ≡ length slots + 1 = length-append slots (s ∷ []) in
      (
        FeedsBefore-snoc slots s i u.feed feed,
        All-map (λ at. at < length slots) _ u.slots (λ at h. omega (arith, longer)) own,
        InOrder-slot slots s (i + 1) us rest,
      )

  InOrder-give_slot :
      (slots : List PlanSlot) (i : ℕ) (us : List (Wired I)) (unit at : ℕ)
      → InOrder slots i us
      → at < length slots
      → InOrder slots i (give_slot us unit at)
  unfolding give_slot
  InOrder-give_slot slots i [] unit at _ h = tt
  InOrder-give_slot slots i (u ∷ us) zero at (feed, own, rest) h =
      (feed, All-snoc (λ at. at < length slots) u.slots at own h, rest)
  InOrder-give_slot slots i (u ∷ us) (suc unit) at (feed, own, rest) h =
      (feed, own, InOrder-give_slot slots (i + 1) us unit at rest h)

  length-give_slot : (us : List (Wired I)) (unit at : ℕ) → length (give_slot us unit at) ≡ length us
  unfolding give_slot
  length-give_slot [] unit at = refl
  length-give_slot (u ∷ us) zero at = refl
  length-give_slot (u ∷ us) (suc unit) at = ap suc (length-give_slot us unit at)

All-below :
    {A : Type 0} (f : A → ℕ) (n m : ℕ) (xs : List A)
    → n ≤ m
    → All (λ x. f x < n) xs
    → All (λ x. f x < m) xs
All-below f n m xs h all = All-map (λ x. f x < n) (λ x. f x < m) xs (λ x p. omega (arith, h, p)) all

pub FeedIn-below : (n m : ℕ) (feed : Option ℕ) → n ≤ m → FeedIn n feed → FeedIn m feed
FeedIn-below n m none h p = tt
FeedIn-below n m (some f) h p = omega (arith, h, p)

module _ {I F : Type 0} (C : Catalog I F) where
  -- The two halves of an attachment, on a builder that is planned.
  unit_for-IsPlanned :
      (i : I) (feed known : Option ℕ) (b : Builder I)
      → IsPlanned b
      → FeedIn (length b.slots) feed
      → OptionHas (λ unit. unit < length b.units) known
      → IsPlanned (unit_for C i feed known b).1
        × ((unit_for C i feed known b).0 < length (unit_for C i feed known b).1.units)
        × ((unit_for C i feed known b).1.slots ≡ b.slots)
  unfolding unit_for
  unit_for-IsPlanned i feed (some unit) b planned h k = (planned, k, refl)
  unit_for-IsPlanned i feed none b (slots, order, units, keys, index, built) h k =
      let wired : Wired I = record {
        instance_of = i;
        feed = feed;
        slots = [];
        warmup = 0;
        prime = 0;
      } in
      let longer : length (b.units ++ (wired ∷ [])) ≡ length b.units + 1 =
        length-append b.units (wired ∷ []) in
      let grown : length b.units ≤ length (b.units ++ (wired ∷ [])) = omega (arith, longer) in
      let new : length b.units < length (b.units ++ (wired ∷ [])) = omega (arith, longer) in
      let start : 0 + length b.units ≡ length b.units = omega arith in
      let before = FeedsBefore-feed b.slots (length b.units) feed slots h in
      (
        (
          All-below (λ s. s.unit) _ _ b.slots grown slots,
          InOrder-unit b.slots 0 b.units wired order (rw start before) refl,
          (new, All-below (λ e. e.1) _ _ b.unit_keys grown units),
          keys,
          index,
          built,
        ),
        new,
        refl,
      )

  slot_for-IsPlanned :
      (k : SlotKey) (unit : ℕ) (known : Option ℕ) (b : Builder I)
      → IsPlanned b
      → unit < length b.units
      → OptionHas (λ at. at < length b.slots) known
      → IsPlanned (slot_for C k unit known b).1
        × ((slot_for C k unit known b).0 < length (slot_for C k unit known b).1.slots)
        × (length b.slots ≤ length (slot_for C k unit known b).1.slots)
  unfolding slot_for
  slot_for-IsPlanned k unit (some at) b planned h known = (planned, known, omega arith)
  slot_for-IsPlanned k unit none b (slots, order, units, keys, index, built) h known =
      let slot : PlanSlot = record { unit = unit; output = k.output } in
      let longer : length (b.slots ++ (slot ∷ [])) ≡ length b.slots + 1 =
        length-append b.slots (slot ∷ []) in
      let grown : length b.slots ≤ length (b.slots ++ (slot ∷ [])) = omega (arith, longer) in
      let new : length b.slots < length (b.slots ++ (slot ∷ [])) = omega (arith, longer) in
      let same = length-give_slot b.units unit (length b.slots) in
      (
        (
          rw same (All-snoc (λ s. s.unit < length b.units) b.slots slot slots h),
          InOrder-give_slot (b.slots ++ (slot ∷ [])) 0 b.units unit (length b.slots)
              (InOrder-slot b.slots slot 0 b.units order) new,
          rw same units,
          (new, All-below (λ e. e.1) _ _ b.slot_keys grown keys),
          All-below (λ e. e.1) _ _ b.index grown index,
          All-map (λ e. FeedIn (length b.slots) e.1.1) _ b.built
              (λ e p. FeedIn-below _ _ e.1.1 grown p) built,
        ),
        new,
        grown,
      )

  pub attach-IsPlanned :
      (i : I) (feed : Option ℕ) (output : ℕ) (b : Builder I)
      → IsPlanned b
      → FeedIn (length b.slots) feed
      → IsPlanned (attach C i feed output b).1
        × ((attach C i feed output b).0 < length (attach C i feed output b).1.slots)
        × (length b.slots ≤ length (attach C i feed output b).1.slots)
  unfolding attach
  attach-IsPlanned i feed output b planned h =
      let key = key_of C i feed in
      let known = search-OptionHas same_unit (λ u. u < length b.units) b.unit_keys key planned.2 in
      let found = search same_unit b.unit_keys key in
      let (planned', unit, same) = unit_for-IsPlanned i feed found b planned h known in
      let b' : Builder I = (unit_for C i feed found b).1 in
      let slot : SlotKey = record { unit = key; output = output } in
      let held =
        search-OptionHas same_slot (λ at. at < length b'.slots) b'.slot_keys slot planned'.3 in
      let (planned'', new, grown) =
        slot_for-IsPlanned slot (unit_for C i feed found b).0 (search same_slot b'.slot_keys slot)
          b' planned' unit held in
      let size : length b'.slots ≡ length b.slots = ap length same in
      (planned'', new, rw size at grown)
