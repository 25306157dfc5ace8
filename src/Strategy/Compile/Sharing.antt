-- ===== src/Strategy/Compile/Sharing.antt =====
-- internal/strategy/compile.go: `attach` shares the unit and the slot of what it attached before.
use alvo_backtester.Base.{ℕ, ◌≡◌, refl, ◌∙◌, ap, Bool, true, Option, none, some, List, ◌∷◌, ==_self}
use alvo_backtester.Strategy.Compile.{
  Catalog, UnitKey, SlotKey, Builder, same_feed, same_unit, same_slot, search, key_of, unit_for,
  slot_for, attach,
}
use text.Mathlib.TextPositions.{eq_refl}

same_feed_refl : (feed : Option ℕ) → same_feed feed feed ≡ true
unfolding same_feed
same_feed_refl none = refl
same_feed_refl (some n) = ==_self n

same_unit_refl : (k : UnitKey) → same_unit k k ≡ true
unfolding same_unit
same_unit_refl k = rw (eq_refl k.key, same_feed_refl k.feed) refl

same_slot_refl : (k : SlotKey) → same_slot k k ≡ true
unfolding same_slot
same_slot_refl k = rw (same_unit_refl k.unit, ==_self k.output) refl

search_first :
    {K V : Type 0} (same : K → K → Bool) (entries : List (K × V)) (k : K) (v : V)
    → same k k ≡ true
    → search same ((k, v) ∷ entries) k ≡ some v
unfolding search
search_first same entries k v e = rw e refl

module _ {I F : Type 0} (C : Catalog I F) where
  unit_for-known :
      (i : I) (feed known : Option ℕ) (b : Builder I)
      → search same_unit b.unit_keys (key_of C i feed) ≡ known
      → search same_unit (unit_for C i feed known b).1.unit_keys (key_of C i feed)
        ≡ some (unit_for C i feed known b).0
  unfolding unit_for
  unit_for-known i feed (some unit) b e = e
  unit_for-known i feed none b e =
      search_first same_unit b.unit_keys (key_of C i feed) _ (same_unit_refl (key_of C i feed))

  slot_for-known :
      (k : SlotKey) (unit : ℕ) (known : Option ℕ) (b : Builder I)
      → search same_slot b.slot_keys k ≡ known
      → (search same_slot (slot_for C k unit known b).1.slot_keys k
          ≡ some (slot_for C k unit known b).0)
        × ((slot_for C k unit known b).1.unit_keys ≡ b.unit_keys)
  unfolding slot_for
  slot_for-known k unit (some at) b e = (e, refl)
  slot_for-known k unit none b e = (search_first same_slot b.slot_keys k _ (same_slot_refl k), refl)

  attach_known :
      (i : I) (feed : Option ℕ) (output unit at : ℕ) (b : Builder I)
      → search same_unit b.unit_keys (key_of C i feed) ≡ some unit
      → search same_slot b.slot_keys (record { unit = key_of C i feed; output = output }) ≡ some at
      → attach C i feed output b ≡ (at, b)
  unfolding attach unit_for slot_for
  attach_known i feed output unit at b u s = rw (u, s) refl

  -- Attaching again what was just attached gives the same slot, and leaves the builder as it is.
  pub attach-attach :
      (i : I) (feed : Option ℕ) (output : ℕ) (b : Builder I)
      → attach C i feed output (attach C i feed output b).1 ≡ attach C i feed output b
  unfolding attach
  attach-attach i feed output b =
      let key = key_of C i feed in
      let slot : SlotKey = record { unit = key; output = output } in
      let known = search same_unit b.unit_keys key in
      let b' : Builder I = (unit_for C i feed known b).1 in
      let unit = (unit_for C i feed known b).0 in
      let (there, kept) = slot_for-known slot unit (search same_slot b'.slot_keys slot) b' refl in
      let held = ap (λ keys. search same_unit keys key) kept ∙ unit_for-known i feed known b refl in
      attach_known i feed output unit (attach C i feed output b).0 (attach C i feed output b).1 held
        there
