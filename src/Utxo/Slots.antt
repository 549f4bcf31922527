-- ===== src/Utxo/Slots.antt =====
-- A `VecMap` counts the outputs that it still has.
use rusty_bitcoin_explorer.Common.{
  ℕ, zero, suc, ◌-◌, ◌≡◌, ◌<◌, ◌^◌, inl, inr, refl, sym, ap, ◌∙◌, Bool, true, false, Option, none,
  some, List, [], ◌∷◌, map, length, get_elem?, get_elem?-lt, get_elem?-none, set, leb, ◌==◌, arith,
  Option-cases, Bool-cases, length-map, length-set, empty_of_length, if◌then◌else◌,
}
use rusty_bitcoin_explorer.Error.{ok}
use rusty_bitcoin_explorer.Connected.Lists.{present}
use rusty_bitcoin_explorer.Utxo.{VecMap, from_vec, is_empty, remove, sub_u32}

module _ {T : Type 0} where
  -- The size is the number of outputs that are there, as a u32.
  pub record IsCounted (v : VecMap T) : Type 0 where
    pub counts : v.size ≡ length (present v.inner)
    pub fits : length v.inner < 2 ^ 32

  -- What stands in slot `i`.
  abbrev pub slot : List (Option T) → ℕ → Option T
  slot [] i = none
  slot (o ∷ os) zero = o
  slot (o ∷ os) (suc i) = slot os i

  slot_at : (os : List (Option T)) (i : ℕ) (o : Option T) → get_elem? os i ≡ some o → slot os i ≡ o
  slot_at [] i o h = cc h
  slot_at (p ∷ os) zero o h = cc h
  slot_at (p ∷ os) (suc i) o h = slot_at os i o h

  slot_beyond : (os : List (Option T)) (i : ℕ) → get_elem? os i ≡ none → slot os i ≡ none
  slot_beyond [] i h = refl
  slot_beyond (p ∷ os) zero h = cc h
  slot_beyond (p ∷ os) (suc i) h = slot_beyond os i h

  pub slot-set :
      (os : List (Option T)) (i j : ℕ)
      → slot (set os i none) j ≡ (if i == j then none else slot os j)
  slot-set [] i j = ground arith
  slot-set (o ∷ os) zero zero = refl
  slot-set (o ∷ os) zero (suc j) = ground arith
  slot-set (o ∷ os) (suc i) zero = ground arith
  slot-set (o ∷ os) (suc i) (suc j) = ground (arith, slot-set os i j)

  -- One output less.
  present-set :
      (os : List (Option T)) (i : ℕ) (t : T)
      → get_elem? os i ≡ some (some t)
      → length (present os) ≡ suc (length (present (set os i none)))
  present-set [] i t h = cc h
  present-set (o ∷ os) zero t h = let same : o ≡ some t = cc h in rw same refl
  present-set (none ∷ os) (suc i) t h = present-set os i t h
  present-set (some a ∷ os) (suc i) t h = ap suc (present-set os i t h)

  present-map-some : (ts : List T) → present (map some ts) ≡ ts
  present-map-some [] = refl
  present-map-some (t ∷ ts) = ap (◌∷◌ t) (present-map-some ts)

  nothing_present : (os : List (Option T)) (i : ℕ) → present os ≡ [] → slot os i ≡ none
  nothing_present [] i h = refl
  nothing_present (none ∷ os) zero h = refl
  nothing_present (none ∷ os) (suc i) h = nothing_present os i h
  nothing_present (some t ∷ os) i h = cc h

  pub from_vec-IsCounted : (ts : List T) → length ts < 2 ^ 32 → IsCounted (from_vec (map some ts))
  unfolding from_vec
  from_vec-IsCounted ts h = record {
    counts = rw (present-map-some ts, length-map ts some) (omega arith);
    fits = rw (length-map ts some) h;
  }

  -- An empty map has no output in any slot.
  pub is_empty-slot :
      (v : VecMap T) (i : ℕ) → IsCounted v → is_empty v ≡ true → slot v.inner i ≡ none
  unfolding is_empty
  is_empty-slot v i c h =
      let zero_size : v.size ≡ 0 = ground arith in
      nothing_present v.inner i (empty_of_length (present v.inner) (omega (arith, c.counts)))

  empty_slot :
      (os : List (Option T)) (i : ℕ)
      → slot os i ≡ none
      → (j : ℕ) → slot os j ≡ (if i == j then none else slot os j)
  empty_slot os i h j = elim (Bool-cases (i == j)) [
    | inl same ↦ let e : i ≡ j = ground arith in rw same (ap (slot os) (sym e) ∙ h)
    | inr differs ↦ rw differs
  ]

  -- In a map whose size counts its outputs, a removal returns what is in the slot, and nothing beyond
  -- the last. It empties that slot alone, the size counts what is left, and the subtraction from it
  -- does not underflow, checked or not.
  pub remove_lem :
      (checks : Bool) (v : VecMap T) (i : ℕ)
      → IsCounted v
      → (v' : VecMap T) × (remove checks v i ≡ ok (slot v.inner i, v'))
        × IsCounted v'
        × ((j : ℕ) → slot v'.inner j ≡ (if i == j then none else slot v.inner j))
  unfolding remove
  remove_lem checks v i c = elim (Option-cases (get_elem? v.inner i)) [
    | inl beyond ↦
        let over = get_elem?-none v.inner i beyond in
        let test : leb (length v.inner) i ≡ true = ground arith in
        let gone = slot_beyond v.inner i beyond in
        (v, rw (test, gone), c, empty_slot v.inner i gone)
    | inr (none, at) ↦
        let within = get_elem?-lt v.inner i at in
        let test : leb (length v.inner) i ≡ false = ground arith in
        let gone = slot_at v.inner i none at in
        (v, rw (test, at, gone), c, empty_slot v.inner i gone)
    | inr (some t, at) ↦
        let within = get_elem?-lt v.inner i at in
        let test : leb (length v.inner) i ≡ false = ground arith in
        let fewer = present-set v.inner i t at in
        let counted = c.counts in
        let sub : sub_u32 checks v.size 1 ≡ ok (v.size - 1) = ground arith in
        (
          record { size = v.size - 1; inner = set v.inner i none },
          rw (test, at, slot_at v.inner i (some t) at, sub),
          record { counts = omega arith; fits = rw length-set c.fits },
          slot-set v.inner i,
        )
  ]
