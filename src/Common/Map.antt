-- ===== src/Common/Map.antt =====
-- `BTreeMap` and `HashMap` as association lists with one entry for a key.
use rusty_bitcoin_explorer.Common.Tests.{◌==◌, ==_iff, Bool-cases, if◌then◌else◌}
use rusty_bitcoin_explorer.Common.Lists.{get_elem?}
use rusty_bitcoin_explorer.Common.Words.{ℤ, eq_ℤ, eq_ℤ_iff}
use Prim.Native.Nat.{ℕ, zero, suc}
use mathlib.Core.Path.{◌≡◌, refl, ap, ◌∙◌}
use mathlib.Core.Logic.{◌≢◌, ◌↔◌, ◌⊎◌, inl, inr}
use mathlib.Core.Bool.{Bool, true, false, ◌&&◌}
use mathlib.Core.Option.{Option, none, some}
use mathlib.Core.List.{List, [], ◌∷◌}
use native.Mathlib.Omega.{arith}

-- The equality of keys.
pub record Key (K : Type 0) : Type 0 where
  pub beq : K → K → Bool
  pub beq_iff : (a b : K) → (beq a b ≡ true) ↔ (a ≡ b)

instance abbrev pub nat_key : Key ℕ
nat_key = record { beq = ◌==◌; beq_iff = ==_iff }

abbrev pub position_eq : ℤ × ℕ → ℤ × ℕ → Bool
position_eq a b = eq_ℤ a.0 b.0 && a.1 == b.1

pub position_eq_iff : (a b : ℤ × ℕ) → (position_eq a b ≡ true) ↔ (a ≡ b)
position_eq_iff a b = ground arith

instance abbrev pub position_key : Key (ℤ × ℕ)
position_key = record { beq = position_eq; beq_iff = position_eq_iff }

abbrev pub Map : Type 0 → Type 0 → Type 0
Map K V = List (K × V)

module _ {K V : Type 0} ⦃e : Key K⦄ where
  unfoldable pub get : Map K V → K → Option V
  get [] k = none
  get ((j, v) ∷ m) k = if e.beq j k then some v else get m k

  unfoldable pub remove : Map K V → K → Map K V
  remove [] k = []
  remove ((j, v) ∷ m) k = let rest = remove m k in if e.beq j k then rest else (j, v) ∷ rest

  unfoldable pub insert : Map K V → K → V → Map K V
  unfolding remove
  insert m k v = (k, v) ∷ remove m k

  pub get-remove :
      (m : Map K V) (k j : K) → get (remove m k) j ≡ (if e.beq k j then none else get m j)
  unfolding get remove
  get-remove [] k j = ground arith
  get-remove ((i, v) ∷ m) k j =
      ground (arith, get-remove m k j, e.beq_iff i k, e.beq_iff i j, e.beq_iff k j)

  pub get-insert :
      (m : Map K V) (k j : K) (v : V)
      → get (insert m k v) j ≡ (if e.beq k j then some v else get m j)
  unfolding get insert
  get-insert m k j v = ground (arith, get-remove m k j)

-- A loop that inserts an entry for each element of a list, later ones over earlier ones.
module _ {K V A : Type 0} ⦃e : Key K⦄ (key : A → K) (value : A → V) where
  unfoldable pub collect : Map K V → List A → Map K V
  collect m [] = m
  collect m (a ∷ as_) = collect (insert m (key a) (value a)) as_

  -- Every element of the key has the value.
  abbrev pub Agrees : K → V → List A → Type 0
  Agrees k v [] = Unit
  Agrees k v (a ∷ as_) = (key a ≡ k → value a ≡ v) × Agrees k v as_

  insert_kept :
      (m : Map K V) (a : A) (k : K) (v : V)
      → (key a ≡ k → value a ≡ v)
      → get m k ≡ some v
      → get (insert m (key a) (value a)) k ≡ some v
  insert_kept m a k v agrees h =
      get-insert m (key a) k (value a) ∙ elim (Bool-cases (e.beq (key a) k)) [
        | inl same ↦ rw same (ap some (agrees ((e.beq_iff (key a) k).0 same)))
        | inr differs ↦ rw differs h
      ]

  collect_kept :
      (as_ : List A) (m : Map K V) (k : K) (v : V)
      → Agrees k v as_
      → get m k ≡ some v
      → get (collect m as_) k ≡ some v
  unfolding collect
  collect_kept [] m k v agrees h = h
  collect_kept (a ∷ as_) m k v agrees h =
      collect_kept as_ (insert m (key a) (value a)) k v agrees.1 (insert_kept m a k v agrees.0 h)

  -- The entry of an element is found where no other element of its key has another value.
  pub get-collect :
      (as_ : List A) (m : Map K V) (i : ℕ) (a : A)
      → Agrees (key a) (value a) as_
      → get_elem? as_ i ≡ some a
      → get (collect m as_) (key a) ≡ some (value a)
  unfolding collect
  get-collect [] m i a agrees h = cc
  get-collect (b ∷ bs) m zero a agrees h =
      let same : b ≡ a = cc in
      collect_kept bs (insert m (key b) (value b)) (key a) (value a) agrees.1
        (get-insert m (key b) (key a) (value b) ∙ rw (same, (e.beq_iff (key a) (key a)).1 refl))
  get-collect (b ∷ bs) m (suc i) a agrees h =
      get-collect bs (insert m (key b) (value b)) i a agrees.1 h

  -- An entry of the result comes from an element, or was there before.
  pub get-collect_cases :
      (as_ : List A) (m : Map K V) (k : K) (v : V)
      → get (collect m as_) k ≡ some v
      → ((i : ℕ) × (a : A) × (get_elem? as_ i ≡ some a) × (key a ≡ k) × (value a ≡ v))
        ⊎ (get m k ≡ some v)
  unfolding collect
  get-collect_cases [] m k v h = inr h
  get-collect_cases (a ∷ as_) m k v h =
      elim (get-collect_cases as_ (insert m (key a) (value a)) k v h) [
        | inl (i, b, at, keyed, valued) ↦ inl (suc i, b, at, keyed, valued)
        | inr before ↦ elim (Bool-cases (e.beq (key a) k)) [
          | inl same ↦
              let inserted : some (value a) ≡ some v = rw (get-insert, same) at before in
              inl (0, a, refl, (e.beq_iff (key a) k).0 same, cc inserted)
          | inr differs ↦ inr (rw (get-insert, differs) at before)
        ]
      ]

  pub Agrees-of :
      (as_ : List A) (k : K) (v : V)
      → ((i : ℕ) (a : A) → get_elem? as_ i ≡ some a → key a ≡ k → value a ≡ v)
      → Agrees k v as_
  Agrees-of [] k v h = tt
  Agrees-of (a ∷ as_) k v h = (h 0 a refl, Agrees-of as_ k v (λ i. h (suc i)))

  -- A key of no element keeps its entry.
  pub get-collect_absent :
      (as_ : List A) (m : Map K V) (k : K)
      → ((i : ℕ) (a : A) → get_elem? as_ i ≡ some a → key a ≢ k)
      → get (collect m as_) k ≡ get m k
  unfolding collect
  get-collect_absent [] m k h = refl
  get-collect_absent (a ∷ as_) m k h =
      get-collect_absent as_ (insert m (key a) (value a)) k (λ i. h (suc i))
      ∙ elim (Bool-cases (e.beq (key a) k)) [
        | inl same ↦ absurd (h 0 a refl ((e.beq_iff (key a) k).0 same))
        | inr differs ↦ rw (get-insert, differs)
      ]

instance abbrev pub int_key : Key ℤ
int_key = record { beq = eq_ℤ; beq_iff = eq_ℤ_iff }

abbrev pub bytes_eq : List ℕ → List ℕ → Bool
bytes_eq [] [] = true
bytes_eq [] (b ∷ bs) = false
bytes_eq (a ∷ as_) [] = false
bytes_eq (a ∷ as_) (b ∷ bs) = a == b && bytes_eq as_ bs

pub bytes_eq_iff : (as_ bs : List ℕ) → (bytes_eq as_ bs ≡ true) ↔ (as_ ≡ bs)
bytes_eq_iff [] [] = (λ h. refl, λ h. refl)
bytes_eq_iff [] (b ∷ bs) = (λ h. cc h, λ h. cc h)
bytes_eq_iff (a ∷ as_) [] = (λ h. cc h, λ h. cc h)
bytes_eq_iff (a ∷ as_) (b ∷ bs) = let ih = bytes_eq_iff as_ bs in ground arith

instance abbrev pub bytes_key : Key (List ℕ)
bytes_key = record { beq = bytes_eq; beq_iff = bytes_eq_iff }
