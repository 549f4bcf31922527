-- ===== src/Common/Lists.antt =====
-- Lists measured and indexed by native numbers, under the library's names.
use Prim.Native.Nat.{ℕ, zero, suc, ◌+◌, ◌-◌, ◌≤◌, ◌<◌, min}
use Prim.Native.Nat.add
use mathlib.Core.Path.{◌≡◌, refl, ap, ◌∙◌}
use mathlib.Core.Logic.{◌⊎◌, inl, inr}
use mathlib.Core.List.{List, [], ◌∷◌, ◌++◌, map, reverse, reverse-append}
use mathlib.Core.Option.{Option, none, some}
use native.Mathlib.Omega.{arith}

module _ {ℓ} {A : Type ℓ} where
  abbrev pub length : List A → ℕ
  length [] = 0
  length (x ∷ xs) = suc (length xs)

  abbrev pub get_elem? : List A → ℕ → Option A
  get_elem? [] i = none
  get_elem? (x ∷ xs) zero = some x
  get_elem? (x ∷ xs) (suc i) = get_elem? xs i

  -- A write out of bounds changes nothing.
  abbrev pub set : List A → ℕ → A → List A
  set [] i v = []
  set (x ∷ xs) zero v = v ∷ xs
  set (x ∷ xs) (suc i) v = x ∷ set xs i v

  abbrev pub take : ℕ → List A → List A
  take zero xs = []
  take (suc n) [] = []
  take (suc n) (x ∷ xs) = x ∷ take n xs

  abbrev pub drop : ℕ → List A → List A
  drop zero xs = xs
  drop (suc n) [] = []
  drop (suc n) (x ∷ xs) = drop n xs

  abbrev pub replicate : ℕ → A → List A
  replicate zero a = []
  replicate (suc n) a = a ∷ replicate n a

  abbrev pub All {κ} : (A → Type κ) → List A → Type κ
  All P [] = Unit {κ}
  All P (x ∷ xs) = P x × All P xs

module _ {ℓ} {A : Type ℓ} where
  pub length-append : (xs ys : List A) → length (xs ++ ys) ≡ length xs + length ys
  length-append [] ys = omega arith
  length-append (x ∷ xs) ys = omega (arith, length-append xs ys)

  pub length-set : (xs : List A) (i : ℕ) (v : A) → length (set xs i v) ≡ length xs
  length-set [] i v = refl
  length-set (x ∷ xs) zero v = refl
  length-set (x ∷ xs) (suc i) v = ap suc (length-set xs i v)

  pub length-take : (n : ℕ) (xs : List A) → length (take n xs) ≡ min n (length xs)
  length-take zero xs = omega arith
  length-take (suc n) [] = omega arith
  length-take (suc n) (x ∷ xs) = omega (arith, length-take n xs)

  pub length-drop : (n : ℕ) (xs : List A) → length (drop n xs) ≡ length xs - n
  length-drop zero xs = omega arith
  length-drop (suc n) [] = omega arith
  length-drop (suc n) (x ∷ xs) = omega (arith, length-drop n xs)

  pub take-append_length : (n : ℕ) (xs ys : List A) → length xs ≡ n → take n (xs ++ ys) ≡ xs
  take-append_length zero [] ys h = refl
  take-append_length zero (x ∷ xs) ys h = absurd (omega arith)
  take-append_length (suc n) [] ys h = absurd (omega arith)
  take-append_length (suc n) (x ∷ xs) ys h = ap (◌∷◌ x) (take-append_length n xs ys (omega arith))

  pub drop-append_length : (n : ℕ) (xs ys : List A) → length xs ≡ n → drop n (xs ++ ys) ≡ ys
  drop-append_length zero [] ys h = refl
  drop-append_length zero (x ∷ xs) ys h = absurd (omega arith)
  drop-append_length (suc n) [] ys h = absurd (omega arith)
  drop-append_length (suc n) (x ∷ xs) ys h = drop-append_length n xs ys (omega arith)

  drop_nil : (k : ℕ) → drop {A = A} k [] ≡ []
  drop_nil zero = refl
  drop_nil (suc k) = refl

  pub drop-drop : (m n : ℕ) (xs : List A) → drop m (drop n xs) ≡ drop (n + m) xs
  drop-drop m zero xs = rw add.zero
  drop-drop m (suc n) [] = rw (drop_nil m, drop_nil (suc n + m))
  drop-drop m (suc n) (x ∷ xs) = rw (add.suc n m) (drop-drop m n xs)

  pub drop-append_left :
      (n : ℕ) (xs ys : List A) → n ≤ length xs → drop n (xs ++ ys) ≡ drop n xs ++ ys
  drop-append_left zero xs ys h = refl
  drop-append_left (suc n) [] ys h = absurd (omega arith)
  drop-append_left (suc n) (x ∷ xs) ys h = drop-append_left n xs ys (omega arith)

  pub length-map {κ} : {B : Type κ} (xs : List A) (f : A → B) → length (map f xs) ≡ length xs
  length-map [] f = refl
  length-map (x ∷ xs) f = ap suc (length-map xs f)

module _ {ℓ} {A : Type ℓ} where
  pub empty_of_length : (xs : List A) → length xs ≡ 0 → xs ≡ []
  empty_of_length [] h = refl
  empty_of_length (x ∷ xs) h = absurd (omega arith)

  pub get_elem?-lt : (xs : List A) (i : ℕ) {a : A} → get_elem? xs i ≡ some a → i < length xs
  get_elem?-lt [] i h = cc
  get_elem?-lt (x ∷ xs) zero h = omega arith
  get_elem?-lt (x ∷ xs) (suc i) h = omega (arith, get_elem?-lt xs i h)

  pub get_elem?_below : (xs : List A) (i : ℕ) → i < length xs → (a : A) × (get_elem? xs i ≡ some a)
  get_elem?_below [] i h = absurd (omega arith)
  get_elem?_below (x ∷ xs) zero h = (x, refl)
  get_elem?_below (x ∷ xs) (suc i) h = get_elem?_below xs i (omega arith)

  pub get_elem?-none : (xs : List A) (i : ℕ) → get_elem? xs i ≡ none → length xs ≤ i
  get_elem?-none [] i h = omega arith
  get_elem?-none (x ∷ xs) zero h = cc h
  get_elem?-none (x ∷ xs) (suc i) h = omega (arith, get_elem?-none xs i h)

  pub get_elem?_beyond : (xs : List A) (i : ℕ) → length xs ≤ i → get_elem? xs i ≡ none
  get_elem?_beyond [] i h = refl
  get_elem?_beyond (x ∷ xs) zero h = absurd (omega arith)
  get_elem?_beyond (x ∷ xs) (suc i) h = get_elem?_beyond xs i (omega arith)

  -- An element of a list with one more at the end.
  pub get_elem?-snoc :
      (xs : List A) (c : A) (i : ℕ) {a : A}
      → get_elem? (xs ++ c ∷ []) i ≡ some a
      → (get_elem? xs i ≡ some a) ⊎ ((i ≡ length xs) × (a ≡ c))
  get_elem?-snoc [] c zero h = inr (refl, cc)
  get_elem?-snoc [] c (suc i) h = cc
  get_elem?-snoc (x ∷ xs) c zero h = inl h
  get_elem?-snoc (x ∷ xs) c (suc i) h = elim (get_elem?-snoc xs c i h) [
    | inl e ↦ inl e
    | inr (e, d) ↦ inr (ap suc e, d)
  ]

  pub get_elem?-snoc_last : (xs : List A) (c : A) → get_elem? (xs ++ c ∷ []) (length xs) ≡ some c
  get_elem?-snoc_last [] c = refl
  get_elem?-snoc_last (x ∷ xs) c = get_elem?-snoc_last xs c

  pub get_elem?-append_left :
      (xs ys : List A) (i : ℕ) {a : A} → get_elem? xs i ≡ some a → get_elem? (xs ++ ys) i ≡ some a
  get_elem?-append_left [] ys i h = cc
  get_elem?-append_left (x ∷ xs) ys zero h = h
  get_elem?-append_left (x ∷ xs) ys (suc i) h = get_elem?-append_left xs ys i h

  pub reverse-cons : (x : A) (xs : List A) → reverse (x ∷ xs) ≡ reverse xs ++ x ∷ []
  reverse-cons x xs = reverse-append (x ∷ []) xs

  pub length-reverse : (xs : List A) → length (reverse xs) ≡ length xs
  length-reverse [] = refl
  length-reverse (x ∷ xs) =
      ap length (reverse-cons x xs)
      ∙ omega (arith, length-append (reverse xs) (x ∷ []), length-reverse xs)

module _ {ℓ} {A : Type ℓ} where
  pub get_elem?-append_right :
      (xs ys : List A) (i : ℕ) → get_elem? (xs ++ ys) (length xs + i) ≡ get_elem? ys i
  get_elem?-append_right [] ys i = ap (get_elem? ys) (omega arith)
  get_elem?-append_right (x ∷ xs) ys i =
      let moved : suc (length xs) + i ≡ suc (length xs + i) = omega arith in
      ap (get_elem? (x ∷ xs ++ ys)) moved ∙ get_elem?-append_right xs ys i

  pub get_elem?-append_cases :
      (xs ys : List A) (i : ℕ) (a : A)
      → get_elem? (xs ++ ys) i ≡ some a
      → (get_elem? xs i ≡ some a) ⊎ ((j : ℕ) × (get_elem? ys j ≡ some a))
  get_elem?-append_cases [] ys i a h = inr (i, h)
  get_elem?-append_cases (x ∷ xs) ys zero a h = inl h
  get_elem?-append_cases (x ∷ xs) ys (suc i) a h = get_elem?-append_cases xs ys i a h

  -- Where a list is dropped to, its next element stands there.
  pub get_elem?_of_drop :
      (xs rest : List A) (n : ℕ) (x : A) → drop n xs ≡ x ∷ rest → get_elem? xs n ≡ some x
  get_elem?_of_drop [] rest zero x h = cc h
  get_elem?_of_drop [] rest (suc n) x h = cc h
  get_elem?_of_drop (y ∷ xs) rest zero x h = cc h
  get_elem?_of_drop (y ∷ xs) rest (suc n) x h = get_elem?_of_drop xs rest n x h

  pub drop_further :
      (xs rest : List A) (n : ℕ) (x : A) → drop n xs ≡ x ∷ rest → drop (suc n) xs ≡ rest
  drop_further [] rest zero x h = cc h
  drop_further [] rest (suc n) x h = cc h
  drop_further (y ∷ xs) rest zero x h = cc h
  drop_further (y ∷ xs) rest (suc n) x h = drop_further xs rest n x h

module _ {ℓ κ} {A : Type ℓ} (P : A → Type κ) where
  pub All-of : (xs : List A) → ((i : ℕ) (x : A) → get_elem? xs i ≡ some x → P x) → All P xs
  All-of [] h = tt
  All-of (x ∷ xs) h = (h 0 x refl, All-of xs (λ i. h (suc i)))

  pub All-append_left : (xs ys : List A) → All P (xs ++ ys) → All P xs
  All-append_left [] ys h = tt
  All-append_left (x ∷ xs) ys h = (h.0, All-append_left xs ys h.1)

  pub All-append_right : (xs ys : List A) → All P (xs ++ ys) → All P ys
  All-append_right [] ys h = h
  All-append_right (x ∷ xs) ys h = All-append_right xs ys h.1
