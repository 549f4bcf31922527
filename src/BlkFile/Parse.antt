-- ===== src/BlkFile/Parse.antt =====
-- `parse_blk_index` reads back the number in a name, and no more.
use rusty_bitcoin_explorer.Common.{
  ℕ, zero, suc, ◌+◌, ◌-◌, ◌*◌, ◌^◌, ◌≡◌, ◌≤◌, ◌<◌, ◌↔◌, refl, sym, ap, ◌∙◌, inl, inr, true, false,
  some, List, [], ◌∷◌, ◌++◌, reverse, length, ltb, leb, ◌==◌, ◌&&◌, All, arith, Bool-cases,
  Option-cases,
}
use native.Mathlib.Nat.{add-mul, mul_assoc, pow-succ', add_assoc}
use mathlib.Core.List.{reverse-append, reverse-reverse}
use rusty_bitcoin_explorer.Common.Words.{ℤ, pos, negsuc}
use rusty_bitcoin_explorer.BlkFile.Name.{
  blk_bytes, dat_bytes, strip_prefix, strip_suffix, digits_value, digits, parse_i32,
  parse_blk_index, positive, negative,
}

strip_prefix-append : (p s : List ℕ) → strip_prefix p (p ++ s) ≡ some s
unfolding strip_prefix
strip_prefix-append [] s = refl
strip_prefix-append (c ∷ p) s = ground (arith, strip_prefix-append p s)

strip_prefix-eq : (p s t : List ℕ) → strip_prefix p s ≡ some t → s ≡ p ++ t
unfolding strip_prefix
strip_prefix-eq [] s t e = cc e
strip_prefix-eq (c ∷ p) [] t e = cc e
strip_prefix-eq (c ∷ p) (d ∷ s) t e = elim (Bool-cases (c == d)) [
  | inl same ↦
      let eq : c ≡ d = ground arith in
      let rest = strip_prefix-eq p s t (rw same at e) in cc (eq, rest)
  | inr differs ↦ cc (rw differs at e)
]

strip_suffix-append : (p s : List ℕ) → strip_suffix p (s ++ p) ≡ some s
unfolding strip_suffix
strip_suffix-append p s =
    rw (reverse-append s p, strip_prefix-append (reverse p) (reverse s), reverse-reverse s) refl

strip_suffix-eq : (p s t : List ℕ) → strip_suffix p s ≡ some t → s ≡ t ++ p
unfolding strip_suffix
strip_suffix-eq p s t e = elim (Option-cases (strip_prefix (reverse p) (reverse s))) [
  | inl absent ↦ cc (rw absent at e)
  | inr (u, is) ↦
      let same : reverse u ≡ t = cc (rw is at e) in
      let back = strip_prefix-eq (reverse p) (reverse s) u is in
      sym (reverse-reverse s)
      ∙ ap reverse back
      ∙ reverse-append (reverse p) u
      ∙ ap (λ l. l ++ reverse (reverse p)) same
      ∙ ap (◌++◌ t) (reverse-reverse p)
]

-- The bytes of a digit.
abbrev pub IsDigit : ℕ → Type 0
IsDigit c = (b'0' ≤ c) × (c ≤ b'9')

-- The number that a run of digits stands for, each with the power of ten of its place.
abbrev pub value : List ℕ → ℕ
value [] = 0
value (c ∷ s) = (c - b'0') * 10 ^ length s + value s

digits_value-value :
    (n : ℕ) (s : List ℕ) → All IsDigit s → digits_value n s ≡ some (n * 10 ^ length s + value s)
unfolding digits_value
digits_value-value n [] h = ap some (omega arith)
digits_value-value n (c ∷ s) (digit, rest) =
    let later = digits_value-value (n * 10 + (c - b'0')) s rest in
    let p = 10 ^ length s in
    let first = add-mul (n * 10) (c - b'0') p in
    let second = mul_assoc n 10 p ∙ ap (◌*◌ n) (sym (pow-succ' 10 (length s))) in
    let shifted : (n * 10 + (c - b'0')) * p + value s
        ≡ n * 10 ^ suc (length s) + ((c - b'0') * p + value s) =
      ap (λ m. m + value s) (first ∙ ap (λ m. m + (c - b'0') * p) second)
      ∙ add_assoc (n * 10 ^ suc (length s)) ((c - b'0') * p) (value s) in
    let test : (leb b'0' c && leb c b'9') ≡ true = ground arith in rw test (later ∙ ap some shifted)

digits_value-IsDigit : (n m : ℕ) (s : List ℕ) → digits_value n s ≡ some m → All IsDigit s
unfolding digits_value
digits_value-IsDigit n m [] e = tt
digits_value-IsDigit n m (c ∷ s) e = elim (Bool-cases (leb b'0' c && leb c b'9')) [
  | inl digit ↦
      let later = digits_value-IsDigit (n * 10 + (c - b'0')) m s (rw digit at e) in
      (ground arith, later)
  | inr other ↦ cc (rw other at e)
]

-- A run of digits, at least one, that stands for `n`.
abbrev pub Writes : List ℕ → ℕ → Type 0
Writes s n = (0 < length s) × All IsDigit s × (value s ≡ n)

digits_iff : (s : List ℕ) (n : ℕ) → (digits s ≡ some n) ↔ Writes s n
digits_iff [] n = (λ e. cc e, λ (some_, h, same). absurd (omega arith))
digits_iff (c ∷ s) n = (
  λ e.
      let h = digits_value-IsDigit 0 n (c ∷ s) e in
      let both : some (0 * 10 ^ length (c ∷ s) + value (c ∷ s)) ≡ some n =
        sym (digits_value-value 0 (c ∷ s) h) ∙ e in
      let same : 0 * 10 ^ length (c ∷ s) + value (c ∷ s) ≡ n = cc both in
      (omega arith, h, omega arith),
  λ (some_, h, same). digits_value-value 0 (c ∷ s) h ∙ ap some (omega arith),
)

abbrev pub minus : ℕ → ℤ
minus zero = pos 0
minus (suc n) = negsuc n

-- What spells a number of an i32 is a run of digits, perhaps behind a sign.
pub data Spells : List ℕ → ℤ → Type 0 where
  unsigned : (s : List ℕ) (n : ℕ) → Writes s n → n < 2 ^ 31 → Spells s (pos n)
  signed : (s : List ℕ) (n : ℕ) → Writes s n → n < 2 ^ 31 → Spells (b'+' ∷ s) (pos n)
  negated : (s : List ℕ) (n : ℕ) → Writes s n → n ≤ 2 ^ 31 → Spells (b'-' ∷ s) (minus n)

positive-eq :
    (s : List ℕ) (i : ℤ)
    → positive (digits s) ≡ some i
    → (n : ℕ) × Writes s n × (n < 2 ^ 31) × (pos n ≡ i)
positive-eq s i e = elim (Option-cases (digits s)) [
  | inl none_ ↦ cc (rw none_ at e)
  | inr (n, is) ↦ elim (Bool-cases (ltb n (2 ^ 31))) [
    | inl small ↦ (n, (digits_iff s n).0 is, ground arith, cc (rw (is, small) at e))
    | inr large ↦ cc (rw (is, large) at e)
  ]
]

negative-eq :
    (s : List ℕ) (i : ℤ)
    → negative (digits s) ≡ some i
    → (n : ℕ) × Writes s n × (n ≤ 2 ^ 31) × (minus n ≡ i)
negative-eq s i e = elim (Option-cases (digits s)) [
  | inl none_ ↦ cc (rw none_ at e)
  | inr (zero, is) ↦ (0, (digits_iff s 0).0 is, omega arith, cc (rw is at e))
  | inr (suc n, is) ↦ elim (Bool-cases (ltb n (2 ^ 31))) [
    | inl small ↦ (suc n, (digits_iff s (suc n)).0 is, ground arith, cc (rw (is, small) at e))
    | inr large ↦ cc (rw (is, large) at e)
  ]
]

parse_i32-Spells : (s : List ℕ) (i : ℤ) → parse_i32 s ≡ some i → Spells s i
unfolding parse_i32
parse_i32-Spells [] i e = cc e
parse_i32-Spells (c ∷ s) i e = elim (Bool-cases (c == b'+')) [
  | inl plus ↦
      let (n, w, small, same) = positive-eq s i (rw plus at e) in
      let first : b'+' ≡ c = ground arith in rw (← first, ← same) (signed s n w small)
  | inr other ↦ elim (Bool-cases (c == b'-')) [
    | inl dash ↦
        let (n, w, small, same) = negative-eq s i (rw (other, dash) at e) in
        let first : b'-' ≡ c = ground arith in rw (← first, ← same) (negated s n w small)
    | inr digit ↦
        let (n, w, small, same) = positive-eq (c ∷ s) i (rw (other, digit) at e) in
        rw (← same) (unsigned (c ∷ s) n w small)
  ]
]

Spells-parse_i32 : (s : List ℕ) (i : ℤ) → Spells s i → parse_i32 s ≡ some i
unfolding parse_i32
Spells-parse_i32 s i (unsigned [] n (some_, h, same) small) = absurd (omega arith)
Spells-parse_i32 s i (unsigned (c ∷ t) n w small) =
    let is = (digits_iff (c ∷ t) n).1 w in
    let digit = w.1.0 in
    let plus : (c == b'+') ≡ false = ground arith in
    let dash : (c == b'-') ≡ false = ground arith in
    let fits : ltb n (2 ^ 31) ≡ true = ground arith in rw (plus, dash, is, fits) refl
Spells-parse_i32 s i (signed t n w small) =
    let is = (digits_iff t n).1 w in
    let fits : ltb n (2 ^ 31) ≡ true = ground arith in rw (is, fits) refl
Spells-parse_i32 s i (negated t zero w small) = let is = (digits_iff t 0).1 w in rw is refl
Spells-parse_i32 s i (negated t (suc n) w small) =
    let is = (digits_iff t (suc n)).1 w in
    let fits : ltb n (2 ^ 31) ≡ true = ground arith in rw (is, fits) refl

-- A name has the number `i` exactly when it is `blk`, what spells `i`, and `.dat`: digits, perhaps
-- behind a `+` or a `-`, of a number within an i32.
pub parse_blk_index_iff :
    (name : List ℕ) (i : ℤ)
    → (parse_blk_index name ≡ some i)
      ↔ ((s : List ℕ) × (name ≡ blk_bytes ++ s ++ dat_bytes) × Spells s i)
unfolding parse_blk_index
parse_blk_index_iff name i = (reads, writes)
  where
    reads :
        parse_blk_index name ≡ some i
        → (s : List ℕ) × (name ≡ blk_bytes ++ s ++ dat_bytes) × Spells s i
    reads e = elim (Option-cases (strip_prefix blk_bytes name)) [
      | inl absent ↦ cc (rw absent at e)
      | inr (t, front) ↦ elim (Option-cases (strip_suffix dat_bytes t)) [
        | inl absent ↦ cc (rw (front, absent) at e)
        | inr (s, back) ↦
            let names =
              strip_prefix-eq blk_bytes name t front
              ∙ ap (◌++◌ blk_bytes) (strip_suffix-eq dat_bytes t s back) in
            (s, names, parse_i32-Spells s i (rw (front, back) at e))
      ]
    ]

    writes :
        (s : List ℕ) × (name ≡ blk_bytes ++ s ++ dat_bytes) × Spells s i
        → parse_blk_index name ≡ some i
    writes (s, names, spelled) =
        let back = strip_suffix-append dat_bytes s in
        rw (names, back) (Spells-parse_i32 s i spelled)
