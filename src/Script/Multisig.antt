-- ===== src/Script/Multisig.antt =====
-- `is_multisig` decides the m-of-n form of a script.
use rusty_bitcoin_explorer.Common.{
  ℕ, suc, ◌+◌, ◌-◌, ◌≤◌, ◌≡◌, ◌↔◌, ◌⊎◌, refl, ap, ◌∙◌, Bool, true, not, Option, some, List, [], ◌∷◌,
  ◌++◌, map, length, length-append, get_elem?, length-map, take, drop, take-append_length, ltb,
  ◌&&◌, arith,
}
use rusty_bitcoin_explorer.Common.Words.{pos}
use rusty_bitcoin_explorer.External.{Instruction, push_bytes, op}
use rusty_bitcoin_explorer.Script.{
  get_num_keys, is_multisig_chunks, ends_in_checkmultisig, counts_keys, at_least_one, num_keys_at,
  all_data,
}

-- Every list of three or more is a first element, a middle, and the last two.
split_ends :
    (a b c : Instruction) (l : List Instruction)
    → (f s e : Instruction) × (mid : List Instruction) × (a ∷ b ∷ c ∷ l ≡ f ∷ (mid ++ (s ∷ e ∷ [])))
split_ends a b c [] = (a, b, c, [], refl)
split_ends a b c (d ∷ l) =
    let (f, s, e, mid, split) = split_ends b c d l in (a, s, e, f ∷ mid, ap (◌∷◌ a) split)

pub get_last :
    (mid : List Instruction) (s e : Instruction)
    → get_elem? (mid ++ (s ∷ e ∷ [])) (suc (length mid)) ≡ some e
get_last [] s e = refl
get_last (m ∷ mid) s e = get_last mid s e

pub get_second_last :
    (mid : List Instruction) (s e : Instruction)
    → get_elem? (mid ++ (s ∷ e ∷ [])) (length mid) ≡ some s
get_second_last [] s e = refl
get_second_last (m ∷ mid) s e = get_second_last mid s e

abbrev tests :
    ℕ → Option Instruction → Option Instruction → List Instruction → Option Instruction → Bool
tests len last second_last middle first =
    not (ltb len 4)
    && (ends_in_checkmultisig last
        && (counts_keys (num_keys_at second_last) len
            && (all_data middle && at_least_one (num_keys_at first))))

-- The tests, on chunks whose ends are known.
chunks_of_ends :
    (f s e : Instruction) (mid : List Instruction)
    → is_multisig_chunks (f ∷ (mid ++ (s ∷ e ∷ [])))
      ≡ tests (length mid + 3) (some e) (some s) mid (some f)
unfolding is_multisig_chunks
chunks_of_ends f s e mid =
    let l = f ∷ (mid ++ (s ∷ e ∷ [])) in
    let len : length l ≡ length mid + 3 = omega (arith, length-append {0} mid (s ∷ e ∷ [])) in
    let last : length l - 1 ≡ suc (suc (length mid)) = omega arith in
    let second : length l - 2 ≡ suc (length mid) = omega arith in
    let middle : length l - 3 ≡ length mid = omega arith in
    let at_last : get_elem? l (length l - 1) ≡ some e = ap (get_elem? l) last ∙ get_last mid s e in
    let at_second : get_elem? l (length l - 2) ≡ some s =
      ap (get_elem? l) second ∙ get_second_last mid s e in
    let between : take (length l - 3) (drop 1 l) ≡ mid =
      ap (λ n. take n (mid ++ (s ∷ e ∷ []))) middle
      ∙ take-append_length (length mid) mid (s ∷ e ∷ []) refl in
    λ i. tests (len i) (at_last i) (at_second i) (between i) (some f)

all_data-keys :
    (mid : List Instruction)
    → all_data mid ≡ true
    → (keys : List (List ℕ)) × (mid ≡ map push_bytes keys)
unfolding all_data
all_data-keys [] h = ([], refl)
all_data-keys (op o ∷ mid) h = cc
all_data-keys (push_bytes bs ∷ mid) h =
    let (keys, e) = all_data-keys mid h in (bs ∷ keys, ap (◌∷◌ (push_bytes bs)) e)

pub all_data-map : (keys : List (List ℕ)) → all_data (map push_bytes keys) ≡ true
unfolding all_data
all_data-map [] = refl
all_data-map (k ∷ keys) = all_data-map keys

counts_keys-op :
    (s : Instruction) (len : ℕ)
    → counts_keys (get_num_keys s) len ≡ true
    → (n : ℕ) × (s ≡ op (0x50 + n)) × (1 ≤ n) × (n ≤ 16) × (n + 3 ≡ len)
unfolding get_num_keys
counts_keys-op (push_bytes bs) len h = cc
counts_keys-op (op o) len h = (o - 0x50, ground arith, ground arith, ground arith, ground arith)

at_least_one-op :
    (f : Instruction)
    → at_least_one (get_num_keys f) ≡ true
    → (m : ℕ) × (f ≡ op (0x50 + m)) × (1 ≤ m) × (m ≤ 16)
unfolding get_num_keys
at_least_one-op (push_bytes bs) h = cc
at_least_one-op (op o) h = (o - 0x50, ground arith, ground arith, ground arith)

pub get_num_keys-op : (n : ℕ) → 1 ≤ n → n ≤ 16 → get_num_keys (op (0x50 + n)) ≡ some (pos n)
unfolding get_num_keys
get_num_keys-op n lo hi = ground arith

-- OP_m, the keys, OP_n and OP_CHECKMULTISIG or OP_CHECKMULTISIGVERIFY, where `n` counts the keys.
pub record IsMOfN (chunks : List Instruction) (keys : List (List ℕ)) (m n : ℕ) : Type 0 where
  pub check : ℕ
  pub form : chunks ≡ op (0x50 + m) ∷ (map push_bytes keys ++ (op (0x50 + n) ∷ op check ∷ []))
  pub m_range : (1 ≤ m) × (m ≤ 16)
  pub n_range : (1 ≤ n) × (n ≤ 16)
  pub key_count : length keys ≡ n
  pub checks : (check ≡ 0xae) ⊎ (check ≡ 0xaf)

IsMOfN-of_ends :
    (f s e : Instruction) (mid : List Instruction)
    → tests (length mid + 3) (some e) (some s) mid (some f) ≡ true
    → (keys : List (List ℕ)) × (m n : ℕ) × IsMOfN (f ∷ (mid ++ (s ∷ e ∷ []))) keys m n
IsMOfN-of_ends f s (push_bytes bs) mid h = ground arith
IsMOfN-of_ends f s (op check) mid h =
    let (keys, pushed) = all_data-keys mid (ground arith) in
    let (n, second, n_lo, n_hi, count) = counts_keys-op s (length mid + 3) (ground arith) in
    let (m, first, m_lo, m_hi) = at_least_one-op f (ground arith) in
    (
      keys,
      m,
      n,
      record {
        check = check;
        form = cc;
        m_range = (m_lo, m_hi);
        n_range = (n_lo, n_hi);
        key_count = omega (arith, ap length pushed, length-map {0, 0} keys push_bytes);
        checks = ground arith;
      },
    )

chunks_of_m_of_n :
    (chunks : List Instruction) (keys : List (List ℕ)) (m n : ℕ)
    → IsMOfN chunks keys m n
    → is_multisig_chunks chunks ≡ true
chunks_of_m_of_n chunks keys m n w =
    let len : length (map push_bytes keys) ≡ n = length-map keys push_bytes ∙ w.key_count in
    rw (w.form, chunks_of_ends)
      (ground (arith, all_data-map keys, get_num_keys-op n, get_num_keys-op m))

three_chunks : (chunks : List Instruction) → is_multisig_chunks chunks ≡ true → 3 ≤ length chunks
unfolding is_multisig_chunks
three_chunks [] h = cc h
three_chunks (a ∷ []) h = cc h
three_chunks (a ∷ b ∷ []) h = cc h
three_chunks (a ∷ b ∷ c ∷ l) h = omega arith

-- A list of chunks passes the tests exactly when it is OP_m, between 1 and 16 keys, OP_n with the
-- number of the keys, and OP_CHECKMULTISIG or OP_CHECKMULTISIGVERIFY, with `m` from 1 to 16.
pub is_multisig_chunks_iff :
    (chunks : List Instruction)
    → (is_multisig_chunks chunks ≡ true)
      ↔ ((keys : List (List ℕ)) × (m n : ℕ) × IsMOfN chunks keys m n)
is_multisig_chunks_iff chunks =
    (there chunks, λ (keys, m, n, w). chunks_of_m_of_n chunks keys m n w)
  where
    there :
        (l : List Instruction)
        → is_multisig_chunks l ≡ true
        → (keys : List (List ℕ)) × (m n : ℕ) × IsMOfN l keys m n
    there [] h = absurd (omega (arith, three_chunks _ h))
    there (a ∷ []) h = absurd (omega (arith, three_chunks _ h))
    there (a ∷ b ∷ []) h = absurd (omega (arith, three_chunks _ h))
    there (a ∷ b ∷ c ∷ l) h =
        let (f, s, e, mid, split) = split_ends a b c l in
        rw split (IsMOfN-of_ends f s e mid (rw (split, chunks_of_ends) at h))
