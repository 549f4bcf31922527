-- ===== src/Reader/Total.antt =====
-- `read_varint`: what the loop does on any reader, well formed or not.
use rusty_bitcoin_explorer.Common.{
  ℕ, zero, suc, ◌+◌, ◌%◌, ◌^◌, ◌<◌, ◌≡◌, refl, ◌⊎◌, inl, inr, Bool, true, false, List, [], ◌∷◌,
  length, ltb, leb, bit_and, bit_or, arith, All, Bool-cases,
}
use rusty_bitcoin_explorer.Common.Words.{IsU64, IsByte}
use rusty_bitcoin_explorer.Common.Bits.{low_bits, or_seven}
use rusty_bitcoin_explorer.Error.{Error, Outcome, ok, err, panic, add_u64}
use rusty_bitcoin_explorer.Reader.{
  Stream, accumulate, shl_seven, read_u8, read_varint_loop, read_varint,
}
use rusty_bitcoin_explorer.Reader.Varint.{read_u8_lem}

add_u64_cases :
    (checks : Bool) (a b : ℕ)
    → ((checks ≡ true) × (add_u64 checks a b ≡ panic)) ⊎ ((m : ℕ) × (add_u64 checks a b ≡ ok m))
unfolding add_u64
add_u64_cases false a b = inr ((a + b) % 2 ^ 64, refl)
add_u64_cases true a b = elim (Bool-cases (leb (2 ^ 64) (a + b))) [
  | inl over ↦ inl (refl, rw over)
  | inr fits ↦ inr ((a + b) % 2 ^ 64, rw fits)
]

accumulate_cases :
    (checks : Bool) (n b : ℕ)
    → ((checks ≡ true) × (accumulate checks n b ≡ panic))
      ⊎ ((more : Bool) × (m : ℕ) × (accumulate checks n b ≡ ok (more, m)))
unfolding accumulate
accumulate_cases checks n b =
    let n' = bit_or (shl_seven n) (bit_and b 0x7f) in
    elim (Bool-cases (ltb 0 (bit_and b 0x80))) [
      | inl more ↦ elim (add_u64_cases checks n' 1) [
        | inl (c, p) ↦ inl (c, rw (more, p))
        | inr (m, p) ↦ inr (true, m, rw (more, p))
      ]
      | inr last ↦ inr (false, n', rw last)
    ]

-- `(n << 7) | (b & 0x7F)` stays in the word, and so does the sum after it.
accumulate-lt :
    (checks more : Bool) (n b m : ℕ) → IsByte b → accumulate checks n b ≡ ok (more, m) → IsU64 m
unfolding accumulate add_u64
accumulate-lt checks more n b m hb e = ground (arith, low_bits b, or_seven (n % 2 ^ 57) (b % 128))

module _ {S : Type 0} (r : Stream S) where
  open r use {remaining}

  read_u8_cases :
      (l : List ℕ) (s : S)
      → remaining s ≡ l
      → ((e : Error) × (read_u8 r s ≡ err e))
        ⊎ ((b : ℕ) × (bs : List ℕ) × (s' : S) × (l ≡ b ∷ bs)
            × (read_u8 r s ≡ ok (b, s'))
            × (remaining s' ≡ bs))
  unfolding read_u8
  read_u8_cases [] s h =
      let (e, fails) = r.read_exact_eof 1 s (rw h (omega arith)) in inl (e, rw fails)
  read_u8_cases (b ∷ bs) s h =
      let (s', e, rest) = read_u8_lem r b bs s h in inr (b, bs, s', refl, e, rest)

  -- What can come of reading a number from `s`.
  abbrev pub Ends : Bool → S → Outcome (ℕ × S) → Type 0
  Ends checks s o =
      ((n : ℕ) × (s' : S) × (o ≡ ok (n, s'))
        × IsU64 n
        × (length (remaining s') < length (remaining s)))
      ⊎ ((e : Error) × (o ≡ err e))
      ⊎ ((checks ≡ true) × (o ≡ panic))

  Ends-later :
      (checks : Bool) (s s' : S) (o : Outcome (ℕ × S))
      → length (remaining s') < length (remaining s)
      → Ends checks s' o
      → Ends checks s o
  Ends-later checks s s' o h (inl (n, t, p, u, k)) = inl (n, t, p, u, omega arith)
  Ends-later checks s s' o h (inr e) = inr e

  read_varint_loop-Ends :
      (checks : Bool) (fuel n : ℕ) (s : S)
      → length (remaining s) < fuel
      → All IsByte (remaining s)
      → Ends checks s (read_varint_loop r checks fuel n s)
  unfolding read_varint_loop
  read_varint_loop-Ends checks zero n s h hb = absurd (omega arith)
  read_varint_loop-Ends checks (suc fuel) n s h hb = elim (read_u8_cases (remaining s) s refl) [
    | inl (e, fails) ↦ inr (inl (e, rw fails))
    | inr (b, bs, s', l, e, rest) ↦
        let shorter : length (remaining s') < length (remaining s) = rw (l, rest) (omega arith) in
        let bytes : IsByte b × All IsByte bs = rw l at hb in
        elim (accumulate_cases checks n b) [
          | inl (c, p) ↦ inr (inr (c, rw (e, p)))
          | inr (false, m, p) ↦
              inl (m, s', rw (e, p), accumulate-lt checks false n b m bytes.0 p, shorter)
          | inr (true, m, p) ↦
              rw (e, p)
                (Ends-later checks s s' _ shorter
                  (read_varint_loop-Ends checks fuel m s' (omega arith) (rw rest bytes.1)))
        ]
  ]

  -- On any bytes `read_varint` ends: with a 64-bit number after taking at least one byte off the
  -- reader, with an error, or, only where overflow is checked, with a panic.
  pub read_varint-Ends :
      (checks : Bool) (s : S) → All IsByte (remaining s) → Ends checks s (read_varint r checks s)
  unfolding read_varint
  read_varint-Ends checks s h = read_varint_loop-Ends checks _ 0 s (omega arith) h
