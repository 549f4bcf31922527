-- ===== src/Reader/Exact.antt =====
-- `read_exact` and the readers of fixed sizes on input that begins with what they take.
use rusty_bitcoin_explorer.Common.{
  ℕ, ◌≡◌, ◌∙◌, ap, List, ◌++◌, length, length-append, take, drop, take-append_length,
  drop-append_length, arith,
}
use rusty_bitcoin_explorer.Error.{ok}
use rusty_bitcoin_explorer.External.{External, Decoded, decoded}
use rusty_bitcoin_explorer.Reader.{Stream, consensus_decode, read_u32}

module _ {S : Type 0} (r : Stream S) where
  open r use {remaining, read_exact}

  pub read_exact-append :
      (n : ℕ) (xs rest : List ℕ) (s : S)
      → length xs ≡ n
      → remaining s ≡ xs ++ rest
      → (s' : S) × (read_exact n s ≡ ok (xs, s')) × (remaining s' ≡ rest)
  read_exact-append n xs rest s hn h =
      let (s', e, left) = r.read_exact-take n s (rw h (omega (arith, length-append {0} xs rest))) in
      (
        s',
        e
            ∙ ap (λ (l : List ℕ). ok (take n l, s')) h
            ∙ ap (λ (l : List ℕ). ok (l, s')) (take-append_length n xs rest hn),
        left ∙ ap (drop n) h ∙ drop-append_length n xs rest hn,
      )

module _ {S : Type 0} (x : External) (r : Stream S) where
  open r use {remaining}

  -- A value whose encoding the reader begins with is decoded and taken off.
  pub consensus_decode-append :
      {A : Type 0} (decode : List ℕ → Decoded A) (a : A) (xs rest : List ℕ) (s : S)
      → decode (remaining s) ≡ decoded a (length xs)
      → remaining s ≡ xs ++ rest
      → (s' : S) × (consensus_decode x r decode s ≡ ok (a, s')) × (remaining s' ≡ rest)
  unfolding consensus_decode
  consensus_decode-append decode a xs rest s hd h =
      let (s', e, left) = read_exact-append r (length xs) xs rest s (omega arith) h in
      (s', rw (hd, e, consensus_decode), left)

  pub read_u32-append :
      (xs rest : List ℕ) (s : S)
      → length xs ≡ 4
      → remaining s ≡ xs ++ rest
      → (s' : S) × (read_u32 x r s ≡ ok (x.le_u32 xs, s')) × (remaining s' ≡ rest)
  unfolding read_u32
  read_u32-append xs rest s hn h =
      let (s', e, left) = read_exact-append r 4 xs rest s hn h in (s', rw e, left)
