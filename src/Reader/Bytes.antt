-- ===== src/Reader/Bytes.antt =====
-- `Cursor`: a reader over bytes in memory, which are what it has left.
use rusty_bitcoin_explorer.Common.{
  ℕ, ◌≡◌, ◌≤◌, ◌<◌, refl, List, length, take, drop, leb, arith, if◌then◌else◌,
}
use rusty_bitcoin_explorer.Error.{Error, Outcome, ok, err, bitcoin_io}
use rusty_bitcoin_explorer.Reader.{Stream}

unfoldable pub read_exact : ℕ → List ℕ → Outcome (List ℕ × List ℕ)
read_exact n s =
    if leb n (length s)
    then ok (take n s, drop n s)
    else err (bitcoin_io "failed to fill whole buffer")

pub read_exact-take :
    (n : ℕ) (s : List ℕ)
    → n ≤ length s
    → (s' : List ℕ) × (read_exact n s ≡ ok (take n s, s')) × (s' ≡ drop n s)
unfolding read_exact
read_exact-take n s h = (drop n s, ground arith, refl)

pub read_exact_eof : (n : ℕ) (s : List ℕ) → length s < n → (e : Error) × (read_exact n s ≡ err e)
unfolding read_exact
read_exact_eof n s h = (bitcoin_io "failed to fill whole buffer", ground arith)

abbrev pub bytes : Stream (List ℕ)
bytes = record {
  remaining = λ s. s;
  read_exact = read_exact;
  read_exact-take = read_exact-take;
  read_exact_eof = read_exact_eof;
}
