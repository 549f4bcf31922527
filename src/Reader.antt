-- ===== src/Reader.antt =====
-- src/parser/reader.rs: the trait `BlockchainRead`, over any reader that has `read_exact`.
pub mod Bytes
pub mod Varint
pub mod Total
pub mod Exact
use rusty_bitcoin_explorer.Common.{
  ℕ, zero, suc, ◌+◌, ◌*◌, ◌%◌, ◌^◌, ◌≤◌, ◌<◌, ◌≡◌, Bool, true, false, List, [], ◌∷◌, ◌++◌, bit_and,
  bit_or, ltb, length, take, drop, if◌then◌else◌,
}
use rusty_bitcoin_explorer.Common.Words.{ℤ}
use rusty_bitcoin_explorer.Error
use rusty_bitcoin_explorer.Error.{Error, Outcome, ok, err, panic, stuck, encode, add_u64}
use rusty_bitcoin_explorer.External.{
  External, Transaction, Block, BlockHeader, Decoded, decoded, malformed,
}

-- A method with `&mut self`.
abbrev pub Reads : Type 0 → Type 0 → Type 0
Reads S A = S → Outcome (A × S)

-- `Read` on a source that does not fail: a call with a buffer of `n` bytes takes some of the bytes
-- that are left, and none only at the end of the source.
pub record Read (S : Type 0) : Type 0 where
  pub remaining : S → List ℕ
  pub read : ℕ → Reads S (List ℕ)
  pub read_some :
      (n : ℕ) (s : S)
      → (bs : List ℕ) × (s' : S) × (read n s ≡ ok (bs, s'))
        × (remaining s ≡ bs ++ remaining s')
        × (length bs ≤ n)
        × (0 < n → bs ≡ [] → remaining s ≡ [])

-- `bitcoin::io::BufRead`, by what the trait's methods use of it: `read_exact` fills its buffer from
-- the bytes that are left, or fails when they are too few. `remaining` is what a reader has left.
pub record Stream (S : Type 0) : Type 0 where
  pub remaining : S → List ℕ
  pub read_exact : ℕ → S → Outcome (List ℕ × S)
  pub read_exact-take :
      (n : ℕ) (s : S)
      → n ≤ length (remaining s)
      → (s' : S) × (read_exact n s ≡ ok (take n (remaining s), s'))
        × (remaining s' ≡ drop n (remaining s))
  pub read_exact_eof :
      (n : ℕ) (s : S) → length (remaining s) < n → (e : Error) × (read_exact n s ≡ err e)

-- `read_exact`, which the I/O crate provides for every reader.
pub record ReadExact {S : Type 0} (r : Read S) : Type 0 where
  pub read_exact : ℕ → Reads S (List ℕ)
  pub read_exact-take :
      (n : ℕ) (s : S)
      → n ≤ length (r.remaining s)
      → (s' : S) × (read_exact n s ≡ ok (take n (r.remaining s), s'))
        × (r.remaining s' ≡ drop n (r.remaining s))
  pub read_exact_eof :
      (n : ℕ) (s : S) → length (r.remaining s) < n → (e : Error) × (read_exact n s ≡ err e)

abbrev pub stream : {S : Type 0} (r : Read S) → ReadExact r → Stream S
stream r x = record {
  remaining = r.remaining;
  read_exact = x.read_exact;
  read_exact-take = x.read_exact-take;
  read_exact_eof = x.read_exact_eof;
}

abbrev pub continue {ℓ} :
    {S A : Type 0} {B : Type ℓ} → Outcome (A × S) → (A → S → Outcome B) → Outcome B
continue (ok (a, s)) f = f a s
continue (err e) f = err e
continue panic f = panic
continue stuck f = stuck

infixl 5 ◌>>=◌
abbrev pub ◌>>=◌ : {S A B : Type 0} → Reads S A → (A → Reads S B) → Reads S B
◌>>=◌ m f s = continue (m s) f

abbrev pub pure : {S A : Type 0} → A → Reads S A
pure a s = ok (a, s)

abbrev pub lift : {S A : Type 0} → Outcome A → Reads S A
lift (ok a) s = ok (a, s)
lift (err e) s = err e
lift panic s = panic
lift stuck s = stuck

-- `buf[0]`
abbrev first_byte : {S : Type 0} → List ℕ → Reads S ℕ
first_byte [] s = panic
first_byte (b ∷ bs) s = ok (b, s)

-- `n << 7` on a usize drops the bits that leave the word.
abbrev pub shl_seven : ℕ → ℕ
shl_seven n = n * 128 % 2 ^ 64

-- One round of `read_varint`: whether more bytes follow, and the value so far.
unfoldable pub accumulate : Bool → ℕ → ℕ → Outcome (Bool × ℕ)
accumulate checks n ch_data =
    let n' = bit_or (shl_seven n) (bit_and ch_data 0x7f) in
    if ltb 0 (bit_and ch_data 0x80)
    then Error.◌>>=◌ (add_u64 checks n' 1) (λ m. ok (true, m))
    else ok (false, n')

module _ {S : Type 0} (r : Stream S) where
  open r use {remaining, read_exact}

  unfoldable pub read_u8 : Reads S ℕ
  read_u8 = do buf ← read_exact 1; first_byte buf

  -- The loop of `read_varint`; each round reads a byte, so as many rounds as bytes are enough.
  unfoldable pub read_varint_loop : Bool → ℕ → ℕ → Reads S ℕ
  read_varint_loop checks zero n = λ s. stuck
  read_varint_loop checks (suc fuel) n = do
    ch_data ← read_u8
    (more, n') ← lift (accumulate checks n ch_data)
    elim more [ true ↦ read_varint_loop checks fuel n' | false ↦ pure n' ]

  unfoldable pub read_varint : Bool → Reads S ℕ
  read_varint checks s = read_varint_loop checks (suc (length (remaining s))) 0 s

  unfoldable pub read_u256 : Reads S (List ℕ)
  read_u256 = read_exact 32

  unfoldable pub read_vec_u8 : ℕ → Reads S (List ℕ)
  read_vec_u8 count = read_exact count

module _ {S : Type 0} (x : External) (r : Stream S) where
  open r use {remaining, read_exact}

  unfoldable pub read_u32 : Reads S ℕ
  read_u32 = do buf ← read_exact 4; pure (x.le_u32 buf)

  unfoldable pub read_i32 : Reads S ℤ
  read_i32 = do buf ← read_exact 4; pure (x.le_i32 buf)

  -- `consensus_decode(self)?` takes the bytes of the value off the reader.
  unfoldable pub consensus_decode : {A : Type 0} → (List ℕ → Decoded A) → Reads S A
  consensus_decode decode s = elim (decode (remaining s)) [
    | decoded a n ↦ continue (read_exact n s) (λ _. pure a)
    | malformed e ↦ err (encode e)
  ]

  unfoldable pub read_block : Reads S Block
  unfolding consensus_decode
  read_block = consensus_decode x.decode_block

  unfoldable pub read_transaction : Reads S Transaction
  unfolding consensus_decode
  read_transaction = consensus_decode x.decode_transaction

  unfoldable pub read_block_header : Reads S BlockHeader
  unfolding consensus_decode
  read_block_header = consensus_decode x.decode_header
