-- ===== src/Api/Errors.antt =====
-- The queries for blocks return a value or an error, whatever the files hold.
use rusty_bitcoin_explorer.Common.{
  ℕ, ◌+◌, ◌-◌, ◌^◌, ◌≡◌, ◌≤◌, ◌⊎◌, inl, inr, refl, Bool, true, false, Option, none, some, List,
  length, get_elem?, leb, arith, Bool-cases,
}
use rusty_bitcoin_explorer.Common.Words.{ℤ}
use rusty_bitcoin_explorer.Common.Map
use rusty_bitcoin_explorer.Common.Map.{int_key}
use rusty_bitcoin_explorer.Error.{
  Error, block_file_not_found, block_index_record_not_found, Outcome, ok, err, ◌>>=◌, encode,
}
use rusty_bitcoin_explorer.External.{External, Decoded, decoded, malformed}
use rusty_bitcoin_explorer.Reader
use rusty_bitcoin_explorer.Reader.{
  Read, ReadExact, Stream, continue, Reads, consensus_decode, read_u32, read_vec_u8,
}
use rusty_bitcoin_explorer.Reader.Bytes.{bytes}
use rusty_bitcoin_explorer.Xor
use rusty_bitcoin_explorer.Xor.{XorReader, Seek, SeekFrom, settle}
use rusty_bitcoin_explorer.Xor.Laws.{xor_read}
use rusty_bitcoin_explorer.BlkFile.{
  BlkFile, FilePath, FileSystem, sub_u64, read_raw_block, read_block, xor_stream, ok_or,
}
use rusty_bitcoin_explorer.BlockIndex.{BlockIndexRecord}
use rusty_bitcoin_explorer.Api.{BitcoinDb, get_block, get_raw_block}

-- A value or an error: no panic.
pub data IsResult {A : Type 0} (o : Outcome A) : Type 0 where
  value : (a : A) → o ≡ ok a → IsResult o
  error : (e : Error) → o ≡ err e → IsResult o

IsResult-bind :
    {A B : Type 0} (o : Outcome A) (f : A → Outcome B)
    → IsResult o
    → ((a : A) → IsResult (f a))
    → IsResult (o >>= f)
IsResult-bind o f (value a is) h = rw is (h a)
IsResult-bind o f (error e is) h = error e (rw is refl)

IsResult-continue :
    {S A B : Type 0} (o : Outcome (A × S)) (f : A → S → Outcome B)
    → IsResult o
    → ((a : A) (s : S) → IsResult (f a s))
    → IsResult (continue o f)
IsResult-continue o f (value (a, s) is) h = rw is (h a s)
IsResult-continue o f (error e is) h = error e (rw is refl)

IsResult-ok_or : {A : Type 0} (o : Option A) (e : Error) → IsResult (ok_or o e)
IsResult-ok_or none e = error e refl
IsResult-ok_or (some a) e = value a refl

module _ {S : Type 0} (r : Stream S) where
  read_exact-IsResult : (n : ℕ) (s : S) → IsResult (r.read_exact n s)
  read_exact-IsResult n s = elim (Bool-cases (leb n (length (r.remaining s)))) [
    | inl fits ↦ let (s', reads, rest) = r.read_exact-take n s (ground arith) in value _ reads
    | inr short ↦ let (e, fails) = r.read_exact_eof n s (ground arith) in error e fails
  ]

  consensus_decode-IsResult :
      {A : Type 0} (x : External) (decode : List ℕ → Decoded A) (s : S)
      → IsResult {A = A × S} (consensus_decode x r decode s)
  unfolding consensus_decode
  consensus_decode-IsResult {A = A} x decode s =
      elim (decode (r.remaining s))
        as (λ d. IsResult {A = A × S} (elim d [
          | decoded a n ↦ continue (r.read_exact n s) (λ _ s'. ok (a, s'))
          | malformed e ↦ err (encode e)
        ])) [
          | decoded a n ↦
              IsResult-continue (r.read_exact n s) _ (read_exact-IsResult n s)
                (λ _ s'. value (a, s') refl)
          | malformed e ↦ error (encode e) refl
        ]

-- `a - b` on u64 does not overflow, or is not checked.
sub_u64-IsResult :
    (checks : Bool) (a b : ℕ) → (checks ≡ false) ⊎ (b ≤ a) → IsResult (sub_u64 checks a b)
unfolding sub_u64
sub_u64-IsResult checks a b (inr fits) =
    let test : leb b a ≡ true = ground arith in value (a - b) (rw test refl)
sub_u64-IsResult checks a b (inl unchecked) = elim (Bool-cases (leb b a)) [
  | inl fits ↦ value (a - b) (rw fits refl)
  | inr over ↦ value (a + 2 ^ 64 - b) (rw (over, unchecked) refl)
]

module _ {F : Type 0} (x : External) (checks : Bool) (fs : FileSystem F) (r : Read F) (k : Seek F)
    (exact : ReadExact (xor_read r)) where
  -- Opening a file and seeking in it do not panic.
  pub record HasNoPanic : Type 0 where
    pub open_file : (path : FilePath) → IsResult (fs.open_file path)
    pub seek : (target : SeekFrom) (f : F) → IsResult (k.seek target f).0
    pub stream_position : (f : F) → IsResult (k.stream_position f).0

  module _ (quiet : HasNoPanic) where
    seek-IsResult : (target : SeekFrom) (s : XorReader F) → IsResult (Xor.seek k target s).0
    unfolding Xor.seek
    seek-IsResult target s =
        let sought = k.seek target s.inner in
        by_position sought.0 (k.stream_position sought.1) (quiet.seek target s.inner)
          (quiet.stream_position sought.1)
      where
        by_position :
            (result : Outcome ℕ) (p : Outcome ℕ × F)
            → IsResult result
            → IsResult p.0
            → IsResult (settle k result p s).0
        by_position result (o, f) h (value p is) = rw is h
        by_position result (o, f) h (error e is) = error e (rw is refl)

    read_raw_block-IsResult :
        (b : BlkFile) (n_file : ℤ) (offset : ℕ)
        → (checks ≡ false) ⊎ (4 ≤ offset)
        → IsResult (read_raw_block x checks fs r k exact b n_file offset)
    unfolding read_raw_block read_u32 read_vec_u8
    read_raw_block-IsResult b n_file offset fits =
        IsResult-bind (ok_or (Map.get b.files n_file) (block_file_not_found n_file)) _
          (IsResult-ok_or (Map.get b.files n_file) (block_file_not_found n_file))
          (λ path. IsResult-bind (fs.open_file path) _ (quiet.open_file path) (λ file.
            IsResult-bind (sub_u64 checks offset 4) _ (sub_u64-IsResult checks offset 4 fits) (λ p.
              let sought = Xor.seek k (Xor.start p) (Xor.new file b.xor_mask) in
              IsResult-bind sought.0 _ (seek-IsResult (Xor.start p) (Xor.new file b.xor_mask)) (λ _.
                IsResult-bind (read_u32 x (xor_stream x checks fs r k exact) sought.1) _
                  (IsResult-continue (exact.read_exact 4 sought.1) _
                    (read_exact-IsResult (xor_stream x checks fs r k exact) 4 sought.1)
                    (λ buf s. value (x.le_u32 buf, s) refl))
                  (λ size.
                    IsResult-bind (exact.read_exact size.0 size.1) _
                      (read_exact-IsResult (xor_stream x checks fs r k exact) size.0 size.1)
                      (λ block. value block.0 refl))))))

    -- Whatever the files hold, and whatever the decoder makes of it, a query for a block returns a
    -- block or an error, where opening a file and seeking in it do not panic, and the place of the block
    -- leaves room for its size or overflow is not checked.
    pub get_block-IsResult :
        (db : BitcoinDb) (height : ℕ)
        → ((b : BlockIndexRecord)
            → get_elem? db.block_index.records height ≡ some b
            → (checks ≡ false) ⊎ (4 ≤ b.n_data_pos))
        → IsResult (get_block x checks fs r k exact ok db height)
          × IsResult (get_raw_block x checks fs r k exact db height)
    unfolding get_block get_raw_block read_block Reader.read_block
    get_block-IsResult db height fits = (
      by_record (get_elem? db.block_index.records height) refl,
      by_raw (get_elem? db.block_index.records height) refl,
    )
      where
        by_record :
            (o : Option BlockIndexRecord)
            → get_elem? db.block_index.records height ≡ o
            → IsResult (get_block x checks fs r k exact ok db height)
        by_record none is = error (block_index_record_not_found height) (rw is refl)
        by_record (some b) is = rw is (
            IsResult-bind _ _
              (IsResult-bind
                (read_raw_block x checks fs r k exact db.blk_file b.n_file b.n_data_pos) _
                (read_raw_block-IsResult db.blk_file b.n_file b.n_data_pos (fits b is))
                (λ raw.
                  IsResult-bind (consensus_decode x bytes x.decode_block raw) _
                    (consensus_decode-IsResult bytes x x.decode_block raw)
                    (λ got. value got.0 refl)))
              (λ block. value block refl))

        by_raw :
            (o : Option BlockIndexRecord)
            → get_elem? db.block_index.records height ≡ o
            → IsResult (get_raw_block x checks fs r k exact db height)
        by_raw none is = error (block_index_record_not_found height) (rw is refl)
        by_raw (some b) is =
            rw is (read_raw_block-IsResult db.blk_file b.n_file b.n_data_pos (fits b is))
