-- ===== src/BlockIndex/Decode.antt =====
-- `BlockIndexRecord::decode` reads back what Bitcoin Core writes for a block.
use rusty_bitcoin_explorer.Common.{
  ℕ, ◌-◌, ◌^◌, ◌<◌, ◌≡◌, refl, sym, ap, ◌∙◌, append-nil, length, Bool, true, false, List, [], ◌++◌,
  arith, ◌||◌,
}
use rusty_bitcoin_explorer.Common.Bits.{has_digit, third_digit, fourth_digit, either_digit}
use rusty_bitcoin_explorer.Common.Words.{ℤ, pos, negsuc, as_i32, IsU32, IsU64}
use rusty_bitcoin_explorer.Error.{ok}
use rusty_bitcoin_explorer.External.{External, decoded}
use rusty_bitcoin_explorer.Reader.{Stream, Reads, read_block_header}
use rusty_bitcoin_explorer.Reader.Bytes.{bytes}
use rusty_bitcoin_explorer.Reader.Exact.{consensus_decode-append}
use rusty_bitcoin_explorer.Reader.Varint.{write_varint, read_varint-write_varint}
use rusty_bitcoin_explorer.BlockIndex.{
  BlockIndexRecord, u32_max, read_if, read_i32_varint, read_u32_varint, read_record, decode,
}

-- A height or file number as Bitcoin Core writes it: the i32, extended to 64 bits.
abbrev pub IsI32 : ℤ → Type 0
IsI32 (pos n) = n < 2 ^ 31
IsI32 (negsuc n) = n < 2 ^ 31

abbrev pub extend : ℤ → ℕ
extend (pos n) = n
extend (negsuc n) = 2 ^ 64 - 1 - n

abbrev write_if : Bool → List ℕ → List ℕ
write_if true bs = bs
write_if false bs = []

-- Bitcoin Core has `BLOCK_HAVE_DATA` in the third binary digit of the status, counted from zero, and
-- `BLOCK_HAVE_UNDO` in the fourth.
abbrev pub have_data : ℕ → Bool
have_data status = has_digit status 3

abbrev pub have_undo : ℕ → Bool
have_undo status = has_digit status 4

-- `CDiskBlockIndex` of Bitcoin Core, with the bytes of the header behind it.
unfoldable pub write_record : BlockIndexRecord → List ℕ → List ℕ
write_record b header_bytes =
    write_varint (extend b.n_version)
    ++ (write_varint (extend b.n_height)
        ++ (write_varint b.n_status
            ++ (write_varint b.n_tx
                ++ (write_if (have_data b.n_status || have_undo b.n_status)
                      (write_varint (extend b.n_file))
                    ++ (write_if (have_data b.n_status) (write_varint b.n_data_pos)
                        ++ (write_if (have_undo b.n_status) (write_varint b.n_undo_pos)
                            ++ header_bytes))))))

-- A field that its flag leaves out has the value that the reader puts there.
abbrev pub IsDefault : {A : Type 0} → Bool → A → A → Type 0
IsDefault true a d = Unit
IsDefault false a d = a ≡ d

pub record IsWritable (b : BlockIndexRecord) : Type 0 where
  pub version : IsI32 b.n_version
  pub height : IsI32 b.n_height
  pub status : IsU32 b.n_status
  pub tx : IsU32 b.n_tx
  pub file : IsI32 b.n_file
  pub data_pos : IsU32 b.n_data_pos
  pub undo_pos : IsU32 b.n_undo_pos
  pub no_file : IsDefault (have_data b.n_status || have_undo b.n_status) b.n_file (negsuc 0)
  pub no_data : IsDefault (have_data b.n_status) b.n_data_pos (2 ^ 32 - 1)
  pub no_undo : IsDefault (have_undo b.n_status) b.n_undo_pos (2 ^ 32 - 1)

as_i32-extend : (z : ℤ) → IsI32 z → as_i32 (extend z) ≡ z
as_i32-extend (pos n) h = ground arith
as_i32-extend (negsuc n) h = ground arith

extend-IsU64 : (z : ℤ) → IsI32 z → IsU64 (extend z)
extend-IsU64 (pos n) h = omega arith
extend-IsU64 (negsuc n) h = omega arith

module _ {S : Type 0} (x : External) (r : Stream S) (checks : Bool) where
  open r use {remaining}

  pub read_i32_varint-append :
      (z : ℤ) (rest : List ℕ) (s : S)
      → IsI32 z
      → remaining s ≡ write_varint (extend z) ++ rest
      → (s' : S) × (read_i32_varint x r checks s ≡ ok (z, s')) × (remaining s' ≡ rest)
  unfolding read_i32_varint
  read_i32_varint-append z rest s h e =
      let (s', run, left) =
        read_varint-write_varint r checks (extend z) rest s (extend-IsU64 z h) e in
      (s', rw run (ap (λ v. ok (v, s')) (as_i32-extend z h)), left)

  pub read_u32_varint-append :
      (n : ℕ) (rest : List ℕ) (s : S)
      → IsU32 n
      → remaining s ≡ write_varint n ++ rest
      → (s' : S) × (read_u32_varint x r checks s ≡ ok (n, s')) × (remaining s' ≡ rest)
  unfolding read_u32_varint
  read_u32_varint-append n rest s h e =
      let (s', run, left) = read_varint-write_varint r checks n rest s (omega arith) e in
      (s', rw run (ap (λ v. ok (v, s')) (omega arith)), left)

  read_if-append :
      {A : Type 0} (flag : Bool) (read : Reads S A) (a otherwise : A) (bs rest : List ℕ) (s : S)
      → IsDefault flag a otherwise
      → ((t : S)
          → remaining t ≡ bs ++ rest
          → (t' : S) × (read t ≡ ok (a, t')) × (remaining t' ≡ rest))
      → remaining s ≡ write_if flag bs ++ rest
      → (s' : S) × (read_if flag read otherwise s ≡ ok (a, s')) × (remaining s' ≡ rest)
  read_if-append true read a otherwise bs rest s d h e = h s e
  read_if-append false read a otherwise bs rest s d h e = (s, rw d refl, e)

module _ (x : External) (checks : Bool) where
  -- A record that a database of Bitcoin Core can hold is decoded to itself from the bytes that
  -- Bitcoin Core writes for it, its header being what the header's bytes decode to.
  pub decode-write_record :
      (b : BlockIndexRecord) (header_bytes : List ℕ)
      → IsWritable b
      → x.decode_header header_bytes ≡ decoded b.block_header (length header_bytes)
      → decode x checks (write_record b header_bytes) ≡ ok b
  unfolding decode read_record write_record read_block_header
  decode-write_record b hb w hd =
      let (s₁, run₁, e₁) = read_i32_varint-append x bytes checks b.n_version _ _ w.version refl in
      let (s₂, run₂, e₂) = read_i32_varint-append x bytes checks b.n_height _ s₁ w.height e₁ in
      let (s₃, run₃, e₃) = read_u32_varint-append x bytes checks b.n_status _ s₂ w.status e₂ in
      let (s₄, run₄, e₄) = read_u32_varint-append x bytes checks b.n_tx _ s₃ w.tx e₃ in
      let (s₅, run₅, e₅) =
        read_if-append x bytes checks (have_data b.n_status || have_undo b.n_status)
          (read_i32_varint x bytes checks) b.n_file (negsuc 0) (write_varint (extend b.n_file)) _ s₄
          w.no_file (λ t. read_i32_varint-append x bytes checks b.n_file _ t w.file) e₄ in
      let (s₆, run₆, e₆) =
        read_if-append x bytes checks (have_data b.n_status) (read_u32_varint x bytes checks)
          b.n_data_pos u32_max (write_varint b.n_data_pos) _ s₅ w.no_data
          (λ t. read_u32_varint-append x bytes checks b.n_data_pos _ t w.data_pos) e₅ in
      let (s₇, run₇, e₇) =
        read_if-append x bytes checks (have_undo b.n_status) (read_u32_varint x bytes checks)
          b.n_undo_pos u32_max (write_varint b.n_undo_pos) hb s₆ w.no_undo
          (λ t. read_u32_varint-append x bytes checks b.n_undo_pos hb t w.undo_pos) e₆ in
      let third = third_digit b.n_status in
      let fourth = fourth_digit b.n_status in
      let either = either_digit b.n_status in
      let (s₈, run₈, e₈) =
        consensus_decode-append x bytes x.decode_header b.block_header hb [] s₇
          (ap x.decode_header e₇ ∙ hd) (e₇ ∙ sym (append-nil hb)) in
      rw (run₁, run₂, run₃, run₄, either, run₅, third, run₆, fourth, run₇, run₈)
