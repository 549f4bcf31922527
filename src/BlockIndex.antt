-- ===== src/BlockIndex.antt =====
-- src/parser/block_index.rs: the block index records, and the chain that is built from the
-- entries of the LevelDB database. The database is the list of entries that its iterator yields.
pub mod Chain
pub mod Load
pub mod Complete
pub mod Decode
pub mod Heights
use rusty_bitcoin_explorer.Common.{
  ℕ, zero, suc, ◌-◌, ◌*◌, ◌^◌, Bool, true, false, Option, none, some, List, [], ◌∷◌, ◌++◌, bit_and,
  bit_or, ltb, leb, ◌==◌, ◌&&◌, ◌||◌, if◌then◌else◌, reverse,
}
use rusty_bitcoin_explorer.Common.Words.{ℤ, pos, negsuc, as_i32, as_u32, as_usize, eq_ℤ, ltb_ℤ}
use rusty_bitcoin_explorer.Common.Map
use rusty_bitcoin_explorer.Common.Map.{Map, nat_key}
use rusty_bitcoin_explorer.Error
use rusty_bitcoin_explorer.Error.{Outcome, ok, err, panic, stuck, assert, add_u64}
use rusty_bitcoin_explorer.External.{External, Hash, BlockHeader}
use rusty_bitcoin_explorer.Reader.{Stream, Reads, ◌>>=◌, pure, read_varint, read_block_header}
use rusty_bitcoin_explorer.Reader.Bytes.{bytes}

abbrev pub block_valid_header : ℕ
block_valid_header = 1

abbrev pub block_valid_tree : ℕ
block_valid_tree = 2

abbrev pub block_valid_transactions : ℕ
block_valid_transactions = 3

abbrev pub block_valid_chain : ℕ
block_valid_chain = 4

abbrev pub block_valid_scripts : ℕ
block_valid_scripts = 5

abbrev pub block_valid_mask : ℕ
block_valid_mask = bit_or block_valid_header (
    bit_or block_valid_tree
      (bit_or block_valid_transactions (bit_or block_valid_chain block_valid_scripts)))

abbrev pub block_have_data : ℕ
block_have_data = 8

abbrev pub block_have_undo : ℕ
block_have_undo = 16

abbrev pub u32_max : ℕ
u32_max = 2 ^ 32 - 1

pub record BlockIndexRecord : Type 0 where
  pub n_version : ℤ
  pub n_height : ℤ
  pub n_status : ℕ
  pub n_tx : ℕ
  pub n_file : ℤ
  pub n_data_pos : ℕ
  pub n_undo_pos : ℕ
  pub block_header : BlockHeader

unfoldable pub is_valid : BlockIndexRecord → Bool
is_valid b =
    eq_ℤ b.n_height (pos 0)
    || leb block_valid_scripts (bit_and b.n_status block_valid_mask)
      && ltb 0 (bit_and b.n_status block_have_data)

abbrev pub has_flag : ℕ → ℕ → Bool
has_flag status flag = ltb 0 (bit_and status flag)

-- A field that is read only under a flag.
abbrev pub read_if : {S A : Type 0} → Bool → Reads S A → A → Reads S A
read_if true read otherwise = read
read_if false read otherwise = pure otherwise

module _ {S : Type 0} (x : External) (r : Stream S) (checks : Bool) where
  unfoldable pub read_i32_varint : Reads S ℤ
  read_i32_varint = do n ← read_varint r checks; pure (as_i32 n)

  unfoldable pub read_u32_varint : Reads S ℕ
  read_u32_varint = do n ← read_varint r checks; pure (as_u32 n)

  unfoldable pub read_record : Reads S BlockIndexRecord
  read_record = do
    n_version ← read_i32_varint
    n_height ← read_i32_varint
    n_status ← read_u32_varint
    n_tx ← read_u32_varint
    n_file ←
        read_if (has_flag n_status (bit_or block_have_data block_have_undo)) read_i32_varint
          (negsuc 0)
    n_data_pos ← read_if (has_flag n_status block_have_data) read_u32_varint u32_max
    n_undo_pos ← read_if (has_flag n_status block_have_undo) read_u32_varint u32_max
    block_header ← read_block_header x r
    pure (record {
      n_version = n_version;
      n_height = n_height;
      n_status = n_status;
      n_tx = n_tx;
      n_file = n_file;
      n_data_pos = n_data_pos;
      n_undo_pos = n_undo_pos;
      block_header = block_header;
    })

module _ (x : External) (checks : Bool) where
  -- `Cursor::new(values)` and the reads of the fields.
  unfoldable pub decode : List ℕ → Outcome BlockIndexRecord
  decode values = Error.◌>>=◌ (read_record x bytes checks values) (λ p. ok p.0)

-- `data.first() == Some(&b'b')`
unfoldable pub is_block_index_record : List ℕ → Bool
is_block_index_record [] = false
is_block_index_record (b ∷ bs) = b == b'b'

abbrev pub Records : Type 0
Records = Map Hash BlockIndexRecord

-- The variables of the loop over the database.
pub record Loaded : Type 0 where
  pub block_index_by_block_hash : Records
  pub max_height_block_hash : Option (Hash × ℤ)

unfoldable pub raise_max : Option (Hash × ℤ) → Hash → ℤ → Option (Hash × ℤ)
raise_max none block_hash n_height = some (block_hash, n_height)
raise_max (some (hash, height)) block_hash n_height =
    if ltb_ℤ height n_height then some (block_hash, n_height) else some (hash, height)

abbrev pub nothing_loaded : Loaded
nothing_loaded = record { block_index_by_block_hash = []; max_height_block_hash = none }

-- `while current_height >= 0`; the number is `current_height + 1`, the rounds that are left.
unfoldable pub build_chain :
    ℕ → Hash → Records → List BlockIndexRecord → Outcome (List BlockIndexRecord)
build_chain zero current_hash m block_index = ok block_index
build_chain (suc current_height) current_hash m block_index = elim (Map.get m current_hash) [
  | none ↦ panic
  | some blk ↦ Error.◌>>◌ (assert (eq_ℤ (pos current_height) blk.n_height)) (
      build_chain current_height blk.block_header.prev_blockhash (Map.remove m current_hash)
        (block_index ++ blk ∷ []))
]

abbrev pub rounds : ℤ → ℕ
rounds (pos h) = suc h
rounds (negsuc h) = 0

-- `Vec::with_capacity(n)` panics beyond `isize::MAX` bytes; a record takes 108 of them.
unfoldable pub with_capacity : ℕ → Outcome (Unit {0})
with_capacity n = assert (ltb (n * 108) (2 ^ 63))

-- What follows the loop over the database. The flag is that of `add_u64`.
unfoldable pub longest_chain : Bool → Loaded → Outcome (List BlockIndexRecord)
unfolding with_capacity add_u64
longest_chain checks l = elim l.max_height_block_hash [
  | none ↦ ok []
  | some (hash, height) ↦ Error.◌>>=◌ (add_u64 checks (as_usize height) 1) (λ capacity.
      Error.◌>>◌ (with_capacity capacity) (
        Error.◌>>=◌ (build_chain (rounds height) hash l.block_index_by_block_hash [])
          (λ block_index. ok (reverse block_index))))
]

pub record BlockIndex : Type 0 where
  pub records : List BlockIndexRecord
  pub hash_to_height : Map Hash ℤ

module _ (x : External) where
  abbrev pub hash_of : BlockIndexRecord → Hash
  hash_of b = x.block_hash b.block_header

  -- The body of the loop over the database, for one record.
  unfoldable pub add_record : Loaded → BlockIndexRecord → Loaded
  unfolding raise_max
  add_record l b =
      if is_valid b
      then record {
        block_index_by_block_hash = Map.insert l.block_index_by_block_hash (hash_of b) b;
        max_height_block_hash = raise_max l.max_height_block_hash (hash_of b) b.n_height;
      }
      else l

  -- `for b in records.iter()`
  unfoldable pub index_heights : List BlockIndexRecord → Map Hash ℤ
  index_heights records = Map.collect hash_of (λ b. b.n_height) [] records

module _ (x : External) (checks : Bool) where
  -- `while iter.advance()`
  unfoldable pub scan_records : Loaded → List (List ℕ × List ℕ) → Outcome Loaded
  scan_records l [] = ok l
  scan_records l ((k, v) ∷ entries) =
      let rest = λ (b : BlockIndexRecord). scan_records (add_record x l b) entries in
      let skip = scan_records l entries in
      if is_block_index_record k then Error.◌>>=◌ (decode x checks v) rest else skip

  -- `db` is what `Database::open` gave: the entries in the iterator's order, or an error.
  unfoldable pub load_block_index :
      Outcome (List (List ℕ × List ℕ)) → Outcome (List BlockIndexRecord)
  load_block_index db =
      Error.◌>>=◌ db
        (λ entries. Error.◌>>=◌ (scan_records nothing_loaded entries) (longest_chain checks))

  unfoldable pub new : Outcome (List (List ℕ × List ℕ)) → Outcome BlockIndex
  unfolding index_heights
  new db =
      Error.◌>>=◌ (load_block_index db)
        (λ records. ok (record { records = records; hash_to_height = index_heights x records }))
