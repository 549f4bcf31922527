-- ===== src/BlkFile.antt =====
-- src/parser/blk_file.rs: the index of the blk*.dat files and the reads of blocks and transactions.
-- The file system is a record of functions.
pub mod Name
unfoldable pub use Name.{parse_i32, strip_prefix, strip_suffix, parse_blk_index}
pub mod Read
pub mod Parse
pub mod Scan
use rusty_bitcoin_explorer.Common.{
  ℕ, zero, suc, ◌+◌, ◌-◌, ◌^◌, String, Bool, true, false, not, Option, none, some, List, [], ◌∷◌,
  leb, if◌then◌else◌,
}
use rusty_bitcoin_explorer.Common.Words.{ℤ}
use rusty_bitcoin_explorer.Common.Map
use rusty_bitcoin_explorer.Common.Map.{Map, int_key}
use rusty_bitcoin_explorer.Error.{
  Error, Outcome, ok, err, panic, stuck, ◌>>=◌, block_file_not_found, empty_block_files,
}
use rusty_bitcoin_explorer.External.{External, Block, Transaction}
use rusty_bitcoin_explorer.Reader
use rusty_bitcoin_explorer.Reader.{ReadExact, Stream, stream}
use rusty_bitcoin_explorer.Reader.Bytes.{bytes}
use rusty_bitcoin_explorer.Xor
use rusty_bitcoin_explorer.Xor.{XorReader, Seek, SeekFrom, start, xor_mask_len}
use rusty_bitcoin_explorer.Xor.Laws.{xor_read}

abbrev pub header_size : ℕ
header_size = 80

abbrev pub FilePath : Type 0
FilePath = String

-- `std::fs`: a directory entry is what the source asks of it. A path's file name is given by its
-- bytes, where it is valid UTF-8.
pub record DirEntry : Type 0 where
  pub is_symlink : Outcome Bool
  pub path : FilePath

pub record FileSystem (F : Type 0) : Type 0 where
  pub read_dir : FilePath → Outcome (List (Outcome DirEntry))
  pub read_link : FilePath → Outcome FilePath
  pub is_file : FilePath → Bool
  pub file_name : FilePath → Option (List ℕ)
  pub exists : FilePath → Bool
  pub join : FilePath → String → FilePath
  pub open_file : FilePath → Outcome F
  pub read_exact : ℕ → F → Outcome (List ℕ × F)

pub record BlkFile : Type 0 where
  pub files : Map ℤ FilePath
  pub xor_mask : Option (List ℕ)

module _ {F : Type 0} (fs : FileSystem F) where
  unfoldable pub resolve_path : DirEntry → Outcome FilePath
  resolve_path entry = do
    symlink ← entry.is_symlink
    if symlink then fs.read_link entry.path else ok entry.path

  abbrev pub index_of_path : FilePath → Option ℤ
  index_of_path path = elim (fs.file_name path) [ none ↦ none | some name ↦ parse_blk_index name ]

  -- The loop's body, after the entry's path is known.
  unfoldable pub add_path : Map ℤ FilePath → FilePath → Map ℤ FilePath
  add_path blk_files path =
      if fs.is_file path
      then (elim (index_of_path path) [
        | some index ↦ Map.insert blk_files index path
        | none ↦ blk_files
      ])
      else blk_files

  unfoldable pub scan_entries : Map ℤ FilePath → List (Outcome DirEntry) → Outcome (Map ℤ FilePath)
  unfolding resolve_path add_path
  scan_entries blk_files [] = ok blk_files
  scan_entries blk_files (entry ∷ entries) = do
    e ← entry
    path ← resolve_path e
    scan_entries (add_path blk_files path) entries

  abbrev not_empty : Map ℤ FilePath → Outcome (Map ℤ FilePath)
  not_empty [] = err empty_block_files
  not_empty (f ∷ fs) = ok (f ∷ fs)

  unfoldable pub scan_blocks_dir : FilePath → Outcome (Map ℤ FilePath)
  scan_blocks_dir blocks_dir = do
    entries ← fs.read_dir blocks_dir
    blk_files ← scan_entries [] entries
    not_empty blk_files

  unfoldable pub read_xor_mask : FilePath → Outcome (Option (List ℕ))
  read_xor_mask blocks_dir =
      let path = fs.join blocks_dir "xor.dat" in
      if fs.exists path
      then (do
        file ← fs.open_file path
        (buf, file') ← fs.read_exact xor_mask_len file
        ok (some buf))
      else ok none

  unfoldable pub new : FilePath → Outcome BlkFile
  new path = do
    xor_mask ← read_xor_mask path
    files ← scan_blocks_dir path
    ok (record { files = files; xor_mask = xor_mask })

-- `a - b` on u64; the flag is that of `add_u64`.
unfoldable pub sub_u64 : Bool → ℕ → ℕ → Outcome ℕ
sub_u64 checks a b = if leb b a then ok (a - b) else if checks then panic else ok (a + 2 ^ 64 - b)

abbrev pub ok_or : {A : Type 0} → Option A → Error → Outcome A
ok_or none e = err e
ok_or (some a) e = ok a

-- The readers over opened files: `read` and `Seek` of a file, and the `read_exact` that is
-- provided for `XorReader`.
module _ {F : Type 0} (x : External) (checks : Bool) (fs : FileSystem F) (r : Reader.Read F)
    (k : Seek F) (exact : ReadExact (xor_read r)) where
  abbrev pub xor_stream : Stream (XorReader F)
  xor_stream = stream (xor_read r) exact

  unfoldable pub read_raw_block : BlkFile → ℤ → ℕ → Outcome (List ℕ)
  unfolding sub_u64
  read_raw_block b n_file offset = do
    blk_path ← ok_or (Map.get b.files n_file) (block_file_not_found n_file)
    file ← fs.open_file blk_path
    p ← sub_u64 checks offset 4
    let sought = Xor.seek k (start p) (Xor.new file b.xor_mask)
    _ ← sought.0
    (block_size, s) ← Reader.read_u32 x xor_stream sought.1
    (block, s') ← Reader.read_vec_u8 xor_stream block_size s
    ok block

  unfoldable pub read_block : BlkFile → ℤ → ℕ → Outcome Block
  read_block b n_file offset = do
    raw ← read_raw_block b n_file offset
    (block, s) ← Reader.read_block x bytes raw
    ok block

  unfoldable pub read_transaction : BlkFile → ℤ → ℕ → ℕ → Outcome Transaction
  read_transaction b n_file n_pos n_tx_offset = do
    blk_path ← ok_or (Map.get b.files n_file) (block_file_not_found n_file)
    file ← fs.open_file blk_path
    let sought = Xor.seek k (start (n_pos + n_tx_offset + header_size)) (Xor.new file b.xor_mask)
    _ ← sought.0
    (tx, s) ← Reader.read_transaction x xor_stream sought.1
    ok tx
