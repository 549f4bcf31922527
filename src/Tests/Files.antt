-- ===== src/Tests/Files.antt =====
-- The readers on a masked file.
use rusty_bitcoin_explorer.Common.{
  ℕ, ◌≡◌, refl, true, none, some, List, [], ◌∷◌, ◌++◌, ◌<◌, ◌≤◌, ◌⊎◌, length, drop, replicate,
  arith,
}
use rusty_bitcoin_explorer.Common.Words.{pos}
use rusty_bitcoin_explorer.Common.Map
use rusty_bitcoin_explorer.Common.Map.{int_key}
use rusty_bitcoin_explorer.Error.{ok, err, bitcoin_io}
use rusty_bitcoin_explorer.Xor.{
  XorReader, start, unmask, xor_bytes, mask_byte, read, refill, fill_buf, consume, seek,
}
use rusty_bitcoin_explorer.Xor
use rusty_bitcoin_explorer.Xor.Laws.{
  plain_remaining, seek-new, read_skips_buffer, buffered_remaining,
}
use rusty_bitcoin_explorer.BlkFile.{FileSystem, BlkFile, read_block, read_transaction}
use rusty_bitcoin_explorer.BlkFile.Read.{Holds, read_block_lem, read_transaction_lem}
use rusty_bitcoin_explorer.Tests.Sample.{
  sample, block, transaction, File, open_disk, file_read, file_seek, file_exact, opened, bytes_of,
  IsMask-of,
}

abbrev pub mask : List ℕ
mask = 1 ∷ 2 ∷ 3 ∷ 4 ∷ 5 ∷ 6 ∷ 7 ∷ 8 ∷ []

-- A block of one byte behind its size, and a transaction of one byte behind the block's header.
abbrev pub plain : List ℕ
plain = 1 ∷ 0 ∷ 0 ∷ 0 ∷ 7 ∷ (replicate 80 0 ++ (9 ∷ 0 ∷ []))

abbrev pub disk : List ℕ
disk = unmask (some mask) 0 plain

seek-new_example :
    (s : XorReader File) × (seek file_seek (start 4) (Xor.new (open_disk disk) (some mask))
      ≡ (ok 4, s))
    × (plain_remaining file_read s ≡ drop 4 plain)
    × (s.buffer ≡ [])
seek-new_example =
    seek-new file_read file_seek (some mask) plain (open_disk disk) 4 (IsMask-of mask refl)
      (bytes_of plain refl) (opened disk)

-- A masked file of three bytes.
abbrev short : XorReader File
short = record { inner = open_disk (8 ∷ 8 ∷ 8 ∷ []); pos = 0; mask = some mask; buffer = [] }

abbrev filled : XorReader File
filled = record {
  inner = record { disk = 8 ∷ 8 ∷ 8 ∷ []; place = 4096; left = [] };
  pos = 3;
  mask = some mask;
  buffer = 9 ∷ 10 ∷ 11 ∷ [];
}

read_skips_buffer_example :
    (out : List ℕ) × (s' : XorReader File) × (read file_read 1 filled ≡ ok (out, s'))
    × (s'.buffer ≡ 9 ∷ 10 ∷ 11 ∷ [])
    × (buffered_remaining file_read filled
        ≡ (9 ∷ 10 ∷ 11 ∷ []) ++ (out ++ plain_remaining file_read s'))
    × (buffered_remaining file_read s' ≡ (9 ∷ 10 ∷ 11 ∷ []) ++ plain_remaining file_read s')
    × (length out ≤ 1)
    × ((plain_remaining file_read filled ≡ []) ⊎ (0 < length out))
read_skips_buffer_example = read_skips_buffer file_read 1 filled 9 (10 ∷ 11 ∷ []) (omega arith) refl

abbrev pub file_system : FileSystem File
file_system = record {
  read_dir = λ path. ok [];
  read_link = λ path. ok path;
  is_file = λ path. true;
  file_name = λ path. none;
  exists = λ path. true;
  join = λ path name. name;
  open_file = λ path. ok (open_disk disk);
  read_exact = λ n f. err (bitcoin_io "unused");
}

abbrev pub blk_file : BlkFile
blk_file = record { files = (pos 0, "blk00000.dat") ∷ []; xor_mask = some mask }

found : Map.get blk_file.files (pos 0) ≡ some "blk00000.dat"
unfolding Map.get
found = refl

pub holds : Holds file_system file_read file_seek blk_file (pos 0) plain
holds = record {
  path = "blk00000.dat";
  file = open_disk disk;
  found = found;
  opens = refl;
  opened = opened disk;
  mask_bytes = IsMask-of mask refl;
  plain_bytes = bytes_of plain refl;
}

read_block_lem_example :
    read_block sample true file_system file_read file_seek file_exact blk_file (pos 0) 4
    ≡ ok (block 7)
read_block_lem_example =
    read_block_lem sample true file_system file_read file_seek file_exact blk_file (pos 0) plain 4
      (1 ∷ 0 ∷ 0 ∷ 0 ∷ []) (7 ∷ []) (drop 5 plain) (block 7) holds (omega arith) refl refl refl refl

read_transaction_lem_example :
    read_transaction sample true file_system file_read file_seek file_exact blk_file (pos 0) 4 1
    ≡ ok (transaction 9)
read_transaction_lem_example =
    read_transaction_lem sample true file_system file_read file_seek file_exact blk_file (pos 0)
      plain 4 1 (9 ∷ []) (0 ∷ []) (transaction 9) holds refl refl
