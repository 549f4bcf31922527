-- ===== src/Tests/Scan.antt =====
-- Names of block files, a folder, and a query that does not panic.
use rusty_bitcoin_explorer.Common.{
  ℕ, ◌≡◌, ◌↔◌, inr, refl, ap, true, Option, none, some, List, [], ◌∷◌, ◌++◌, get_elem?, arith, zero,
  suc,
}
use rusty_bitcoin_explorer.Common.Words.{ℤ, pos, negsuc}
use rusty_bitcoin_explorer.Common.Map
use rusty_bitcoin_explorer.Common.Map.{Map, int_key}
use rusty_bitcoin_explorer.Error.{ok, err, empty_block_files}
use rusty_bitcoin_explorer.BlockIndex.{BlockIndexRecord}
use rusty_bitcoin_explorer.Xor.{SeekFrom, start, end, current}
use rusty_bitcoin_explorer.BlkFile.{
  FilePath, scan_blocks_dir, resolve_path, index_of_path, parse_blk_index,
}
use rusty_bitcoin_explorer.BlkFile.Parse.{Spells, parse_blk_index_iff}
use rusty_bitcoin_explorer.BlkFile.Name.{blk_bytes, dat_bytes}
use rusty_bitcoin_explorer.BlkFile.Scan.{
  Lead, IsBlkFile, scan_blocks_dir_lem, scan_blocks_dir_empty_iff,
}
use rusty_bitcoin_explorer.Api.{get_block, get_raw_block}
use rusty_bitcoin_explorer.Api.Errors.{IsResult, value, error, HasNoPanic, get_block-IsResult}
use rusty_bitcoin_explorer.Tests.Sample.{sample, File, file_read, file_seek, seek_file, file_exact}
use rusty_bitcoin_explorer.Tests.Api.{one_file, self_spent, entry, folder}

abbrev name : List ℕ
name = b'b' ∷ b'l' ∷ b'k' ∷ b'0' ∷ b'0' ∷ b'0' ∷ b'1' ∷ b'2' ∷ b'.' ∷ b'd' ∷ b'a' ∷ b't' ∷ []

-- The name `blk-1.dat`.
abbrev below_zero : List ℕ
below_zero = b'b' ∷ b'l' ∷ b'k' ∷ b'-' ∷ b'1' ∷ b'.' ∷ b'd' ∷ b'a' ∷ b't' ∷ []

parse_blk_index_iff_example :
    (parse_blk_index below_zero ≡ some (negsuc 0))
    ↔ ((s : List ℕ) × (below_zero ≡ blk_bytes ++ s ++ dat_bytes) × Spells s (negsuc 0))
parse_blk_index_iff_example = parse_blk_index_iff below_zero (negsuc 0)

numbered : index_of_path folder "blk00000.dat" ≡ some (pos 0)
unfolding parse_blk_index
numbered = refl

is_first : IsBlkFile folder (pos 0) "blk00000.dat"
is_first = record { is_file = refl; numbered = numbered }

leads : Lead folder (ok entry ∷ []) ("blk00000.dat" ∷ [])
unfolding resolve_path
leads = ((entry, refl, refl), tt)

only_one :
    (n : ℕ) (p : FilePath)
    → get_elem? ("blk00000.dat" ∷ []) n ≡ some p
    → IsBlkFile folder (pos 0) p
    → p ≡ "blk00000.dat"
only_one zero p at b = cc at
only_one (suc n) p at b = cc at

scan_blocks_dir_lem_example :
    (files : Map ℤ FilePath) × (scan_blocks_dir folder "blocks" ≡ ok files)
    × (Map.get files (pos 0) ≡ some "blk00000.dat")
    × ((j : ℤ) (p : FilePath)
        → Map.get files j ≡ some p
        → (k : ℕ) × (get_elem? ("blk00000.dat" ∷ []) k ≡ some p) × IsBlkFile folder j p)
scan_blocks_dir_lem_example =
    scan_blocks_dir_lem folder "blocks" (ok entry ∷ []) ("blk00000.dat" ∷ []) 0 (pos 0)
      "blk00000.dat" refl leads refl is_first only_one

scan_blocks_dir_empty_iff_example : (scan_blocks_dir folder "blocks" ≡ err empty_block_files) ↔ (
    (n : ℕ) (i : ℤ) (p : FilePath)
    → get_elem? ("blk00000.dat" ∷ []) n ≡ some p
    → ¬ IsBlkFile folder i p)
scan_blocks_dir_empty_iff_example =
    scan_blocks_dir_empty_iff folder "blocks" (ok entry ∷ []) ("blk00000.dat" ∷ []) refl leads

seek_quiet : (target : SeekFrom) (f : File) → IsResult (seek_file target f).0
seek_quiet (start p) f = value p refl
seek_quiet (end n) f = error _ refl
seek_quiet (current n) f = error _ refl

quiet : HasNoPanic sample true one_file file_read file_seek file_exact
quiet = record {
  open_file = λ path. value _ refl;
  seek = seek_quiet;
  stream_position = λ f. value f.place refl;
}

get_block-IsResult_example :
    IsResult (get_block sample true one_file file_read file_seek file_exact ok self_spent 0)
    × IsResult (get_raw_block sample true one_file file_read file_seek file_exact self_spent 0)
get_block-IsResult_example =
    get_block-IsResult sample true one_file file_read file_seek file_exact quiet self_spent 0
      (λ b is.
        let places : 4 ≡ b.n_data_pos =
          ap (λ (o : Option BlockIndexRecord). elim o [ none ↦ 4 | some r ↦ r.n_data_pos ]) is in
        inr (omega (arith, places)))
