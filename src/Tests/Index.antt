-- ===== src/Tests/Index.antt =====
-- The block index and the transaction index on two blocks.
use rusty_bitcoin_explorer.Common.{
  ℕ, zero, suc, ◌≡◌, ◌≢◌, ◌↔◌, refl, true, Option, some, List, [], ◌∷◌, ◌++◌, reverse, arith,
}
use rusty_bitcoin_explorer.Common.Words.{pos, negsuc}
use rusty_bitcoin_explorer.Common.Map
use rusty_bitcoin_explorer.Common.Map.{nat_key}
use rusty_bitcoin_explorer.Error.{Outcome, ok, add_u64}
use rusty_bitcoin_explorer.Reader.{
  read_varint, read_varint_loop, read_u8, accumulate, consensus_decode, read_block_header,
}
use rusty_bitcoin_explorer.Reader.Bytes
use rusty_bitcoin_explorer.Reader.Bytes.{bytes}
use rusty_bitcoin_explorer.Reader.Varint.{write_varint, read_varint-write_varint}
use rusty_bitcoin_explorer.Reader.Total.{Ends, read_varint-Ends}
use rusty_bitcoin_explorer.BlockIndex.{
  BlockIndexRecord, BlockIndex, Loaded, nothing_loaded, is_valid, read_record, read_i32_varint,
  read_u32_varint, decode, is_block_index_record, raise_max, add_record, scan_records, build_chain,
  with_capacity, longest_chain, load_block_index, index_heights, new, u32_max,
}
use rusty_bitcoin_explorer.BlockIndex.Chain.{Descends}
use rusty_bitcoin_explorer.BlockIndex.Load.{
  IsChain, load_block_index-IsChain, scan_records-IsIndexed, nothing-IsIndexed,
}
use rusty_bitcoin_explorer.BlockIndex.Complete.{IsRecorded, longest_chain_iff}
use rusty_bitcoin_explorer.BlockIndex.Heights.{hash_to_height-new}
use rusty_bitcoin_explorer.BlockIndex.Decode.{write_record, decode-write_record}
use rusty_bitcoin_explorer.TxIndex.{
  TransactionPosition, TxDb, genesis_txid, open_db, get_block_height, collect_positions,
}
use rusty_bitcoin_explorer.TxIndex.Lookup.{
  write_position, IsWritablePosition, Distinct, stored, get_block_height_lem,
}
use rusty_bitcoin_explorer.Tests.Sample.{sample, header}

-- The number 300 behind its groups, and one more byte.
read_varint-write_varint_example :
    (s' : List ℕ) × (read_varint bytes true (write_varint 300 ++ (9 ∷ [])) ≡ ok (300, s'))
    × (s' ≡ 9 ∷ [])
read_varint-write_varint_example =
    read_varint-write_varint bytes true 300 (9 ∷ []) (write_varint 300 ++ (9 ∷ [])) (omega arith)
      refl

-- A number whose last group is missing.
read_varint-Ends_example :
    Ends bytes true (0x80 ∷ 0x81 ∷ []) (read_varint bytes true (0x80 ∷ 0x81 ∷ []))
read_varint-Ends_example =
    read_varint-Ends bytes true (0x80 ∷ 0x81 ∷ []) (omega arith, (omega arith, tt))

abbrev pub genesis_record : BlockIndexRecord
genesis_record = record {
  n_version = pos 1;
  n_height = pos 0;
  n_status = 0;
  n_tx = 1;
  n_file = negsuc 0;
  n_data_pos = u32_max;
  n_undo_pos = u32_max;
  block_header = header 1;
}

abbrev pub second_record : BlockIndexRecord
second_record = record {
  n_version = pos 1;
  n_height = pos 1;
  n_status = 13;
  n_tx = 1;
  n_file = pos 0;
  n_data_pos = 8;
  n_undo_pos = u32_max;
  block_header = header 2;
}

-- The second block comes first.
abbrev pub entries : List (List ℕ × List ℕ)
entries =
    (b'b' ∷ 2 ∷ [], 1 ∷ 1 ∷ 13 ∷ 1 ∷ 0 ∷ 8 ∷ 2 ∷ [])
    ∷ (b'F' ∷ [], 0 ∷ [])
    ∷ (b'b' ∷ 1 ∷ [], 1 ∷ 0 ∷ 0 ∷ 1 ∷ 1 ∷ [])
    ∷ []

abbrev pub two_records : List BlockIndexRecord
two_records = genesis_record ∷ second_record ∷ []

abbrev loaded : Loaded
loaded = record {
  block_index_by_block_hash = (1, genesis_record) ∷ (2, second_record) ∷ [];
  max_height_block_hash = some (2, pos 1);
}

decodes : decode sample true (1 ∷ 1 ∷ 13 ∷ 1 ∷ 0 ∷ 8 ∷ 2 ∷ []) ≡ ok second_record
unfolding decode read_record read_i32_varint read_u32_varint read_varint read_varint_loop read_u8
    accumulate add_u64 consensus_decode read_block_header Bytes.read_exact
decodes = refl

scanned : scan_records sample true nothing_loaded entries ≡ ok loaded
unfolding scan_records is_block_index_record add_record raise_max is_valid Map.insert Map.remove
    decode read_record read_i32_varint read_u32_varint read_varint read_varint_loop read_u8
    accumulate add_u64 consensus_decode read_block_header Bytes.read_exact
scanned = refl

built : longest_chain true loaded ≡ ok two_records
unfolding longest_chain build_chain with_capacity add_u64 Map.get Map.remove
built = refl

loads : load_block_index sample true (ok entries) ≡ ok two_records
unfolding load_block_index
loads = rw (scanned, built)

load_block_index-IsChain_example : IsChain sample two_records
load_block_index-IsChain_example = load_block_index-IsChain sample true entries two_records loads

longest_chain_iff_example : (longest_chain true loaded ≡ ok two_records) ↔ (
    (chain : List BlockIndexRecord) × Descends sample
      (IsRecorded sample loaded.block_index_by_block_hash)
      2
      2
      chain
    × (two_records ≡ reverse chain))
longest_chain_iff_example =
    longest_chain_iff sample true loaded 2 1 two_records
      (scan_records-IsIndexed sample true entries nothing_loaded loaded scanned
        (nothing-IsIndexed sample true))
      refl (omega arith)

abbrev pub index : BlockIndex
index = record { records = two_records; hash_to_height = (2, pos 1) ∷ (1, pos 0) ∷ [] }

heights : index_heights sample two_records ≡ (2, pos 1) ∷ (1, pos 0) ∷ []
unfolding index_heights Map.collect Map.insert Map.remove
heights = refl

pub new-index : new sample true (ok entries) ≡ ok index
unfolding new
new-index = rw (loads, heights)

hash_to_height-new_example : Map.get index.hash_to_height 2 ≡ some (pos 1)
hash_to_height-new_example =
    hash_to_height-new sample true entries index 1 second_record new-index refl

decode-write_record_example :
    decode sample true (write_record second_record (2 ∷ [])) ≡ ok second_record
decode-write_record_example =
    decode-write_record sample true second_record (2 ∷ [])
      (record {
        version = omega arith;
        height = omega arith;
        status = omega arith;
        tx = omega arith;
        file = omega arith;
        data_pos = omega arith;
        undo_pos = omega arith;
        no_file = tt;
        no_data = tt;
        no_undo = refl;
      })
      refl

abbrev position : TransactionPosition
position = record { txid = 5; n_file = pos 0; n_data_pos = 8; n_tx_offset = 1 }

position-IsWritable : IsWritablePosition position
position-IsWritable = record { file = omega arith; data_pos = omega arith; tx_offset = omega arith }

abbrev db : List ℕ → Outcome (Option (List ℕ))
db key = ok (some (write_position position))

abbrev tx_db : TxDb
tx_db = record {
  db = db;
  file_pos_to_height = collect_positions two_records;
  genesis_txid = genesis_txid;
}

distinct : Distinct two_records
distinct zero zero a b ea eb same = refl
distinct zero (suc zero) a b ea eb same = cc
distinct zero (suc (suc j)) a b ea eb same = cc eb
distinct (suc zero) zero a b ea eb same = cc
distinct (suc zero) (suc zero) a b ea eb same = refl
distinct (suc zero) (suc (suc j)) a b ea eb same = cc eb
distinct (suc (suc i)) j a b ea eb same = cc ea

other : 5 ≢ genesis_txid
other e = omega arith

opens : open_db true (ok db) index ≡ some tx_db
unfolding open_db
opens = refl

get_block_height_lem_example : get_block_height sample true tx_db 5 ≡ ok 1
get_block_height_lem_example =
    get_block_height_lem sample true db index tx_db 5 1 opens
      (load_block_index-IsChain sample true entries two_records loads) distinct
      (stored position 1 second_record other position-IsWritable refl refl refl)
