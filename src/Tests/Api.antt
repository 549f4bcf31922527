-- ===== src/Tests/Api.antt =====
-- The queries of the public interface.
use rusty_bitcoin_explorer.Common.{
  ℕ, ◌≡◌, ◌≢◌, ◌<◌, ◌↔◌, ◌⊎◌, refl, true, false, none, some, List, [], ◌∷◌, ◌++◌, get_elem?, arith,
  drop, replicate,
}
use rusty_bitcoin_explorer.Common.Words.{pos}
use rusty_bitcoin_explorer.Common.Map
use rusty_bitcoin_explorer.Common.Map.{int_key}
use rusty_bitcoin_explorer.Error.{ok, err, block_index_record_not_found}
use rusty_bitcoin_explorer.BlkFile
use rusty_bitcoin_explorer.BlkFile.{
  BlkFile, FileSystem, scan_blocks_dir, scan_entries, resolve_path, add_path, read_xor_mask,
  parse_blk_index, parse_i32, strip_prefix, strip_suffix,
}
use rusty_bitcoin_explorer.BlkFile.Read.{Holds}
use rusty_bitcoin_explorer.BlockIndex.{BlockIndexRecord}
use rusty_bitcoin_explorer.Script.{pay2_multi_sig}
use rusty_bitcoin_explorer.Block.{CompactTxOut, FullTxOut, map_all, full_header, full_tx_out}
use rusty_bitcoin_explorer.Connected.{
  FullConnectedTransaction, FullConnectedBlock, CompactConnectedBlock, all_inputs, connect_txs,
  full_from_tx, full_add_input, take_outputs, add_inputs,
}
use rusty_bitcoin_explorer.Connected.Inputs.{connect_input_lem}
use rusty_bitcoin_explorer.Connected.Connect.{
  connect_input, full_connect_block, connect_block_inputs,
}
use rusty_bitcoin_explorer.Api.{
  BitcoinDb, Databases, new, get_header, get_block_count, get_hash_from_height,
  get_height_from_hash, get_block, get_transaction, get_connected_block, get_connected_transaction,
}
use rusty_bitcoin_explorer.Api.Count.{get_block_count_lem}
use rusty_bitcoin_explorer.Api.Hashes.{get_hash_from_height_iff}
use rusty_bitcoin_explorer.Api.Queries.{get_block_lem, get_transaction_lem}
use rusty_bitcoin_explorer.Api.Connected.{get_connected_transaction-get_connected_block, txdata_of}
use rusty_bitcoin_explorer.Utxo.Formats.{format, full}
use rusty_bitcoin_explorer.Tests.Sample.{
  sample, sample-pushes, block, transaction, File, file_read, file_seek, file_exact, open_disk,
  opened as file_opened, bytes_of,
}
use rusty_bitcoin_explorer.Tests.Files.{file_system, blk_file, disk}
use rusty_bitcoin_explorer.Tests.Index.{index, new-index, entries, second_record}
use rusty_bitcoin_explorer.Tests.Connected.{position, position-IsWritable, tx_db, input, output}
use rusty_bitcoin_explorer.Tests.Scripts.{evaluates}

abbrev db : BitcoinDb
db = record { blk_file = blk_file; block_index = index; tx_db = some tx_db }

get_block_count_lem_example :
    (c : ℕ) × (get_block_count db ≡ ok c)
    × ((h : ℕ) → h < c → (b : BlockIndexRecord) × (get_header db h ≡ ok b) × (b.n_tx ≢ 0))
    × ((get_header db c ≡ err (block_index_record_not_found c))
        ⊎ ((b : BlockIndexRecord) × (get_header db c ≡ ok b) × (b.n_tx ≡ 0)))
get_block_count_lem_example = get_block_count_lem db

get_hash_from_height_iff_example :
    (get_hash_from_height sample db 1 ≡ ok 2) ↔ (get_height_from_hash db 2 ≡ ok 1)
get_hash_from_height_iff_example = get_hash_from_height_iff sample true entries db 1 2 new-index

abbrev pub entry : BlkFile.DirEntry
entry = record { is_symlink = ok false; path = "blk00000.dat" }

-- A folder with one block file and no mask.
abbrev pub folder : FileSystem File
folder = record {
  read_dir = λ path. ok (ok entry ∷ []);
  read_link = λ path. ok path;
  is_file = λ path. true;
  file_name = λ path. some (b'b' ∷ b'l' ∷ b'k' ∷ b'0' ∷ b'.' ∷ b'd' ∷ b'a' ∷ b't' ∷ []);
  exists = λ path. true;
  join = λ path name. name;
  open_file = λ path. ok (open_disk disk);
  read_exact = λ n f. ok (disk, f);
}

abbrev databases : Databases
databases = record {
  open_block_index = λ path. ok entries;
  open_tx_index = λ path. ok (λ key. ok none);
}

scans :
    BlkFile.new folder "blocks"
    ≡ ok (record { files = (pos 0, "blk00000.dat") ∷ []; xor_mask = some disk })
unfolding BlkFile.new scan_blocks_dir scan_entries read_xor_mask parse_blk_index Map.insert
    Map.remove
scans = refl

abbrev opened : BitcoinDb
opened = record {
  blk_file = record { files = (pos 0, "blk00000.dat") ∷ []; xor_mask = some disk };
  block_index = index;
  tx_db = none;
}

opens : new sample true folder file_read file_seek file_exact databases "data" false ≡ ok opened
unfolding new
opens = rw (new-index, scans)

-- Block 7 with its transaction 7, in one file without a mask; the transaction spends its own output.
abbrev pub plain_seven : List ℕ
plain_seven = 1 ∷ 0 ∷ 0 ∷ 0 ∷ 7 ∷ (replicate 80 0 ++ (7 ∷ 0 ∷ []))

abbrev pub one_file : FileSystem File
one_file = record file_system { open_file = λ path. ok (open_disk plain_seven) }

abbrev pub self_spent : BitcoinDb
self_spent = record {
  blk_file = record { files = (pos 0, "blk00000.dat") ∷ []; xor_mask = none };
  block_index = record {
    records = record second_record { n_data_pos = 4 } ∷ [];
    hash_to_height = [];
  };
  tx_db = some tx_db;
}

finds : Map.get self_spent.blk_file.files (pos 0) ≡ some "blk00000.dat"
unfolding Map.get
finds = refl

Holds-seven : Holds one_file file_read file_seek self_spent.blk_file (pos 0) plain_seven
Holds-seven = record {
  path = "blk00000.dat";
  file = open_disk plain_seven;
  found = finds;
  opens = refl;
  opened = file_opened plain_seven;
  mask_bytes = tt;
  plain_bytes = bytes_of plain_seven refl;
}

pub reads_block :
    get_block sample true one_file file_read file_seek file_exact ok self_spent 0 ≡ ok (block 7)
reads_block =
    (get_block_lem sample true one_file file_read file_seek file_exact ok self_spent 0
      (record second_record { n_data_pos = 4 }) plain_seven (1 ∷ 0 ∷ 0 ∷ 0 ∷ []) (7 ∷ [])
      (drop 5 plain_seven) (block 7) refl Holds-seven (omega arith) refl refl refl refl).1

reads_transaction :
    get_transaction sample true one_file file_read file_seek file_exact ok self_spent 7
    ≡ ok (transaction 7)
reads_transaction =
    get_transaction_lem sample true one_file file_read file_seek file_exact ok self_spent tx_db
      position (transaction 7) plain_seven (7 ∷ []) (0 ∷ []) refl refl position-IsWritable refl
      Holds-seven refl refl

pub connects :
    connect_input sample true one_file file_read file_seek file_exact tx_db self_spent.block_index
      self_spent.blk_file input
    ≡ ok (some output)
connects =
    connect_input_lem sample true one_file file_read file_seek file_exact tx_db
      self_spent.block_index self_spent.blk_file input position (transaction 7) plain_seven (7 ∷ [])
      (0 ∷ []) refl refl refl position-IsWritable refl Holds-seven refl refl (omega arith)

abbrev pub out_seven : CompactTxOut
out_seven = record { value = 50; addresses = "address" ∷ [] }

abbrev pub connected_seven : CompactConnectedBlock
connected_seven = record {
  header = record { block_hash = 7; time = 0 };
  txdata = record { txid = 7; input = out_seven ∷ []; output = out_seven ∷ [] } ∷ [];
}

abbrev out_full : FullTxOut
out_full = record {
  value = 50;
  script_pubkey = output.script_pubkey;
  script_type = pay2_multi_sig;
  addresses = "address" ∷ [];
}

abbrev connected_full : FullConnectedBlock
connected_full = record {
  header = full_header (block 7).header 7;
  txdata =
      record {
        version = pos 2;
        lock_time = 7;
        txid = 7;
        input = out_full ∷ [];
        output = out_full ∷ [];
      }
      ∷ [];
}

connects_block :
    get_connected_block sample true one_file file_read file_seek file_exact
      (format sample true one_file file_read file_seek file_exact full)
      self_spent
      0
    ≡ ok connected_full
unfolding get_connected_block full_connect_block connect_block_inputs all_inputs map_all full_header
    connect_txs full_from_tx full_add_input full_tx_out take_outputs add_inputs
connects_block = rw (reads_block, connects, evaluates) refl

get_connected_transaction-get_connected_block_example :
    (ctx : FullConnectedTransaction) × (get_elem?
        (txdata_of sample true one_file file_read file_seek file_exact full connected_full)
        0
      ≡ some ctx)
    × (get_connected_transaction sample true one_file file_read file_seek file_exact
          (format sample true one_file file_read file_seek file_exact full).tx
          self_spent
          7
        ≡ ok ctx)
get_connected_transaction-get_connected_block_example =
    get_connected_transaction-get_connected_block sample true one_file file_read file_seek
      file_exact full self_spent 0 0 (block 7) connected_full (transaction 7) 7 sample-pushes
      connects_block reads_block refl reads_transaction
