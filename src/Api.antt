-- ===== src/Api.antt =====
-- src/api.rs: `BitcoinDB` and its queries. `Arc` only shares the value, which no query changes.
pub mod Count
pub mod Hashes
pub mod Queries
pub mod Errors
pub mod Connected
use rusty_bitcoin_explorer.Common.{
  ℕ, zero, suc, ◌+◌, String, Bool, true, false, Option, none, some, List, length, get_elem?, ◌==◌,
  if◌then◌else◌,
}
use rusty_bitcoin_explorer.Common.Words.{as_usize}
use rusty_bitcoin_explorer.Common.Map
use rusty_bitcoin_explorer.Common.Map.{nat_key}
use rusty_bitcoin_explorer.Error.{
  Outcome, ok, err, panic, ◌>>=◌, bitcoin_data_dir_does_not_exist, block_index_record_not_found,
  block_hash_not_found, tx_db_unavailable,
}
use rusty_bitcoin_explorer.External.{External, Hash, Script, Block, Transaction, bitcoin}
use rusty_bitcoin_explorer.Script.{ScriptInfo, evaluate_script}
use rusty_bitcoin_explorer.Reader.{Read, ReadExact}
use rusty_bitcoin_explorer.Xor.{Seek}
use rusty_bitcoin_explorer.Xor.Laws.{xor_read}
use rusty_bitcoin_explorer.BlkFile
use rusty_bitcoin_explorer.BlkFile.{
  FilePath, FileSystem, BlkFile, ok_or, read_raw_block, read_block, read_transaction,
}
use rusty_bitcoin_explorer.BlockIndex
use rusty_bitcoin_explorer.BlockIndex.{BlockIndex, BlockIndexRecord, hash_of}
use rusty_bitcoin_explorer.TxIndex
use rusty_bitcoin_explorer.TxIndex.{TxDb, open_db, is_genesis_tx, get_tx_position}
use rusty_bitcoin_explorer.Connected.{ConnectedTx, ConnectedBlock, swap_remove}

-- `InnerDB`
pub record BitcoinDb : Type 0 where
  pub blk_file : BlkFile
  pub block_index : BlockIndex
  pub tx_db : Option TxDb

-- `Database::open` of LevelDB, for the block index and for the transaction index.
pub record Databases : Type 0 where
  pub open_block_index : FilePath → Outcome (List (List ℕ × List ℕ))
  pub open_tx_index : FilePath → Outcome (List ℕ → Outcome (Option (List ℕ)))

-- The hex decoding of `ScriptBuf::from_hex` is a parameter.
unfoldable pub get_addresses_from_script :
    External → (String → Outcome Script) → String → Outcome ScriptInfo
get_addresses_from_script x from_hex script_pub_key = do
  script_buf ← from_hex script_pub_key
  evaluate_script x script_buf bitcoin

unfoldable pub parse_script : External → (String → Outcome Script) → String → Outcome ScriptInfo
unfolding get_addresses_from_script
parse_script x from_hex script_pub_key = get_addresses_from_script x from_hex script_pub_key

unfoldable pub get_max_height : BitcoinDb → ℕ
get_max_height db = length db.block_index.records

-- The loop over the heights: the height that is next, and how many are left.
unfoldable pub count_blocks : List BlockIndexRecord → ℕ → ℕ → Outcome ℕ
count_blocks records h zero = ok h
count_blocks records h (suc left) = elim (get_elem? records h) [
  | none ↦ panic
  | some b ↦ elim (b.n_tx == 0) [ true ↦ ok h | false ↦ count_blocks records (h + 1) left ]
]

unfoldable pub get_block_count : BitcoinDb → Outcome ℕ
unfolding count_blocks
get_block_count db = count_blocks db.block_index.records 0 (length db.block_index.records)

unfoldable pub get_header : BitcoinDb → ℕ → Outcome BlockIndexRecord
get_header db height =
    ok_or (get_elem? db.block_index.records height) (block_index_record_not_found height)

unfoldable pub get_hash_from_height : External → BitcoinDb → ℕ → Outcome Hash
get_hash_from_height x db height = elim (get_elem? db.block_index.records height) [
  | none ↦ err (block_index_record_not_found height)
  | some s ↦ ok (hash_of x s)
]

unfoldable pub get_height_from_hash : BitcoinDb → Hash → Outcome ℕ
get_height_from_hash db hash = elim (Map.get db.block_index.hash_to_height hash) [
  | none ↦ err (block_hash_not_found hash)
  | some h ↦ ok (as_usize h)
]

module _ {F : Type 0} (x : External) (checks : Bool) (fs : FileSystem F) (r : Read F) (k : Seek F)
    (exact : ReadExact (xor_read r)) where
  abbrev open_tx_db : Databases → Bool → FilePath → BlockIndex → Option TxDb
  open_tx_db dbs false data_dir block_index = none
  open_tx_db dbs true data_dir block_index =
      let tx_index_path = fs.join (fs.join data_dir "indexes") "txindex" in
      open_db (fs.exists tx_index_path) (dbs.open_tx_index tx_index_path) block_index

  unfoldable pub new : Databases → FilePath → Bool → Outcome BitcoinDb
  new dbs data_dir tx_index =
      if fs.exists data_dir
      then (do
        let blk_path = fs.join data_dir "blocks"
        block_index ← BlockIndex.new x checks (dbs.open_block_index (fs.join blk_path "index"))
        let tx_db = open_tx_db dbs tx_index data_dir block_index
        blk_file ← BlkFile.new fs blk_path
        ok (record { blk_file = blk_file; block_index = block_index; tx_db = tx_db }))
      else err (bitcoin_data_dir_does_not_exist data_dir)

  unfoldable pub get_raw_block : BitcoinDb → ℕ → Outcome (List ℕ)
  get_raw_block db height = do
    index ← ok_or (get_elem? db.block_index.records height) (block_index_record_not_found height)
    read_raw_block x checks fs r k exact db.blk_file index.n_file index.n_data_pos

  -- `into` is the conversion `T: From<Block>`.
  unfoldable pub get_block : {T : Type 0} → (Block → Outcome T) → BitcoinDb → ℕ → Outcome T
  get_block into db height = do
    index ← ok_or (get_elem? db.block_index.records height) (block_index_record_not_found height)
    block ← read_block x checks fs r k exact db.blk_file index.n_file index.n_data_pos
    into block

  unfoldable pub get_transaction :
      {T : Type 0} → (Transaction → Outcome T) → BitcoinDb → Hash → Outcome T
  unfolding is_genesis_tx get_block swap_remove
  get_transaction into db txid = do
    tx_db ← ok_or db.tx_db tx_db_unavailable
    if is_genesis_tx tx_db txid
        then (do block ← get_block ok db 0; tx ← swap_remove block.txdata 0; into tx)
        else (do
          tx_pos ← get_tx_position x checks tx_db txid
          tx ←
              read_transaction x checks fs r k exact db.blk_file tx_pos.n_file tx_pos.n_data_pos
                tx_pos.n_tx_offset
          into tx)

  unfoldable pub get_block_height : BitcoinDb → Hash → Outcome ℕ
  get_block_height db txid = do
    tx_db ← ok_or db.tx_db tx_db_unavailable
    TxIndex.get_block_height x checks tx_db txid

  unfoldable pub get_connected_block : (T : ConnectedBlock) → BitcoinDb → ℕ → Outcome T.Blk
  get_connected_block T db height = do
    tx_db ← ok_or db.tx_db tx_db_unavailable
    blk ← get_block ok db height
    T.connect blk tx_db db.block_index db.blk_file

  unfoldable pub get_connected_transaction : (T : ConnectedTx) → BitcoinDb → Hash → Outcome T.Tx
  get_connected_transaction T db txid = do
    tx_db ← ok_or db.tx_db tx_db_unavailable
    tx ← get_transaction ok db txid
    T.connect tx tx_db db.block_index db.blk_file
