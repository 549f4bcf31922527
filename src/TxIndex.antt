-- ===== src/TxIndex.antt =====
-- src/parser/tx_index.rs: where a transaction lies on disk, and in which block. The database is a
-- function from keys to values.
pub mod Lookup
use rusty_bitcoin_explorer.Common.{
  ℕ, String, Bool, true, false, Option, none, some, List, [], ◌∷◌, ◌==◌, if◌then◌else◌,
}
use rusty_bitcoin_explorer.Common.Words.{ℤ, pos, negsuc, as_i32, as_u32, as_usize}
use rusty_bitcoin_explorer.Common.Map
use rusty_bitcoin_explorer.Common.Map.{Map, position_key}
use rusty_bitcoin_explorer.Error
use rusty_bitcoin_explorer.Error.{
  Outcome, ok, err, panic, stuck, transaction_record_not_found, cannot_find_height_for_transaction,
}
use rusty_bitcoin_explorer.External.{External, Hash}
use rusty_bitcoin_explorer.Reader.{Reads, ◌>>=◌, pure, read_varint}
use rusty_bitcoin_explorer.Reader.Bytes.{bytes}
use rusty_bitcoin_explorer.BlockIndex.{
  BlockIndexRecord, BlockIndex, read_i32_varint, read_u32_varint,
}

-- The genesis block's transaction: its hash in the order of its printed digits.
abbrev pub genesis_txid : Hash
genesis_txid = 0x4a5e1e4baab89f3a32518a88c31bc87f618f76673e2cc77ab2127b7afdeda33b

pub record TransactionPosition : Type 0 where
  pub txid : Hash
  pub n_file : ℤ
  pub n_data_pos : ℕ
  pub n_tx_offset : ℕ

pub record TxDb : Type 0 where
  pub db : List ℕ → Outcome (Option (List ℕ))
  pub file_pos_to_height : Map (ℤ × ℕ) ℤ
  pub genesis_txid : Hash

abbrev pub place : BlockIndexRecord → ℤ × ℕ
place b = (b.n_file, b.n_data_pos)

-- `records.iter().map(..).collect()` into the map.
unfoldable pub collect_positions : List BlockIndexRecord → Map (ℤ × ℕ) ℤ
collect_positions records = Map.collect place (λ b. b.n_height) [] records

-- The flag is `path.exists()`, and `db` is what `Database::open` gave.
unfoldable pub open_db :
    Bool → Outcome (List ℕ → Outcome (Option (List ℕ))) → BlockIndex → Option TxDb
unfolding collect_positions
open_db false db blk_index = none
open_db true (ok db) blk_index = some (record {
  db = db;
  file_pos_to_height = collect_positions blk_index.records;
  genesis_txid = genesis_txid;
})
open_db true _ blk_index = none

unfoldable pub is_genesis_tx : TxDb → Hash → Bool
is_genesis_tx t txid = txid == t.genesis_txid

module _ (x : External) (checks : Bool) where
  unfoldable pub tx_key : Hash → List ℕ
  tx_key txid = b't' ∷ x.txid_bytes txid

  unfoldable pub read_position : Hash → Reads (List ℕ) TransactionPosition
  read_position txid = do
    n_file ← read_i32_varint x bytes checks
    n_data_pos ← read_u32_varint x bytes checks
    n_tx_offset ← read_u32_varint x bytes checks
    pure (record {
      txid = txid;
      n_file = n_file;
      n_data_pos = n_data_pos;
      n_tx_offset = n_tx_offset;
    })

  abbrev pub decode_position : Hash → Option (List ℕ) → Outcome TransactionPosition
  decode_position txid none = err (transaction_record_not_found txid)
  decode_position txid (some value) = Error.◌>>=◌ (read_position txid value) (λ p. ok p.0)

  unfoldable pub get_tx_position : TxDb → Hash → Outcome TransactionPosition
  unfolding tx_key read_position
  get_tx_position t txid = Error.◌>>=◌ (t.db (tx_key txid)) (decode_position txid)

  abbrev pub height_or : Hash → Option ℤ → Outcome ℕ
  height_or txid none = err (cannot_find_height_for_transaction txid)
  height_or txid (some height) = ok (as_usize height)

  unfoldable pub get_block_height : TxDb → Hash → Outcome ℕ
  unfolding is_genesis_tx
  get_block_height t txid =
      if is_genesis_tx t txid
      then ok 0
      else Error.◌>>=◌ (get_tx_position t txid)
          (λ p. height_or txid (Map.get t.file_pos_to_height (p.n_file, p.n_data_pos)))
