-- ===== src/Api/Queries.antt =====
-- The queries of `BitcoinDB`: what they return where the files hold the data, and their errors.
use rusty_bitcoin_explorer.Common.{
  ℕ, ◌+◌, ◌-◌, ◌≤◌, ◌≡◌, inl, inr, sym, ap, ◌∙◌, Bool, true, false, some, List, ◌++◌, length, drop,
  get_elem?, get_elem?_beyond, ◌==◌, Bool-cases,
}
use rusty_bitcoin_explorer.Error.{
  Outcome, ok, err, >>=-eq-ok, tx_db_unavailable, block_index_record_not_found,
}
use rusty_bitcoin_explorer.External.{External, Hash, Block, Transaction, decoded}
use rusty_bitcoin_explorer.Reader.{Read, ReadExact}
use rusty_bitcoin_explorer.Xor.{Seek}
use rusty_bitcoin_explorer.Xor.Laws.{xor_read}
use rusty_bitcoin_explorer.BlkFile
use rusty_bitcoin_explorer.BlkFile.{FilePath, FileSystem, header_size}
use rusty_bitcoin_explorer.BlkFile.Read.{
  Holds, read_raw_block_lem, read_block_lem, read_transaction_lem,
}
use rusty_bitcoin_explorer.BlockIndex
use rusty_bitcoin_explorer.BlockIndex.{BlockIndex, BlockIndexRecord}
use rusty_bitcoin_explorer.TxIndex.{TxDb, TransactionPosition, tx_key}
use rusty_bitcoin_explorer.TxIndex.Lookup.{IsWritablePosition, write_position, get_tx_position_lem}
use rusty_bitcoin_explorer.Connected.{ConnectedTx, ConnectedBlock}
use rusty_bitcoin_explorer.Api.{
  BitcoinDb, Databases, new, open_tx_db, get_header, get_hash_from_height, get_raw_block, get_block,
  get_transaction, get_block_height, get_connected_block, get_connected_transaction,
}

module _ {F : Type 0} (x : External) (checks : Bool) (fs : FileSystem F) (r : Read F) (k : Seek F)
    (exact : ReadExact (xor_read r)) where
  -- The parts of a database that was opened.
  pub new_parts :
      (dbs : Databases) (data_dir : FilePath) (tx_index : Bool) (db : BitcoinDb)
      → new x checks fs r k exact dbs data_dir tx_index ≡ ok db
      → (fs.exists data_dir ≡ true)
        × (BlockIndex.new x checks
              (dbs.open_block_index (fs.join (fs.join data_dir "blocks") "index"))
            ≡ ok db.block_index)
        × (db.tx_db ≡ open_tx_db x checks fs r k exact dbs tx_index data_dir db.block_index)
        × (BlkFile.new fs (fs.join data_dir "blocks") ≡ ok db.blk_file)
  unfolding new
  new_parts dbs data_dir tx_index db e = elim (Bool-cases (fs.exists data_dir)) [
    | inr absent ↦ cc (rw (absent, new) at e)
    | inl there ↦
        let e' = rw (there, new) at e in
        let (index, index_opened, e₁) =
          >>=-eq-ok
            (BlockIndex.new x checks
              (dbs.open_block_index (fs.join (fs.join data_dir "blocks") "index")))
            _ e' in
        let (files, files_opened, e₂) =
          >>=-eq-ok (BlkFile.new fs (fs.join data_dir "blocks")) _ e₁ in
        let made : record {
          blk_file = files;
          block_index = index;
          tx_db = open_tx_db x checks fs r k exact dbs tx_index data_dir index;
        }
            ≡ db =
          cc e₂ in
        let is = ap (λ (d : BitcoinDb). d.block_index) made in
        (
          there,
          index_opened ∙ ap ok is,
          ap (λ (d : BitcoinDb). d.tx_db) (sym made)
              ∙ ap (open_tx_db x checks fs r k exact dbs tx_index data_dir) is,
          files_opened ∙ ap ok (ap (λ (d : BitcoinDb). d.blk_file) made),
        )
  ]

  -- A height without a record is refused by each query, with the height in the error.
  pub height_not_found :
      {T : Type 0} (into : Block → Outcome T) (db : BitcoinDb) (height : ℕ)
      → length db.block_index.records ≤ height
      → (get_header db height ≡ err (block_index_record_not_found height))
        × (get_hash_from_height x db height ≡ err (block_index_record_not_found height))
        × (get_raw_block x checks fs r k exact db height
            ≡ err (block_index_record_not_found height))
        × (get_block x checks fs r k exact into db height
            ≡ err (block_index_record_not_found height))
  unfolding get_header get_hash_from_height get_raw_block get_block
  height_not_found into db height h =
      let missing = get_elem?_beyond db.block_index.records height h in
      (rw missing, rw (missing, get_hash_from_height), rw missing, rw missing)

  -- The block of a height, raw and in any format: where the file that the height's record names holds
  -- the block behind its size at the record's place, its bytes are returned, and the conversion of the
  -- block that they decode to.
  pub get_block_lem :
      {T : Type 0} (into : Block → Outcome T) (db : BitcoinDb) (height : ℕ) (b : BlockIndexRecord)
      (plain size raw rest : List ℕ) (blk : Block)
      → get_elem? db.block_index.records height ≡ some b
      → Holds fs r k db.blk_file b.n_file plain
      → 4 ≤ b.n_data_pos
      → length size ≡ 4
      → x.le_u32 size ≡ length raw
      → drop (b.n_data_pos - 4) plain ≡ size ++ (raw ++ rest)
      → x.decode_block raw ≡ decoded blk (length raw)
      → (get_raw_block x checks fs r k exact db height ≡ ok raw)
        × (get_block x checks fs r k exact into db height ≡ into blk)
  unfolding get_raw_block get_block
  get_block_lem into db height b plain size raw rest blk at h four hsize hlen placed hd =
      let raw_read =
        read_raw_block_lem x checks fs r k exact db.blk_file b.n_file plain b.n_data_pos size raw
          rest h four hsize hlen placed in
      let block_read =
        read_block_lem x checks fs r k exact db.blk_file b.n_file plain b.n_data_pos size raw rest
          blk h four hsize hlen placed hd in
      (rw at raw_read, rw (at, block_read))

  -- The transaction of an id: where the index has its position and the block file holds it there, the
  -- conversion of it is returned. The genesis transaction is the first of the block at height 0.
  pub get_transaction_lem :
      {T : Type 0} (into : Transaction → Outcome T) (db : BitcoinDb) (t : TxDb)
      (p : TransactionPosition) (tx : Transaction) (plain raw rest : List ℕ)
      → db.tx_db ≡ some t
      → (p.txid == t.genesis_txid) ≡ false
      → IsWritablePosition p
      → t.db (tx_key x checks p.txid) ≡ ok (some (write_position p))
      → Holds fs r k db.blk_file p.n_file plain
      → drop (p.n_data_pos + p.n_tx_offset + header_size) plain ≡ raw ++ rest
      → x.decode_transaction (raw ++ rest) ≡ decoded tx (length raw)
      → get_transaction x checks fs r k exact into db p.txid ≡ into tx
  unfolding get_transaction
  get_transaction_lem into db t p tx plain raw rest has other w stored h at hd = rw (
    has,
    other,
    get_tx_position_lem x checks t p w stored,
    read_transaction_lem x checks fs r k exact db.blk_file p.n_file plain p.n_data_pos p.n_tx_offset
        raw rest tx h at hd,
  )

  -- A database that was opened without the transaction index refuses every query that needs it.
  pub no_tx_index :
      {T : Type 0} (into : Transaction → Outcome T) (B : ConnectedBlock) (C : ConnectedTx)
      (dbs : Databases) (data_dir : FilePath) (db : BitcoinDb) (txid : Hash) (height : ℕ)
      → new x checks fs r k exact dbs data_dir false ≡ ok db
      → (get_transaction x checks fs r k exact into db txid ≡ err tx_db_unavailable)
        × (get_block_height x checks fs r k exact db txid ≡ err tx_db_unavailable)
        × (get_connected_block x checks fs r k exact B db height ≡ err tx_db_unavailable)
        × (get_connected_transaction x checks fs r k exact C db txid ≡ err tx_db_unavailable)
  unfolding get_transaction get_block_height get_connected_block get_connected_transaction
  no_tx_index into B C dbs data_dir db txid height opened =
      let none_there = (new_parts dbs data_dir false db opened).2 in
      (rw none_there, rw none_there, rw none_there, rw none_there)
