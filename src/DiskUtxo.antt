-- ===== src/DiskUtxo.antt =====
-- src/iter/fetch_connected_async.rs: the cache of unspent outputs on disk (the module `on_disk_utxo`),
-- over RocksDB. RocksDB and the encoding of an output are parameters.
pub mod Connect
pub mod Batch
pub mod Update
use rusty_bitcoin_explorer.Common.{
  ℕ, ◌+◌, ◌%◌, ◌^◌, ◌≡◌, ◌<◌, Bool, true, false, Option, none, some, List, [], ◌∷◌, ◌++◌, map,
  length, get_elem?, leb, ◌&&◌, if◌then◌else◌,
}
use rusty_bitcoin_explorer.Common.Map
use rusty_bitcoin_explorer.Common.Map.{Map, bytes_key}
use rusty_bitcoin_explorer.Error.{Outcome, ok, err, panic, stuck, ◌>>=◌}
use rusty_bitcoin_explorer.External.{External, Hash, Block, Transaction, TxIn, TxOut}
use rusty_bitcoin_explorer.Reader.{Read, ReadExact}
use rusty_bitcoin_explorer.Xor.{Seek}
use rusty_bitcoin_explorer.Xor.Laws.{xor_read}
use rusty_bitcoin_explorer.BlkFile.{FileSystem}
use rusty_bitcoin_explorer.Connected.{ConnectedTx, ConnectedBlock}
use rusty_bitcoin_explorer.Api.{BitcoinDb, get_block}

abbrev pub Bytes : Type 0
Bytes = List ℕ

-- `rocksdb::DB`. A `Result<(), Error>` is whether it is `Ok`, and `none` in `multi_get` is an `Err`.
-- `entries` is what the database holds.
pub record RocksDb (D : Type 0) : Type 0 where
  pub entries : D → Map Bytes Bytes
  pub write_without_wal : List (Bytes × Bytes) → D → Bool × D
  pub multi_get : List Bytes → D → List (Option (Option Bytes))
  pub delete : Bytes → D → Bool × D

-- A database that does not fail: what is written is there under its key, later entries over earlier
-- ones, until it is deleted.
pub record Works {D : Type 0} (db : RocksDb D) : Type 0 where
  pub puts :
      (batch : List (Bytes × Bytes)) (d : D)
      → (d' : D) × (db.write_without_wal batch d ≡ (true, d'))
        × ((key : Bytes)
            → Map.get (db.entries d') key
              ≡ Map.get
                  (Map.collect (λ entry. entry.0) (λ entry. entry.1) (db.entries d) batch)
                  key)
  pub gets :
      (keys : List Bytes) (d : D)
      → db.multi_get keys d ≡ map (λ key. some (Map.get (db.entries d) key)) keys
  pub deletes :
      (key : Bytes) (d : D)
      → (d' : D) × (db.delete key d ≡ (true, d'))
        × ((j : Bytes) → Map.get (db.entries d') j ≡ Map.get (Map.remove (db.entries d) key) j)

-- `u32::to_ne_bytes`, and the consensus encoding of an output; to write it to a vector does not
-- fail.
pub record Codec : Type 0 where
  pub ne_bytes : ℕ → Bytes
  pub encode_txout : TxOut → Bytes
  pub decode_txout : Bytes → Option TxOut

-- `a + b` on u32, checked or not.
unfoldable pub add_u32 : Bool → ℕ → ℕ → Outcome ℕ
add_u32 checks a b = if checks && leb (2 ^ 32) (a + b) then panic else ok ((a + b) % 2 ^ 32)

module _ (x : External) (e : Codec) where
  unfoldable pub txout_key : Hash → ℕ → Bytes
  txout_key txid n = x.txid_bytes txid ++ e.ne_bytes n

  -- `(0_u32..).zip(tx.output.iter())`: the range moves on before it is known whether an output
  -- follows.
  unfoldable pub put_outputs : Bool → Hash → ℕ → List TxOut → Outcome (List (Bytes × Bytes))
  unfolding txout_key add_u32
  put_outputs checks txid n [] = add_u32 checks n 1 >>= λ next. ok []
  put_outputs checks txid n (o ∷ os) = do
    next ← add_u32 checks n 1
    batch ← put_outputs checks txid next os
    ok ((txout_key txid n, e.encode_txout o) ∷ batch)

  -- The batch of a block.
  unfoldable pub put_txs : Bool → List Transaction → Outcome (List (Bytes × Bytes))
  unfolding put_outputs
  put_txs checks [] = ok []
  put_txs checks (tx ∷ txs) = do
    first ← put_outputs checks (x.compute_txid tx) 0 tx.output
    batch ← put_txs checks txs
    ok (first ++ batch)

  -- The keys of the outputs that inputs spend.
  unfoldable pub input_keys : List TxIn → List Bytes
  unfolding txout_key
  input_keys [] = []
  input_keys (input ∷ is) =
      let rest = input_keys is in
      if x.is_null input.previous_output
      then rest
      else txout_key input.previous_output.txid input.previous_output.vout ∷ rest

  unfoldable pub block_keys : List Transaction → List Bytes
  unfolding input_keys
  block_keys [] = []
  block_keys (tx ∷ txs) = input_keys tx.input ++ block_keys txs

  abbrev pub prev_txo : Option (Option Bytes) → Option TxOut
  prev_txo none = none
  prev_txo (some none) = none
  prev_txo (some (some bytes)) = e.decode_txout bytes

  -- The loop over the inputs of a transaction, from `pos` on; `none` is `Err(())`. `pos` stays
  -- within `tx_outs`.
  unfoldable pub fetch_inputs :
      (T : ConnectedTx)
      → List (Option (Option Bytes))
      → T.Tx
      → List TxIn
      → ℕ
      → Outcome (Option (T.Tx × ℕ))
  fetch_inputs T tx_outs output_tx [] pos = ok (some (output_tx, pos))
  fetch_inputs T tx_outs output_tx (input ∷ is) pos =
      let next = λ (tx : T.Tx) (p : ℕ). fetch_inputs T tx_outs tx is p in
      if x.is_null input.previous_output then next output_tx pos else elim (get_elem? tx_outs pos) [
        | none ↦ panic
        | some got ↦ elim (prev_txo got) [
          | none ↦ ok none
          | some prev ↦ T.into prev >>= λ out. next (T.add_input output_tx out) (pos + 1)
        ]
      ]

  -- The loop over the transactions of a block.
  unfoldable pub fetch_txs :
      (T : ConnectedBlock)
      → List (Option (Option Bytes))
      → T.Blk
      → List Transaction
      → ℕ
      → Outcome (Option T.Blk)
  unfolding fetch_inputs
  fetch_txs T tx_outs output_block [] pos = ok (some output_block)
  fetch_txs T tx_outs output_block (tx ∷ txs) pos = do
    blank ← T.tx.from tx
    fetched ← fetch_inputs T.tx tx_outs blank tx.input pos
    elim fetched [
      | none ↦ ok none
      | some done ↦ fetch_txs T tx_outs (T.add_tx output_block done.0) txs done.1
    ]

module _ {D : Type 0} (db : RocksDb D) where
  abbrev pub if_deleted : Bool × D → (D → Bool × D) → Bool × D
  if_deleted (true, d) next = next d
  if_deleted (false, d) next = (false, d)

  -- The loop that deletes the keys, up to the first failure.
  unfoldable pub delete_all : List Bytes → D → Bool × D
  delete_all [] d = (true, d)
  delete_all (key ∷ keys) d = if_deleted (db.delete key d) (delete_all keys)

  module _ (x : External) (e : Codec) (T : ConnectedBlock) where
    abbrev pub fetch_after : Outcome (Option T.Blk) → Bool × D → Outcome (Option T.Blk × D)
    fetch_after fetched (true, d) = fetched >>= λ block. ok (block, d)
    fetch_after fetched (false, d) = ok (none, d)

    unfoldable pub connect_outpoints : D → Block → Outcome (Option T.Blk × D)
    unfolding block_keys fetch_txs delete_all
    connect_outpoints unspent block =
        let keys = block_keys x e block.txdata in
        let tx_outs = db.multi_get keys unspent in
        let output_block = T.from block.header (x.block_hash block.header) in
        fetch_after (fetch_txs x e T tx_outs output_block block.txdata 0) (delete_all keys unspent)

  abbrev pub written : Block → Bool × D → Option Block × D
  written block (true, d) = (some block, d)
  written block (false, d) = (none, d)

  module _ {F : Type 0} (x : External) (e : Codec) (checks : Bool) (fs : FileSystem F) (r : Read F)
      (k : Seek F) (exact : ReadExact (xor_read r)) where
    unfoldable pub update_unspent_cache : D → BitcoinDb → ℕ → Outcome (Option Block × D)
    unfolding put_txs
    update_unspent_cache unspent db' height = elim (get_block x checks fs r k exact ok db' height) [
      | ok block ↦ put_txs x e checks block.txdata >>= λ batch.
          ok (written block (db.write_without_wal batch unspent))
      | err error ↦ ok (none, unspent)
      | panic ↦ panic
      | stuck ↦ stuck
    ]
