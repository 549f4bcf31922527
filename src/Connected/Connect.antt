-- ===== src/Connected/Connect.antt =====
-- The functions of connected_block.rs that read the transaction index and the block files, and the
-- two formats' `connect`.
use rusty_bitcoin_explorer.Common.{Bool, Option, none, some, List, get_elem?, if◌then◌else◌}
use rusty_bitcoin_explorer.Error.{Outcome, ok, ◌>>=◌}
use rusty_bitcoin_explorer.External.{External, Block, Transaction, TxIn, TxOut}
use rusty_bitcoin_explorer.Reader.{Read, ReadExact}
use rusty_bitcoin_explorer.Xor.{Seek}
use rusty_bitcoin_explorer.Xor.Laws.{xor_read}
use rusty_bitcoin_explorer.BlkFile.{FileSystem, BlkFile, read_block, read_transaction}
use rusty_bitcoin_explorer.BlockIndex.{BlockIndex, BlockIndexRecord}
use rusty_bitcoin_explorer.TxIndex.{TxDb, is_genesis_tx, get_tx_position}
use rusty_bitcoin_explorer.Block.{compact_header, full_header, compact_tx_out, full_tx_out, map_all}
use rusty_bitcoin_explorer.Connected.{
  CompactConnectedTransaction, FullConnectedTransaction, CompactConnectedBlock, FullConnectedBlock,
  ConnectedTx, ConnectedBlock, swap_remove, if_ok, first_output, output_at, filter_all, all_inputs,
  is_coin_base, outpoints_count, all_found, connect_txs, compact_from_tx, full_from_tx,
  compact_add_input, full_add_input, compact_from_header, full_from_header, compact_add_tx,
  full_add_tx,
}

module _ {F : Type 0} (x : External) (checks : Bool) (fs : FileSystem F) (r : Read F) (k : Seek F)
    (exact : ReadExact (xor_read r)) where
  -- `blk_index.records.first()?` and what follows.
  abbrev pub genesis_output : Option BlockIndexRecord → BlkFile → Outcome (Option TxOut)
  genesis_output none blk_file = ok none
  genesis_output (some pos) blk_file =
      if_ok (read_block x checks fs r k exact blk_file pos.n_file pos.n_data_pos) first_output

  unfoldable pub connect_input : TxDb → BlockIndex → BlkFile → TxIn → Outcome (Option TxOut)
  unfolding is_coin_base swap_remove is_genesis_tx
  connect_input tx_db blk_index blk_file tx_in =
      let tx_id = tx_in.previous_output.txid in
      if is_coin_base x tx_in
      then ok none
      else if is_genesis_tx tx_db tx_id
      then genesis_output (get_elem? blk_index.records 0) blk_file
      else if_ok (get_tx_position x checks tx_db tx_id) (λ tx_pos.
        if_ok
          (read_transaction x checks fs r k exact blk_file tx_pos.n_file tx_pos.n_data_pos
            tx_pos.n_tx_offset)
          (output_at tx_in.previous_output.vout))

  unfoldable pub connect_tx_inputs :
      List TxIn → Bool → TxDb → BlockIndex → BlkFile → Outcome (List TxOut)
  unfolding filter_all
  connect_tx_inputs tx_in is_coinbase tx_db blk_index blk_file = do
    connected_outputs ← filter_all (connect_input tx_db blk_index blk_file) tx_in
    all_found (outpoints_count is_coinbase tx_in) connected_outputs

  unfoldable pub connect_block_inputs :
      (T : ConnectedTx) → List Transaction → TxDb → BlockIndex → BlkFile → Outcome (List T.Tx)
  unfolding all_inputs map_all connect_txs
  connect_block_inputs T transactions tx_db blk_index blk_file = do
    connected_outputs ← map_all (connect_input tx_db blk_index blk_file) (all_inputs transactions)
    connect_txs x T transactions connected_outputs

  unfoldable pub compact_connect_tx :
      Transaction → TxDb → BlockIndex → BlkFile → Outcome CompactConnectedTransaction
  unfolding map_all
  compact_connect_tx tx tx_db blk_index blk_file = do
    outputs ← connect_tx_inputs tx.input (x.is_coinbase tx) tx_db blk_index blk_file
    input ← map_all (compact_tx_out x) outputs
    output ← map_all (compact_tx_out x) tx.output
    ok (record { txid = x.compute_txid tx; input = input; output = output })

  unfoldable pub full_connect_tx :
      Transaction → TxDb → BlockIndex → BlkFile → Outcome FullConnectedTransaction
  unfolding map_all
  full_connect_tx tx tx_db blk_index blk_file = do
    outputs ← connect_tx_inputs tx.input (x.is_coinbase tx) tx_db blk_index blk_file
    input ← map_all (full_tx_out x) outputs
    output ← map_all (full_tx_out x) tx.output
    ok (record {
      version = tx.version;
      lock_time = tx.lock_time;
      txid = x.compute_txid tx;
      input = input;
      output = output;
    })

  -- The implementations of the traits.
  abbrev pub compact_connected_tx : ConnectedTx
  compact_connected_tx = record {
    Tx = CompactConnectedTransaction;
    Out = _;
    from = compact_from_tx x;
    add_input = compact_add_input;
    into = compact_tx_out x;
    connect = compact_connect_tx;
  }

  abbrev pub full_connected_tx : ConnectedTx
  full_connected_tx = record {
    Tx = FullConnectedTransaction;
    Out = _;
    from = full_from_tx x;
    add_input = full_add_input;
    into = full_tx_out x;
    connect = full_connect_tx;
  }

  unfoldable pub compact_connect_block :
      Block → TxDb → BlockIndex → BlkFile → Outcome CompactConnectedBlock
  compact_connect_block block tx_db blk_index blk_file = do
    txdata ← connect_block_inputs compact_connected_tx block.txdata tx_db blk_index blk_file
    ok (record {
      header = compact_header block.header (x.block_hash block.header);
      txdata = txdata;
    })

  unfoldable pub full_connect_block :
      Block → TxDb → BlockIndex → BlkFile → Outcome FullConnectedBlock
  full_connect_block block tx_db blk_index blk_file = do
    txdata ← connect_block_inputs full_connected_tx block.txdata tx_db blk_index blk_file
    ok (record { header = full_header block.header (x.block_hash block.header); txdata = txdata })

  abbrev pub compact_connected_block : ConnectedBlock
  compact_connected_block = record {
    Blk = CompactConnectedBlock;
    tx = compact_connected_tx;
    from = compact_from_header;
    add_tx = compact_add_tx;
    connect = compact_connect_block;
  }

  abbrev pub full_connected_block : ConnectedBlock
  full_connected_block = record {
    Blk = FullConnectedBlock;
    tx = full_connected_tx;
    from = full_from_header;
    add_tx = full_add_tx;
    connect = full_connect_block;
  }
