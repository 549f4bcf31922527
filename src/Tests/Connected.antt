-- ===== src/Tests/Connected.antt =====
-- Connected blocks and transactions on a file with one transaction.
use rusty_bitcoin_explorer.Common.{◌≡◌, refl, true, some, [], ◌∷◌, All, arith}
use rusty_bitcoin_explorer.Common.Words.{pos}
use rusty_bitcoin_explorer.Error.{ok}
use rusty_bitcoin_explorer.External.{TxIn, TxOut}
use rusty_bitcoin_explorer.TxIndex.{TransactionPosition, TxDb, genesis_txid}
use rusty_bitcoin_explorer.TxIndex.Lookup.{write_position, IsWritablePosition}
use rusty_bitcoin_explorer.Block.{map_all}
use rusty_bitcoin_explorer.Connected.Connect.{
  connect_input, connect_block_inputs, compact_connect_tx, full_connect_tx, compact_connected_tx,
  full_connected_tx,
}
use rusty_bitcoin_explorer.Connected.Inputs.{connect_input_lem}
use rusty_bitcoin_explorer.Connected.Blocks.{LooksUp, connect_block_inputs-map_all}
use rusty_bitcoin_explorer.Tests.Sample.{
  sample, sample-pushes, transaction, file_read, file_seek, file_exact,
}
use rusty_bitcoin_explorer.Tests.Files.{file_system, blk_file, holds, plain}
use rusty_bitcoin_explorer.Tests.Index.{index}

abbrev pub input : TxIn
input = record {
  previous_output = record { txid = 7; vout = 0 };
  script_sig = [];
  sequence = 0;
  witness = [];
}

abbrev pub output : TxOut
output = record { value = 50; script_pubkey = 0x51 ∷ 3 ∷ 0x51 ∷ 0xae ∷ [] }

-- Where transaction 7 lies.
abbrev pub position : TransactionPosition
position = record { txid = 7; n_file = pos 0; n_data_pos = 4; n_tx_offset = 1 }

pub position-IsWritable : IsWritablePosition position
position-IsWritable = record { file = omega arith; data_pos = omega arith; tx_offset = omega arith }

abbrev pub tx_db : TxDb
tx_db = record {
  db = λ key. ok (some (write_position position));
  file_pos_to_height = [];
  genesis_txid = genesis_txid;
}

connect_input_lem_example :
    connect_input sample true file_system file_read file_seek file_exact tx_db index blk_file input
    ≡ ok (some output)
connect_input_lem_example =
    connect_input_lem sample true file_system file_read file_seek file_exact tx_db index blk_file
      input position (transaction 9) plain (9 ∷ []) (0 ∷ []) refl refl refl position-IsWritable refl
      holds refl refl (omega arith)

pub looks_up :
    All
      (LooksUp sample true file_system file_read file_seek file_exact tx_db index blk_file)
      (transaction 9 ∷ [])
unfolding map_all
looks_up = ((some output ∷ [], rw connect_input_lem_example refl), tt)

connect_block_inputs-map_all_example :
    (connect_block_inputs sample true file_system file_read file_seek file_exact
        (compact_connected_tx sample true file_system file_read file_seek file_exact)
        (transaction 9 ∷ [])
        tx_db
        index
        blk_file
      ≡ map_all
          (λ tx.
            compact_connect_tx sample true file_system file_read file_seek file_exact tx tx_db index
              blk_file)
          (transaction 9 ∷ []))
    × (connect_block_inputs sample true file_system file_read file_seek file_exact
          (full_connected_tx sample true file_system file_read file_seek file_exact)
          (transaction 9 ∷ [])
          tx_db
          index
          blk_file
        ≡ map_all
            (λ tx.
              full_connect_tx sample true file_system file_read file_seek file_exact tx tx_db index
                blk_file)
            (transaction 9 ∷ []))
connect_block_inputs-map_all_example =
    connect_block_inputs-map_all sample true file_system file_read file_seek file_exact
      (transaction 9 ∷ []) tx_db index blk_file sample-pushes looks_up
