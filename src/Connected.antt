-- ===== src/Connected.antt =====
-- src/parser/block_types/connected_block.rs: blocks and transactions whose inputs are replaced by the
-- outputs that they spend, found through the transaction index.
pub mod Connect
pub mod Lists
pub mod Blocks
pub mod Inputs
use rusty_bitcoin_explorer.Common.{
  ℕ, zero, suc, ◌^◌, ◌%◌, Bool, true, false, Option, none, some, List, [], ◌∷◌, ◌++◌, length,
  get_elem?, leb, ◌==◌, leb, if◌then◌else◌,
}
use rusty_bitcoin_explorer.Common.Words.{ℤ, as_u32}
use rusty_bitcoin_explorer.Error.{Outcome, ok, err, panic, stuck, ◌>>=◌, missing_outputs}
use rusty_bitcoin_explorer.External.{
  External, Hash, Block, BlockHeader, Transaction, TxIn, TxOut, OutPoint,
}
use rusty_bitcoin_explorer.Reader.{Read, ReadExact}
use rusty_bitcoin_explorer.Xor.{Seek}
use rusty_bitcoin_explorer.Xor.Laws.{xor_read}
use rusty_bitcoin_explorer.BlkFile.{FileSystem, BlkFile, read_block, read_transaction}
use rusty_bitcoin_explorer.BlockIndex.{BlockIndex, BlockIndexRecord}
use rusty_bitcoin_explorer.TxIndex.{TxDb, is_genesis_tx, get_tx_position}
use rusty_bitcoin_explorer.Block.{
  CompactBlockHeader, CompactTxOut, FullBlockHeader, FullTxOut, map_all, compact_header,
  full_header, compact_tx_out, full_tx_out,
}

pub record CompactConnectedTransaction : Type 0 where
  pub txid : Hash
  pub input : List CompactTxOut
  pub output : List CompactTxOut

pub record FullConnectedTransaction : Type 0 where
  pub version : ℤ
  pub lock_time : ℕ
  pub txid : Hash
  pub input : List FullTxOut
  pub output : List FullTxOut

pub record CompactConnectedBlock : Type 0 where
  pub header : CompactBlockHeader
  pub txdata : List CompactConnectedTransaction

pub record FullConnectedBlock : Type 0 where
  pub header : FullBlockHeader
  pub txdata : List FullConnectedTransaction

-- The trait `ConnectedTx`; `into` is the conversion `TxOut: From<bitcoin::TxOut>` that it asks for.
pub record ConnectedTx : Type 1 where
  pub Tx : Type 0
  pub Out : Type 0
  pub from : Transaction → Outcome Tx
  pub add_input : Tx → Out → Tx
  pub into : TxOut → Outcome Out
  pub connect : Transaction → TxDb → BlockIndex → BlkFile → Outcome Tx

-- The trait `ConnectedBlock`.
pub record ConnectedBlock : Type 1 where
  pub Blk : Type 0
  pub tx : ConnectedTx
  pub from : BlockHeader → Hash → Blk
  pub add_tx : Blk → tx.Tx → Blk
  pub connect : Block → TxDb → BlockIndex → BlkFile → Outcome Blk

-- `v.swap_remove(i)` on a vector that is dropped afterwards: the element, or a panic out of range.
unfoldable pub swap_remove : {A : Type 0} → List A → ℕ → Outcome A
swap_remove v i = elim (get_elem? v i) [ none ↦ panic | some a ↦ ok a ]

-- `if let Ok(a) = result { next } else { None }`
abbrev pub if_ok : {A B : Type 0} → Outcome A → (A → Outcome (Option B)) → Outcome (Option B)
if_ok stuck next = stuck
if_ok panic next = panic
if_ok (err e) next = ok none
if_ok (ok a) next = next a

-- `blk.txdata.swap_remove(0)` and `tx.output.swap_remove(0)`
abbrev pub first_output : Block → Outcome (Option TxOut)
first_output blk = do tx ← swap_remove blk.txdata 0; out ← swap_remove tx.output 0; ok (some out)

-- The output of number `n`.
abbrev pub output_at : ℕ → Transaction → Outcome (Option TxOut)
output_at n tx =
    if leb (as_u32 (length tx.output)) n
    then ok none
    else (do out ← swap_remove tx.output n; ok (some out))

-- `par_iter().filter_map(f).collect()`, where `f` may panic; the results keep the order.
abbrev pub cons_some : {A : Type 0} → Option A → List A → List A
cons_some none as_ = as_
cons_some (some a) as_ = a ∷ as_

unfoldable pub filter_all : {A B : Type 0} → (A → Outcome (Option B)) → List A → Outcome (List B)
filter_all f [] = ok []
filter_all f (a ∷ as_) = do b ← f a; bs ← filter_all f as_; ok (cons_some b bs)

-- `transactions.iter().flat_map(|tx| tx.input.iter())`
unfoldable pub all_inputs : List Transaction → List TxIn
all_inputs [] = []
all_inputs (tx ∷ txs) = tx.input ++ all_inputs txs

-- The loop that takes an entry off `connected_outputs` for each input and pushes those that are
-- there to `outputs`.
unfoldable pub take_outputs :
    List TxIn → List (Option TxOut) → List TxOut → Outcome (List TxOut × List (Option TxOut))
take_outputs [] connected_outputs outputs = ok (outputs, connected_outputs)
take_outputs (i ∷ is) [] outputs = panic
take_outputs (i ∷ is) (none ∷ connected_outputs) outputs = take_outputs is connected_outputs outputs
take_outputs (i ∷ is) (some out ∷ connected_outputs) outputs =
    take_outputs is connected_outputs (outputs ++ out ∷ [])

-- `for output in outputs { tx.add_input(output.into()) }`
unfoldable pub add_inputs : (T : ConnectedTx) → T.Tx → List TxOut → Outcome T.Tx
add_inputs T tx [] = ok tx
add_inputs T tx (output ∷ outputs) = do
  out ← T.into output
  add_inputs T (T.add_input tx out) outputs

abbrev pub outpoints_count : Bool → List TxIn → ℕ
outpoints_count is_coinbase tx_in = if is_coinbase then 0 else length tx_in

-- The check that no output is missing.
abbrev pub all_found : ℕ → List TxOut → Outcome (List TxOut)
all_found expected outputs =
    if length outputs == expected
    then ok outputs
    else err (missing_outputs expected (length outputs))

module _ (x : External) where
  unfoldable pub is_coin_base : TxIn → Bool
  is_coin_base tx_in = x.is_null tx_in.previous_output

  -- The loop over the transactions of a block.
  unfoldable pub connect_txs :
      (T : ConnectedTx) → List Transaction → List (Option TxOut) → Outcome (List T.Tx)
  unfolding take_outputs add_inputs
  connect_txs T [] connected_outputs = ok []
  connect_txs T (tx ∷ txs) connected_outputs = do
    (outputs, rest) ← take_outputs tx.input connected_outputs []
    found ← all_found (outpoints_count (x.is_coinbase tx) tx.input) outputs
    blank ← T.from tx
    connected ← add_inputs T blank found
    connected_tx ← connect_txs T txs rest
    ok (connected ∷ connected_tx)

  unfoldable pub compact_from_tx : Transaction → Outcome CompactConnectedTransaction
  unfolding map_all compact_tx_out
  compact_from_tx tx = do
    output ← map_all (compact_tx_out x) tx.output
    ok (record { txid = x.compute_txid tx; input = []; output = output })

  unfoldable pub full_from_tx : Transaction → Outcome FullConnectedTransaction
  unfolding map_all full_tx_out
  full_from_tx tx = do
    output ← map_all (full_tx_out x) tx.output
    ok (record {
      version = tx.version;
      lock_time = tx.lock_time;
      txid = x.compute_txid tx;
      input = [];
      output = output;
    })

unfoldable pub compact_add_input :
    CompactConnectedTransaction → CompactTxOut → CompactConnectedTransaction
compact_add_input tx input = record tx { input = tx.input ++ input ∷ [] }

unfoldable pub full_add_input : FullConnectedTransaction → FullTxOut → FullConnectedTransaction
full_add_input tx input = record tx { input = tx.input ++ input ∷ [] }

unfoldable pub compact_from_header : BlockHeader → Hash → CompactConnectedBlock
unfolding compact_header
compact_from_header block_header block_hash = record {
  header = compact_header block_header block_hash;
  txdata = [];
}

unfoldable pub full_from_header : BlockHeader → Hash → FullConnectedBlock
unfolding full_header
full_from_header block_header block_hash = record {
  header = full_header block_header block_hash;
  txdata = [];
}

unfoldable pub compact_add_tx :
    CompactConnectedBlock → CompactConnectedTransaction → CompactConnectedBlock
compact_add_tx blk tx = record blk { txdata = blk.txdata ++ tx ∷ [] }

unfoldable pub full_add_tx : FullConnectedBlock → FullConnectedTransaction → FullConnectedBlock
full_add_tx blk tx = record blk { txdata = blk.txdata ++ tx ∷ [] }
