-- ===== src/Block.antt =====
-- src/parser/block_types/{full_block,compact_block}.rs: the formats of blocks, transactions and
-- outputs, and the conversions to them.
pub mod Convert
use rusty_bitcoin_explorer.Common.{ℕ, Bool, true, false, List, [], ◌∷◌, ◌++◌, map, if◌then◌else◌}
use rusty_bitcoin_explorer.Common.Words.{ℤ}
use rusty_bitcoin_explorer.Error.{Outcome, ok, err, panic, stuck, ◌>>=◌}
use rusty_bitcoin_explorer.External.{
  External, Hash, Address, Script, Block, BlockHeader, Transaction, TxIn, TxOut, bitcoin,
}
use rusty_bitcoin_explorer.Script.{ScriptType, evaluate_script}

pub record CompactBlockHeader : Type 0 where
  pub block_hash : Hash
  pub time : ℕ

pub record CompactTxIn : Type 0 where
  pub txid : Hash
  pub vout : ℕ

pub record CompactTxOut : Type 0 where
  pub value : ℕ
  pub addresses : List Address

pub record CompactTransaction : Type 0 where
  pub txid : Hash
  pub input : List CompactTxIn
  pub output : List CompactTxOut

pub record CompactBlock : Type 0 where
  pub header : CompactBlockHeader
  pub txdata : List CompactTransaction

pub record FullBlockHeader : Type 0 where
  pub version : ℤ
  pub prev_blockhash : Hash
  pub merkle_root : Hash
  pub time : ℕ
  pub bits : ℕ
  pub nonce : ℕ
  pub block_hash : Hash

pub record FullTxOut : Type 0 where
  pub value : ℕ
  pub script_pubkey : Script
  pub script_type : ScriptType
  pub addresses : List Address

pub record FullTransaction : Type 0 where
  pub version : ℤ
  pub lock_time : ℕ
  pub input : List TxIn
  pub txid : Hash
  pub output : List FullTxOut

pub record FullBlock : Type 0 where
  pub header : FullBlockHeader
  pub txdata : List FullTransaction

-- `.into_iter().map(f).collect()`, where `f` may panic.
unfoldable pub map_all : {A B : Type 0} → (A → Outcome B) → List A → Outcome (List B)
map_all f [] = ok []
map_all f (a ∷ as_) = do b ← f a; bs ← map_all f as_; ok (b ∷ bs)

unfoldable pub compact_header : BlockHeader → Hash → CompactBlockHeader
compact_header blk block_hash = record { block_hash = block_hash; time = blk.time }

unfoldable pub full_header : BlockHeader → Hash → FullBlockHeader
full_header b block_hash = record {
  version = b.version;
  prev_blockhash = b.prev_blockhash;
  merkle_root = b.merkle_root;
  time = b.time;
  bits = b.bits;
  nonce = b.nonce;
  block_hash = block_hash;
}

unfoldable pub compact_tx_in : TxIn → CompactTxIn
compact_tx_in i = record { txid = i.previous_output.txid; vout = i.previous_output.vout }

module _ (x : External) where
  unfoldable pub compact_tx_out : TxOut → Outcome CompactTxOut
  compact_tx_out out = do
    eval ← evaluate_script x out.script_pubkey bitcoin
    ok (record { value = out.value; addresses = eval.addresses })

  unfoldable pub full_tx_out : TxOut → Outcome FullTxOut
  full_tx_out out = do
    eval ← evaluate_script x out.script_pubkey bitcoin
    ok (record {
      value = out.value;
      script_pubkey = out.script_pubkey;
      script_type = eval.pattern;
      addresses = eval.addresses;
    })

  unfoldable pub compact_transaction : Transaction → Outcome CompactTransaction
  unfolding map_all
  compact_transaction tx = do
    let input = if x.is_coinbase tx then [] else map compact_tx_in tx.input
    output ← map_all compact_tx_out tx.output
    ok (record { txid = x.compute_txid tx; input = input; output = output })

  unfoldable pub full_transaction : Transaction → Outcome FullTransaction
  unfolding map_all
  full_transaction tx = do
    let input = if x.is_coinbase tx then [] else tx.input
    output ← map_all full_tx_out tx.output
    ok (record {
      version = tx.version;
      lock_time = tx.lock_time;
      input = input;
      txid = x.compute_txid tx;
      output = output;
    })

  unfoldable pub compact_block : Block → Outcome CompactBlock
  unfolding map_all compact_header
  compact_block block = do
    txdata ← map_all compact_transaction block.txdata
    ok (record {
      header = compact_header block.header (x.block_hash block.header);
      txdata = txdata;
    })

  unfoldable pub full_block : Block → Outcome FullBlock
  unfolding map_all full_header
  full_block block = do
    txdata ← map_all full_transaction block.txdata
    ok (record { header = full_header block.header (x.block_hash block.header); txdata = txdata })
