-- ===== src/DiskIter/Chain.antt =====
-- What the theorems ask of the chain and of its transaction index.
use rusty_bitcoin_explorer.Common.{ℕ, suc, ◌≡◌, ◌≤◌, ◌<◌, ◌^◌, Bool, some, length, get_elem?, All}
use rusty_bitcoin_explorer.Error.{Outcome, ok}
use rusty_bitcoin_explorer.External.{External, Block, Transaction, TxIn, TxOut}
use rusty_bitcoin_explorer.Reader.{Read, ReadExact}
use rusty_bitcoin_explorer.Xor.{Seek}
use rusty_bitcoin_explorer.Xor.Laws.{xor_read}
use rusty_bitcoin_explorer.BlkFile.{FileSystem, BlkFile}
use rusty_bitcoin_explorer.BlockIndex.{BlockIndex}
use rusty_bitcoin_explorer.TxIndex.{TxDb}
use rusty_bitcoin_explorer.Connected.{all_inputs}
use rusty_bitcoin_explorer.Connected.Connect.{connect_input}
use rusty_bitcoin_explorer.Utxo.Inputs.{NotNull}
use rusty_bitcoin_explorer.Utxo.Agree.{IsCoinbaseOrSpends}

module _ {F : Type 0} (x : External) (checks : Bool) (fs : FileSystem F) (r : Read F) (k : Seek F)
    (exact : ReadExact (xor_read r)) (t : TxDb) (idx : BlockIndex) (b : BlkFile)
    (reads : ℕ → Outcome Block) where
  -- The input spends an output of a transaction at place `place` in the block of a height up to `j`,
  -- and the transaction index finds that output.
  pub record Source (j : ℕ) (input : TxIn) : Type 0 where
    pub height : ℕ
    pub block : Block
    pub place : ℕ
    pub tx : Transaction
    pub out : TxOut
    pub earlier : height ≤ j
    pub readable : reads height ≡ ok block
    pub at_place : get_elem? block.txdata place ≡ some tx
    pub is_id : x.compute_txid tx ≡ input.previous_output.txid
    pub at_number : get_elem? tx.output input.previous_output.vout ≡ some out
    pub connects : connect_input x checks fs r k exact t idx b input ≡ ok (some out)

  -- A chain: ids are not used twice, an output is spent once, and by an input of its own block or of
  -- a later one.
  pub record IsChain : Type 0 where
    pub unique :
        (h h' : ℕ) (block block' : Block) (i i' : ℕ) (tx tx' : Transaction)
        → reads h ≡ ok block
        → reads h' ≡ ok block'
        → get_elem? block.txdata i ≡ some tx
        → get_elem? block'.txdata i' ≡ some tx'
        → x.compute_txid tx ≡ x.compute_txid tx'
        → (h ≡ h') × (i ≡ i')
    pub short :
        (h : ℕ) (block : Block) (i : ℕ) (tx : Transaction)
        → reads h ≡ ok block
        → get_elem? block.txdata i ≡ some tx
        → suc (length tx.output) < 2 ^ 32
    pub source :
        (j : ℕ) (block : Block) (n : ℕ) (input : TxIn)
        → reads j ≡ ok block
        → get_elem? (all_inputs block.txdata) n ≡ some input
        → NotNull x input
        → Source j input
    pub once :
        (j j' : ℕ) (block block' : Block) (n n' : ℕ) (input input' : TxIn)
        → reads j ≡ ok block
        → reads j' ≡ ok block'
        → get_elem? (all_inputs block.txdata) n ≡ some input
        → get_elem? (all_inputs block'.txdata) n' ≡ some input'
        → NotNull x input
        → NotNull x input'
        → input.previous_output.txid ≡ input'.previous_output.txid
        → input.previous_output.vout ≡ input'.previous_output.vout
        → (j ≡ j') × (n ≡ n')
    pub kinds :
        (j : ℕ) (block : Block) → reads j ≡ ok block → All (IsCoinbaseOrSpends x) block.txdata
