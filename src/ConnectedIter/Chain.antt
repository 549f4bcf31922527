-- ===== src/ConnectedIter/Chain.antt =====
-- What the theorems ask of the chain, and the block that a task is to give.
use rusty_bitcoin_explorer.Common.{
  ℕ, ◌≡◌, ◌≤◌, ◌<◌, ◌^◌, none, some, List, [], ◌∷◌, ◌++◌, length, get_elem?, if◌then◌else◌,
}
use rusty_bitcoin_explorer.Error.{Outcome, ok, panic, ◌>>=◌}
use rusty_bitcoin_explorer.External.{External, Block, Transaction, TxIn, TxOut}
use rusty_bitcoin_explorer.Connected.{ConnectedBlock, all_inputs}
use rusty_bitcoin_explorer.Utxo.Inputs.{NotNull}
use rusty_bitcoin_explorer.Utxo.Update.{Converts}
use rusty_bitcoin_explorer.ConnectedIter.{
  Worker, waiting, between, inside, with_arc, emptied, done, failed,
}

module _ (x : External) (T : ConnectedBlock) (reads : ℕ → Outcome Block)
    (spends : TxIn → T.tx.Out) where
  -- The input spends an output of a transaction at place `place` in the block of a height up to `j`.
  pub record Source (j : ℕ) (input : TxIn) : Type 0 where
    pub height : ℕ
    pub block : Block
    pub place : ℕ
    pub tx : Transaction
    pub out : TxOut
    pub earlier : height ≤ j
    pub readable : reads height ≡ ok block
    pub at_place : get_elem? block.txdata place ≡ some tx
    pub is_id : x.compute_txid tx ≡ input.previous_output.txid
    pub at_number : get_elem? tx.output input.previous_output.vout ≡ some out
    pub converts : T.tx.into out ≡ ok (spends input)

  -- A chain: ids are not used twice, an output is spent once, and by an input of its own block or of
  -- a later one.
  pub record IsChain : Type 0 where
    pub total : Converts T.tx
    pub begins : (tx : Transaction) → (blank : T.tx.Tx) × (T.tx.from tx ≡ ok blank)
    pub unique :
        (h h' : ℕ) (block block' : Block) (i i' : ℕ) (tx tx' : Transaction)
        → reads h ≡ ok block
        → reads h' ≡ ok block'
        → get_elem? block.txdata i ≡ some tx
        → get_elem? block'.txdata i' ≡ some tx'
        → x.compute_txid tx ≡ x.compute_txid tx'
        → (h ≡ h') × (i ≡ i')
    pub short :
        (h : ℕ) (block : Block) (i : ℕ) (tx : Transaction)
        → reads h ≡ ok block
        → get_elem? block.txdata i ≡ some tx
        → length tx.output < 2 ^ 32
    pub source :
        (j : ℕ) (block : Block) (k : ℕ) (input : TxIn)
        → reads j ≡ ok block
        → get_elem? (all_inputs block.txdata) k ≡ some input
        → NotNull x input
        → Source j input
    pub once :
        (j j' : ℕ) (block block' : Block) (k k' : ℕ) (input input' : TxIn)
        → reads j ≡ ok block
        → reads j' ≡ ok block'
        → get_elem? (all_inputs block.txdata) k ≡ some input
        → get_elem? (all_inputs block'.txdata) k' ≡ some input'
        → NotNull x input
        → NotNull x input'
        → input.previous_output.txid ≡ input'.previous_output.txid
        → input.previous_output.vout ≡ input'.previous_output.vout
        → (j ≡ j') × (k ≡ k')

  -- The transaction with the outputs that its inputs spend.
  unfoldable pub finish_inputs : T.tx.Tx → List TxIn → T.tx.Tx
  finish_inputs tx [] = tx
  finish_inputs tx (input ∷ is) =
      finish_inputs
        (if x.is_null input.previous_output then tx else T.tx.add_input tx (spends input)) is

  unfoldable pub finish_txs : T.Blk → List Transaction → Outcome T.Blk
  unfolding finish_inputs
  finish_txs blk [] = ok blk
  finish_txs blk (tx ∷ txs) =
      T.tx.from tx >>= λ blank. finish_txs (T.add_tx blk (finish_inputs blank tx.input)) txs

  abbrev pub expected : Block → Outcome T.Blk
  expected block = finish_txs (T.from block.header (x.block_hash block.header)) block.txdata

  -- What the worker comes to, if its inputs find the outputs that they spend.
  unfoldable pub finish : Worker T → Outcome T.Blk
  unfolding finish_txs
  finish waiting = panic
  finish failed = panic
  finish (done blk) = ok blk
  finish (between blk txs) = finish_txs blk txs
  finish (inside blk tx is txs) = finish_txs (T.add_tx blk (finish_inputs tx is)) txs
  finish (with_arc blk tx input a is txs) =
      finish_txs (T.add_tx blk (finish_inputs tx (input ∷ is))) txs
  finish (emptied blk tx none txid a is txs) = panic
  finish (emptied blk tx (some out) txid a is txs) =
      finish_txs (T.add_tx blk (finish_inputs (T.tx.add_input tx out) is)) txs

  -- The inputs whose outputs the worker has not taken.
  unfoldable pub remaining : Worker T → List TxIn
  unfolding all_inputs
  remaining waiting = []
  remaining failed = []
  remaining (done blk) = []
  remaining (between blk txs) = all_inputs txs
  remaining (inside blk tx is txs) = is ++ all_inputs txs
  remaining (with_arc blk tx input a is txs) = input ∷ is ++ all_inputs txs
  remaining (emptied blk tx out txid a is txs) = is ++ all_inputs txs
