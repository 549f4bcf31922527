-- ===== src/Utxo/Formats.antt =====
-- In both formats, a block that is connected from the cache is the block that is connected through
-- the transaction index.
use rusty_bitcoin_explorer.Common.{
  ◌≡◌, sym, ap, ◌∙◌, Bool, some, List, [], ◌∷◌, ◌++◌, append_assoc, append-nil, All,
}
use rusty_bitcoin_explorer.Error.{ok}
use rusty_bitcoin_explorer.External.{External, Block, Transaction}
use rusty_bitcoin_explorer.Reader.{Read, ReadExact}
use rusty_bitcoin_explorer.Xor.{Seek}
use rusty_bitcoin_explorer.Xor.Laws.{xor_read}
use rusty_bitcoin_explorer.BlkFile.{FileSystem, BlkFile}
use rusty_bitcoin_explorer.BlockIndex.{BlockIndex}
use rusty_bitcoin_explorer.TxIndex.{TxDb}
use rusty_bitcoin_explorer.Script.Total.{P2pkPushes}
use rusty_bitcoin_explorer.Block.{map_all}
use rusty_bitcoin_explorer.Connected.{
  ConnectedBlock, CompactConnectedBlock, FullConnectedBlock, CompactConnectedTransaction,
  FullConnectedTransaction, all_inputs, compact_from_tx, full_from_tx, compact_add_tx, full_add_tx,
  compact_from_header, full_from_header,
}
use rusty_bitcoin_explorer.Connected.Lists.{map_all-ok}
use rusty_bitcoin_explorer.Connected.Connect.{
  compact_connected_block, full_connected_block, compact_connect_block, full_connect_block,
}
use rusty_bitcoin_explorer.Connected.Blocks.{
  Attaches, LooksUp, compact-Attaches, full-Attaches, connect_block_inputs-map_all,
  compact_tx_out-ok, full_tx_out-ok,
}
use rusty_bitcoin_explorer.Utxo.{Cache, connect_outpoints}
use rusty_bitcoin_explorer.Utxo.Contents.{contents, AllCounted}
use rusty_bitcoin_explorer.Utxo.Inputs.{Distinct, left_over, Ready}
use rusty_bitcoin_explorer.Utxo.Agree.{add_all, IsCoinbaseOrSpends, spend_txs-Connects}

-- The formats of connected blocks.
pub data Format : Type 0 where
  compact full : Format

compact_add_all :
    {F : Type 0} (x : External) (checks : Bool) (fs : FileSystem F) (r : Read F) (k : Seek F)
    (exact : ReadExact (xor_read r)) (blk : CompactConnectedBlock)
    (txs : List CompactConnectedTransaction)
    → add_all (compact_connected_block x checks fs r k exact) blk txs
      ≡ record blk { txdata = blk.txdata ++ txs }
unfolding compact_add_tx
compact_add_all x checks fs r k exact blk [] =
    ap (λ l. record blk { txdata = l }) (sym (append-nil blk.txdata))
compact_add_all x checks fs r k exact blk (tx ∷ txs) =
    compact_add_all x checks fs r k exact (compact_add_tx blk tx) txs
    ∙ ap (λ l. record blk { txdata = l }) (append_assoc blk.txdata (tx ∷ []) txs)

full_add_all :
    {F : Type 0} (x : External) (checks : Bool) (fs : FileSystem F) (r : Read F) (k : Seek F)
    (exact : ReadExact (xor_read r)) (blk : FullConnectedBlock)
    (txs : List FullConnectedTransaction)
    → add_all (full_connected_block x checks fs r k exact) blk txs
      ≡ record blk { txdata = blk.txdata ++ txs }
unfolding full_add_tx
full_add_all x checks fs r k exact blk [] =
    ap (λ l. record blk { txdata = l }) (sym (append-nil blk.txdata))
full_add_all x checks fs r k exact blk (tx ∷ txs) =
    full_add_all x checks fs r k exact (full_add_tx blk tx) txs
    ∙ ap (λ l. record blk { txdata = l }) (append_assoc blk.txdata (tx ∷ []) txs)

module _ {F : Type 0} (x : External) (checks : Bool) (fs : FileSystem F) (r : Read F) (k : Seek F)
    (exact : ReadExact (xor_read r)) where
  abbrev pub format : Format → ConnectedBlock
  format compact = compact_connected_block x checks fs r k exact
  format full = full_connected_block x checks fs r k exact

  -- What the two implementations of the traits have in common.
  pub record IsFormat (T : ConnectedBlock) : Type 0 where
    pub attaches : Attaches x checks fs r k exact T.tx
    pub starts : (tx : Transaction) → (blank : T.tx.Tx) × (T.tx.from tx ≡ ok blank)
    pub builds :
        (block : Block) (t : TxDb) (i : BlockIndex) (b : BlkFile) (txs : List T.tx.Tx)
        → map_all (λ tx. T.tx.connect tx t i b) block.txdata ≡ ok txs
        → All (LooksUp x checks fs r k exact t i b) block.txdata
        → T.connect block t i b
          ≡ ok (add_all T (T.from block.header (x.block_hash block.header)) txs)

  compact_starts :
      P2pkPushes x
      → (tx : Transaction)
      → (blank : CompactConnectedTransaction) × (compact_from_tx x tx ≡ ok blank)
  unfolding compact_from_tx
  compact_starts pushes tx =
      let (outs, run) = map_all-ok _ (compact_tx_out-ok x pushes) tx.output in
      (record { txid = x.compute_txid tx; input = []; output = outs }, rw run)

  full_starts :
      P2pkPushes x
      → (tx : Transaction) → (blank : FullConnectedTransaction) × (full_from_tx x tx ≡ ok blank)
  unfolding full_from_tx
  full_starts pushes tx =
      let (outs, run) = map_all-ok _ (full_tx_out-ok x pushes) tx.output in
      (
        record {
          version = tx.version;
          lock_time = tx.lock_time;
          txid = x.compute_txid tx;
          input = [];
          output = outs;
        },
        rw run,
      )

  compact-IsFormat : P2pkPushes x → IsFormat (format compact)
  unfolding compact_connect_block compact_from_header
  compact-IsFormat pushes = record {
    attaches = compact-Attaches x checks fs r k exact pushes;
    starts = compact_starts pushes;
    builds = λ block t i b txs runs looks. rw (
      (connect_block_inputs-map_all x checks fs r k exact block.txdata t i b pushes looks).0,
      runs,
      compact_add_all,
    );
  }

  full-IsFormat : P2pkPushes x → IsFormat (format full)
  unfolding full_connect_block full_from_header
  full-IsFormat pushes = record {
    attaches = full-Attaches x checks fs r k exact pushes;
    starts = full_starts pushes;
    builds = λ block t i b txs runs looks. rw (
      (connect_block_inputs-map_all x checks fs r k exact block.txdata t i b pushes looks).1,
      runs,
      full_add_all,
    );
  }

  pub format-IsFormat : P2pkPushes x → (f : Format) → IsFormat (format f)
  format-IsFormat pushes compact = compact-IsFormat pushes
  format-IsFormat pushes full = full-IsFormat pushes

  -- In either format, connecting a block from the cache in memory gives the block that is connected
  -- through the transaction index, where the cache has the outputs that the index finds and no two
  -- inputs of the block spend one output. Just those outputs are taken out of the cache.
  pub connect_outpoints-eq-connect :
      (f : Format) (t : TxDb) (i : BlockIndex) (b : BlkFile) (block : Block)
      (c : Cache (format f).tx.Out)
      → P2pkPushes x
      → All (IsCoinbaseOrSpends x) block.txdata
      → AllCounted c
      → All (Ready x checks fs r k exact (format f).tx t i b (contents c)) (all_inputs block.txdata)
      → Distinct x (all_inputs block.txdata)
      → (connected : (format f).Blk) × (c' : Cache (format f).tx.Out) × (connect_outpoints x checks
            (format f)
            c
            block
          ≡ ok (some connected, c'))
        × ((format f).connect block t i b ≡ ok connected)
        × (contents c' ≡ left_over x (all_inputs block.txdata) (contents c))
        × AllCounted c'
  unfolding connect_outpoints
  connect_outpoints-eq-connect f t i b block c pushes kinds counted ready distinct =
      let T = format f in
      let laws = format-IsFormat pushes f in
      let blank = T.from block.header (x.block_hash block.header) in
      let run =
        spend_txs-Connects x checks fs r k exact T t i b laws.attaches laws.starts blank
          block.txdata c kinds counted ready distinct in
      (
        add_all T blank run.connected,
        run.cache,
        run.spends,
        laws.builds block t i b run.connected run.one_by_one run.looks_up,
        run.left,
        run.counted,
      )
