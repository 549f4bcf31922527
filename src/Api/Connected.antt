-- ===== src/Api/Connected.antt =====
-- Connected blocks and connected transactions agree.
use rusty_bitcoin_explorer.Common.{
  ℕ, ◌≡◌, refl, sym, ap, ◌∙◌, Bool, Option, some, List, [], ◌∷◌, ◌++◌, get_elem?, All,
}
use rusty_bitcoin_explorer.Error.{Outcome, ok, >>=-eq-ok, tx_db_unavailable}
use rusty_bitcoin_explorer.External.{External, Hash, Block, Transaction, TxOut}
use rusty_bitcoin_explorer.Reader.{Read, ReadExact}
use rusty_bitcoin_explorer.Xor.{Seek}
use rusty_bitcoin_explorer.Xor.Laws.{xor_read}
use rusty_bitcoin_explorer.BlkFile.{FileSystem, BlkFile, ok_or}
use rusty_bitcoin_explorer.BlockIndex.{BlockIndex}
use rusty_bitcoin_explorer.TxIndex.{TxDb}
use rusty_bitcoin_explorer.Script.Total.{P2pkPushes}
use rusty_bitcoin_explorer.Block.{map_all, compact_header, full_header}
use rusty_bitcoin_explorer.Connected.{
  ConnectedBlock, CompactConnectedBlock, FullConnectedBlock, all_inputs,
}
use rusty_bitcoin_explorer.Connected.Lists.{get_elem?-map_all}
use rusty_bitcoin_explorer.Connected.Connect.{
  connect_input, connect_block_inputs, compact_connect_block, full_connect_block,
}
use rusty_bitcoin_explorer.Connected.Blocks.{LooksUp, connect_block_inputs-map_all}
use rusty_bitcoin_explorer.Utxo.Formats.{Format, compact, full, format}
use rusty_bitcoin_explorer.Api.{
  BitcoinDb, get_block, get_transaction, get_connected_block, get_connected_transaction,
}

module _ {A B : Type 0} (f : A → Outcome B) where
  map_all-split :
      (xs ys : List A) (bs : List B)
      → map_all f (xs ++ ys) ≡ ok bs
      → (cs ds : List B) × (map_all f xs ≡ ok cs) × (map_all f ys ≡ ok ds)
  unfolding map_all
  map_all-split [] ys bs e = ([], bs, refl, e)
  map_all-split (x ∷ xs) ys bs e =
      let (b, first, e') = >>=-eq-ok (f x) _ e in
      let (rest, later, e'') = >>=-eq-ok (map_all f (xs ++ ys)) _ e' in
      let (cs, ds, ran, left) = map_all-split xs ys rest later in
      (b ∷ cs, ds, rw (first, ran), left)

module _ {F : Type 0} (x : External) (checks : Bool) (fs : FileSystem F) (r : Read F) (k : Seek F)
    (exact : ReadExact (xor_read r)) where
  All-LooksUp :
      (txs : List Transaction) (t : TxDb) (i : BlockIndex) (b : BlkFile) (os : List (Option TxOut))
      → map_all (connect_input x checks fs r k exact t i b) (all_inputs txs) ≡ ok os
      → All (LooksUp x checks fs r k exact t i b) txs
  unfolding all_inputs
  All-LooksUp [] t i b os e = tt
  All-LooksUp (tx ∷ txs) t i b os e =
      let (cs, ds, first, later) =
        map_all-split (connect_input x checks fs r k exact t i b) tx.input (all_inputs txs) os e in
      ((cs, first), All-LooksUp txs t i b ds later)

  abbrev of_format : Format → ConnectedBlock
  of_format = format x checks fs r k exact

  -- The transactions of a connected block.
  abbrev pub txdata_of :
      (f : Format)
      → (format x checks fs r k exact f).Blk
      → List (format x checks fs r k exact f).tx.Tx
  txdata_of compact blk = blk.txdata
  txdata_of full blk = blk.txdata

  looked_up :
      (f : Format) (txs : List Transaction) (t : TxDb) (i : BlockIndex) (b : BlkFile)
      (out : List (of_format f).tx.Tx)
      → connect_block_inputs x checks fs r k exact (of_format f).tx txs t i b ≡ ok out
      → All (LooksUp x checks fs r k exact t i b) txs
  unfolding connect_block_inputs
  looked_up f txs t i b out e =
      let (os, runs, _) =
        >>=-eq-ok (map_all (connect_input x checks fs r k exact t i b) (all_inputs txs)) _ e in
      All-LooksUp txs t i b os runs

  connected_one_by_one :
      (f : Format) (txs : List Transaction) (t : TxDb) (i : BlockIndex) (b : BlkFile)
      (out : List (of_format f).tx.Tx)
      → P2pkPushes x
      → connect_block_inputs x checks fs r k exact (of_format f).tx txs t i b ≡ ok out
      → map_all (λ tx. (of_format f).tx.connect tx t i b) txs ≡ ok out
  connected_one_by_one compact txs t i b out pushes e =
      sym
        (connect_block_inputs-map_all x checks fs r k exact txs t i b pushes
          (looked_up compact txs t i b out e)).0
      ∙ e
  connected_one_by_one full txs t i b out pushes e =
      sym
        (connect_block_inputs-map_all x checks fs r k exact txs t i b pushes
          (looked_up full txs t i b out e)).1
      ∙ e

  at_place :
      (f : Format) (blk : Block) (t : TxDb) (i : BlockIndex) (b : BlkFile) (n : ℕ)
      (tx : Transaction) (connected : (of_format f).Blk)
      → P2pkPushes x
      → (of_format f).connect blk t i b ≡ ok connected
      → get_elem? blk.txdata n ≡ some tx
      → (ctx : (of_format f).tx.Tx) × (get_elem? (txdata_of f connected) n ≡ some ctx)
        × ((of_format f).tx.connect tx t i b ≡ ok ctx)
  unfolding compact_connect_block full_connect_block
  at_place compact blk t i b n tx connected pushes e at =
      let (out, made, e') =
        >>=-eq-ok
          (connect_block_inputs x checks fs r k exact (of_format compact).tx blk.txdata t i b) _
          e in
      let same : record {
        header = compact_header blk.header (x.block_hash blk.header);
        txdata = out;
      }
          ≡ connected =
        cc e' in
      let (ctx, there, connects) =
        get_elem?-map_all (λ tx. (of_format compact).tx.connect tx t i b) blk.txdata out n tx
          (connected_one_by_one compact blk.txdata t i b out pushes made) at in
      (ctx, ap (λ (c : CompactConnectedBlock). get_elem? c.txdata n) (sym same) ∙ there, connects)
  at_place full blk t i b n tx connected pushes e at =
      let (out, made, e') =
        >>=-eq-ok (connect_block_inputs x checks fs r k exact (of_format full).tx blk.txdata t i b)
          _ e in
      let same : record { header = full_header blk.header (x.block_hash blk.header); txdata = out }
          ≡ connected =
        cc e' in
      let (ctx, there, connects) =
        get_elem?-map_all (λ tx. (of_format full).tx.connect tx t i b) blk.txdata out n tx
          (connected_one_by_one full blk.txdata t i b out pushes made) at in
      (ctx, ap (λ (c : FullConnectedBlock). get_elem? c.txdata n) (sym same) ∙ there, connects)

  -- In either format, where the scripts that pay to a public key push one, a transaction of a connected
  -- block is what a query for the connected transaction returns, where its id finds the transaction: it
  -- stands at the same place in the block.
  pub get_connected_transaction-get_connected_block :
      (f : Format) (db : BitcoinDb) (height i : ℕ) (blk : Block)
      (connected : (format x checks fs r k exact f).Blk) (tx : Transaction) (txid : Hash)
      → P2pkPushes x
      → get_connected_block x checks fs r k exact (format x checks fs r k exact f) db height
        ≡ ok connected
      → get_block x checks fs r k exact ok db height ≡ ok blk
      → get_elem? blk.txdata i ≡ some tx
      → get_transaction x checks fs r k exact ok db txid ≡ ok tx
      → (ctx : (format x checks fs r k exact f).tx.Tx) × (get_elem? (txdata_of f connected) i
          ≡ some ctx)
        × (get_connected_transaction x checks fs r k exact
              (format x checks fs r k exact f).tx
              db
              txid
            ≡ ok ctx)
  unfolding get_connected_block get_connected_transaction
  get_connected_transaction-get_connected_block f db height i blk connected tx txid pushes e
        is_block at is_tx =
      let (t, has, e₁) = >>=-eq-ok (ok_or db.tx_db tx_db_unavailable) _ e in
      let e₂ = rw is_block at e₁ in
      let (ctx, there, connects) =
        at_place f blk t db.block_index db.blk_file i tx connected pushes e₂ at in
      (ctx, there, rw (has, is_tx) connects)
