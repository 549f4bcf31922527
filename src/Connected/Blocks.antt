-- ===== src/Connected/Blocks.antt =====
-- A block is connected as its transactions are, one by one.
use rusty_bitcoin_explorer.Common.{
  ◌≡◌, refl, sym, ap, ◌∙◌, Bool, Option, List, [], ◌∷◌, ◌++◌, append_assoc, append-nil, All,
}
use rusty_bitcoin_explorer.Error.{ok, ◌>>=◌, >>=-eq-ok, >>=_assoc, >>=_cong}
use rusty_bitcoin_explorer.External.{External, Transaction, TxIn, TxOut}
use rusty_bitcoin_explorer.Reader.{Read, ReadExact}
use rusty_bitcoin_explorer.Xor.{Seek}
use rusty_bitcoin_explorer.Xor.Laws.{xor_read}
use rusty_bitcoin_explorer.BlkFile.{FileSystem, BlkFile}
use rusty_bitcoin_explorer.BlockIndex.{BlockIndex}
use rusty_bitcoin_explorer.TxIndex.{TxDb}
use rusty_bitcoin_explorer.Script.Total.{P2pkPushes, evaluate_script-ok}
use rusty_bitcoin_explorer.External.{bitcoin}
use rusty_bitcoin_explorer.Block.{CompactTxOut, FullTxOut, map_all, compact_tx_out, full_tx_out}
use rusty_bitcoin_explorer.Connected.{
  CompactConnectedTransaction, FullConnectedTransaction, ConnectedTx, all_inputs, outpoints_count,
  all_found, add_inputs, connect_txs, compact_from_tx, full_from_tx, compact_add_input,
  full_add_input,
}
use rusty_bitcoin_explorer.Connected.Lists.{
  present, filter_all-present, map_all-append, length-map_all, map_all-ok, take_outputs-present,
}
use rusty_bitcoin_explorer.Connected.Connect.{
  connect_input, connect_tx_inputs, connect_block_inputs, compact_connect_tx, full_connect_tx,
  compact_connected_tx, full_connected_tx,
}

module _ (x : External) (pushes : P2pkPushes x) where
  pub compact_tx_out-ok : (o : TxOut) → (c : CompactTxOut) × (compact_tx_out x o ≡ ok c)
  unfolding compact_tx_out
  compact_tx_out-ok o =
      let (info, e) = evaluate_script-ok x o.script_pubkey bitcoin pushes in
      (record { value = o.value; addresses = info.addresses }, rw e)

  pub full_tx_out-ok : (o : TxOut) → (c : FullTxOut) × (full_tx_out x o ≡ ok c)
  unfolding full_tx_out
  full_tx_out-ok o =
      let (info, e) = evaluate_script-ok x o.script_pubkey bitcoin pushes in
      (
        record {
          value = o.value;
          script_pubkey = o.script_pubkey;
          script_type = info.pattern;
          addresses = info.addresses;
        },
        rw e,
      )

module _ {F : Type 0} (x : External) (checks : Bool) (fs : FileSystem F) (r : Read F) (k : Seek F)
    (exact : ReadExact (xor_read r)) where
  compact_add_inputs :
      (outs : List TxOut) (cs : List CompactTxOut) (tx : CompactConnectedTransaction)
      → map_all (compact_tx_out x) outs ≡ ok cs
      → add_inputs (compact_connected_tx x checks fs r k exact) tx outs
        ≡ ok (record tx { input = tx.input ++ cs })
  unfolding add_inputs map_all compact_add_input
  compact_add_inputs [] cs tx e =
      let nothing : [] ≡ cs = cc e in
      rw (← nothing) (ap (λ l. ok (record tx { input = l })) (sym (append-nil tx.input)))
  compact_add_inputs (o ∷ outs) cs tx e =
      let (c, first, e') = >>=-eq-ok (compact_tx_out x o) _ e in
      let (rest, later, e'') =
        >>=-eq-ok (map_all (compact_tx_out x) outs) (λ (l : List CompactTxOut). ok (c ∷ l)) e' in
      let all : c ∷ rest ≡ cs = cc e'' in
      rw first (
        compact_add_inputs outs rest (compact_add_input tx c) later
        ∙ ap (λ l. ok (record tx { input = l }))
            (append_assoc tx.input (c ∷ []) rest ∙ ap (λ l. tx.input ++ l) all))

  full_add_inputs :
      (outs : List TxOut) (cs : List FullTxOut) (tx : FullConnectedTransaction)
      → map_all (full_tx_out x) outs ≡ ok cs
      → add_inputs (full_connected_tx x checks fs r k exact) tx outs
        ≡ ok (record tx { input = tx.input ++ cs })
  unfolding add_inputs map_all full_add_input
  full_add_inputs [] cs tx e =
      let nothing : [] ≡ cs = cc e in
      rw (← nothing) (ap (λ l. ok (record tx { input = l })) (sym (append-nil tx.input)))
  full_add_inputs (o ∷ outs) cs tx e =
      let (c, first, e') = >>=-eq-ok (full_tx_out x o) _ e in
      let (rest, later, e'') =
        >>=-eq-ok (map_all (full_tx_out x) outs) (λ (l : List FullTxOut). ok (c ∷ l)) e' in
      let all : c ∷ rest ≡ cs = cc e'' in
      rw first (
        full_add_inputs outs rest (full_add_input tx c) later
        ∙ ap (λ l. ok (record tx { input = l }))
            (append_assoc tx.input (c ∷ []) rest ∙ ap (λ l. tx.input ++ l) all))

  -- To connect a transaction is to find its outputs, and to add them to the blank transaction.
  abbrev pub Attaches : ConnectedTx → Type 0
  Attaches T =
      (tx : Transaction) (t : TxDb) (i : BlockIndex) (b : BlkFile)
      → T.connect tx t i b ≡ (
          connect_tx_inputs x checks fs r k exact tx.input (x.is_coinbase tx) t i b >>= λ found.
          T.from tx >>= λ blank. add_inputs T blank found)

  pub compact-Attaches : P2pkPushes x → Attaches (compact_connected_tx x checks fs r k exact)
  unfolding compact_connect_tx compact_from_tx
  compact-Attaches pushes tx t i b =
      >>=_cong (connect_tx_inputs x checks fs r k exact tx.input (x.is_coinbase tx) t i b) _ _
        (λ found.
          let (cs, ins) = map_all-ok (compact_tx_out x) (compact_tx_out-ok x pushes) found in
          let (os, outs) = map_all-ok (compact_tx_out x) (compact_tx_out-ok x pushes) tx.output in
          rw (ins, outs) (sym (compact_add_inputs found cs _ ins)))

  pub full-Attaches : P2pkPushes x → Attaches (full_connected_tx x checks fs r k exact)
  unfolding full_connect_tx full_from_tx
  full-Attaches pushes tx t i b =
      >>=_cong (connect_tx_inputs x checks fs r k exact tx.input (x.is_coinbase tx) t i b) _ _
        (λ found.
          let (cs, ins) = map_all-ok (full_tx_out x) (full_tx_out-ok x pushes) found in
          let (os, outs) = map_all-ok (full_tx_out x) (full_tx_out-ok x pushes) tx.output in
          rw (ins, outs) (sym (full_add_inputs found cs _ ins)))

  pub inputs_found :
      (is : List TxIn) (coinbase : Bool) (t : TxDb) (i : BlockIndex) (b : BlkFile)
      (os : List (Option TxOut))
      → map_all (connect_input x checks fs r k exact t i b) is ≡ ok os
      → connect_tx_inputs x checks fs r k exact is coinbase t i b
        ≡ all_found (outpoints_count coinbase is) (present os)
  unfolding connect_tx_inputs
  inputs_found is coinbase t i b os runs =
      rw (filter_all-present (connect_input x checks fs r k exact t i b) is os runs)

  -- All inputs of the transaction are looked up without a panic.
  abbrev pub LooksUp : TxDb → BlockIndex → BlkFile → Transaction → Type 0
  LooksUp t i b tx =
      (os : List (Option TxOut)) × (map_all (connect_input x checks fs r k exact t i b) tx.input
        ≡ ok os)

  module _ (T : ConnectedTx) (t : TxDb) (i : BlockIndex) (b : BlkFile) where
    -- What is left of the block's loop is what the transactions give one by one.
    connect_txs-eq-map_all :
        Attaches T
        → (txs : List Transaction) → All (LooksUp t i b) txs
        → (os : List (Option TxOut)) × (map_all
              (connect_input x checks fs r k exact t i b)
              (all_inputs txs)
            ≡ ok os)
          × (connect_txs x T txs os ≡ map_all (λ tx. T.connect tx t i b) txs)
    unfolding connect_txs all_inputs map_all
    connect_txs-eq-map_all attaches [] h = ([], refl, refl)
    connect_txs-eq-map_all attaches (tx ∷ txs) ((os, runs), h) =
        let f = connect_input x checks fs r k exact t i b in
        let (rest, runs', same) = connect_txs-eq-map_all attaches txs h in
        let taken = take_outputs-present tx.input os rest [] (length-map_all f tx.input os runs) in
        (
          os ++ rest,
          map_all-append f tx.input (all_inputs txs) os rest runs runs',
          rw
              (
                taken,
                attaches tx t i b,
                inputs_found tx.input (x.is_coinbase tx) t i b os runs,
                same,
              )
              (simp >>=_assoc),
        )

  -- Where no look-up of an input panics, connecting a block gives what connecting its transactions one
  -- by one gives, in either format: the same transactions, or the error of the first that has an
  -- output missing.
  pub connect_block_inputs-map_all :
      (txs : List Transaction) (t : TxDb) (i : BlockIndex) (b : BlkFile)
      → P2pkPushes x
      → All (LooksUp t i b) txs
      → (connect_block_inputs x checks fs r k exact
            (compact_connected_tx x checks fs r k exact)
            txs
            t
            i
            b
          ≡ map_all (λ tx. compact_connect_tx x checks fs r k exact tx t i b) txs)
        × (connect_block_inputs x checks fs r k exact
              (full_connected_tx x checks fs r k exact)
              txs
              t
              i
              b
            ≡ map_all (λ tx. full_connect_tx x checks fs r k exact tx t i b) txs)
  unfolding connect_block_inputs
  connect_block_inputs-map_all txs t i b pushes h =
      let compact = compact_connected_tx x checks fs r k exact in
      let full = full_connected_tx x checks fs r k exact in
      let (os, runs, same) = connect_txs-eq-map_all compact t i b (compact-Attaches pushes) txs h in
      let (os', runs', same') = connect_txs-eq-map_all full t i b (full-Attaches pushes) txs h in
      (rw runs same, rw runs' same')
