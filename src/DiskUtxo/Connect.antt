-- ===== src/DiskUtxo/Connect.antt =====
-- Blocks that are connected from the cache on disk, and through the transaction index.
use rusty_bitcoin_explorer.Common.{
  ℕ, suc, ◌+◌, ◌≡◌, ◌⊎◌, inl, inr, refl, ap, ◌∙◌, Bool, true, Option, none, some, List, [], ◌∷◌,
  ◌++◌, map, length, get_elem?, All, arith, if◌then◌else◌,
}
use mathlib.Core.List.{map-append}
use rusty_bitcoin_explorer.Common.Map
use rusty_bitcoin_explorer.Common.Map.{bytes_key, bytes_eq, get-remove}
use rusty_bitcoin_explorer.Error.{ok}
use rusty_bitcoin_explorer.External.{External, Block, Transaction, TxIn, TxOut}
use rusty_bitcoin_explorer.Reader.{Read, ReadExact}
use rusty_bitcoin_explorer.Xor.{Seek}
use rusty_bitcoin_explorer.Xor.Laws.{xor_read}
use rusty_bitcoin_explorer.BlkFile.{FileSystem, BlkFile}
use rusty_bitcoin_explorer.BlockIndex.{BlockIndex}
use rusty_bitcoin_explorer.TxIndex.{TxDb}
use rusty_bitcoin_explorer.Script.Total.{P2pkPushes}
use rusty_bitcoin_explorer.Block.{map_all}
use rusty_bitcoin_explorer.Connected.{ConnectedTx, ConnectedBlock, add_inputs}
use rusty_bitcoin_explorer.Connected.Lists.{present}
use rusty_bitcoin_explorer.Connected.Connect.{connect_input}
use rusty_bitcoin_explorer.Connected.Blocks.{Attaches, LooksUp, inputs_found}
use rusty_bitcoin_explorer.Utxo.Inputs.{IsNull, NotNull, connect_null}
use rusty_bitcoin_explorer.Utxo.Agree.{add_all, IsCoinbaseOrSpends, found-All}
use rusty_bitcoin_explorer.Utxo.Formats.{Format, format, format-IsFormat}
use rusty_bitcoin_explorer.DiskUtxo.{
  Bytes, RocksDb, Works, Codec, txout_key, input_keys, block_keys, fetch_inputs, fetch_txs,
  delete_all, connect_outpoints,
}

-- What is left under each key when the keys are deleted.
abbrev pub deleted : List Bytes → (Bytes → Option Bytes) → Bytes → Option Bytes
deleted [] u = u
deleted (key ∷ keys) u = deleted keys (λ j. if bytes_eq key j then none else u j)

-- What `multi_get` gives.
abbrev pub results : (Bytes → Option Bytes) → List Bytes → List (Option (Option Bytes))
results u keys = map (λ key. some (u key)) keys

deleted_cong :
    (keys : List Bytes) (u v : Bytes → Option Bytes)
    → ((j : Bytes) → u j ≡ v j)
    → (j : Bytes) → deleted keys u j ≡ deleted keys v j
deleted_cong [] u v h j = h j
deleted_cong (key ∷ keys) u v h j = deleted_cong keys _ _ (λ i. rw (h i)) j

module _ {D : Type 0} (db : RocksDb D) where
  pub delete_all-deleted :
      (w : Works db) (keys : List Bytes) (d : D)
      → (d' : D) × (delete_all db keys d ≡ (true, d'))
        × ((j : Bytes)
            → Map.get (db.entries d') j ≡ deleted keys (λ key. Map.get (db.entries d) key) j)
  unfolding delete_all
  delete_all-deleted w [] d = (d, refl, λ j. refl)
  delete_all-deleted w (key ∷ keys) d =
      let (d1, first, one) = w.deletes key d in
      let (d2, rest, more) = delete_all-deleted w keys d1 in
      (
        d2,
        rw first rest,
        λ j. more j ∙ deleted_cong keys _ _ (λ i. one i ∙ get-remove (db.entries d) key i) j,
      )

module _ {F : Type 0} (x : External) (e : Codec) (checks : Bool) (fs : FileSystem F) (r : Read F)
    (k : Seek F) (exact : ReadExact (xor_read r)) (T : ConnectedTx) (t : TxDb) (idx : BlockIndex)
    (b : BlkFile) (u : Bytes → Option Bytes) where
  -- The cache has, encoded, the output that the index finds for the input.
  pub record Fetchable (i : TxIn) : Type 0 where
    pub spends : NotNull x i
    pub out : TxOut
    pub converted : T.Out
    pub encoded : Bytes
    pub connects : connect_input x checks fs r k exact t idx b i ≡ ok (some out)
    pub converts : T.into out ≡ ok converted
    pub stored : u (txout_key x e i.previous_output.txid i.previous_output.vout) ≡ some encoded
    pub decodes : e.decode_txout encoded ≡ some out

  abbrev pub Stored : TxIn → Type 0
  Stored i = IsNull x i ⊎ Fetchable i

  -- From `pos` on, `tx_outs` has just the results `l`.
  abbrev pub HasFrom : List (Option (Option Bytes)) → ℕ → List (Option (Option Bytes)) → Type 0
  HasFrom tx_outs pos l = (n : ℕ) → get_elem? tx_outs (pos + n) ≡ get_elem? l n

  -- What a run over the inputs of a transaction does, with the results `l` for later inputs.
  pub record Fetched (tx_outs l : List (Option (Option Bytes))) (tx : T.Tx) (is : List TxIn)
      (pos : ℕ) : Type 0 where
    pub os : List (Option TxOut)
    pub connected : T.Tx
    pub last : ℕ
    pub looked_up : map_all (connect_input x checks fs r k exact t idx b) is ≡ ok os
    pub fetches : fetch_inputs x e T tx_outs tx is pos ≡ ok (some (connected, last))
    pub adds : add_inputs T tx (present os) ≡ ok connected
    pub has : HasFrom tx_outs last l
    pub all_there : All (NotNull x) is → length (present os) ≡ length is
    pub none_there : All (IsNull x) is → present os ≡ []

  pub fetch_inputs-Fetched :
      (tx_outs l : List (Option (Option Bytes))) (tx : T.Tx) (is : List TxIn) (pos : ℕ)
      → All Stored is
      → HasFrom tx_outs pos (results u (input_keys x e is) ++ l)
      → Fetched tx_outs l tx is pos
  unfolding fetch_inputs add_inputs map_all input_keys
  fetch_inputs-Fetched tx_outs l tx [] pos h has = record {
    os = [];
    connected = tx;
    last = pos;
    looked_up = refl;
    fetches = refl;
    adds = refl;
    has = has;
    all_there = λ h. refl;
    none_there = λ h. refl;
  }
  fetch_inputs-Fetched tx_outs l tx (i ∷ is) pos (inl empty, h) has =
      let s = fetch_inputs-Fetched tx_outs l tx is pos h (rw empty at has) in
      record {
        os = none ∷ s.os;
        connected = s.connected;
        last = s.last;
        looked_up = rw (connect_null x checks fs r k exact T t idx b i empty, s.looked_up);
        fetches = rw empty s.fetches;
        adds = s.adds;
        has = s.has;
        all_there = λ h. cc (h.0, empty);
        none_there = λ h. s.none_there h.1;
      }
  fetch_inputs-Fetched tx_outs l tx (i ∷ is) pos (inr p, h) has =
      let key = txout_key x e i.previous_output.txid i.previous_output.vout in
      let here : HasFrom tx_outs pos (some (u key) ∷ results u (input_keys x e is) ++ l) =
        rw p.spends at has in
      let now : get_elem? tx_outs pos ≡ some (some (some p.encoded)) =
        ap (get_elem? tx_outs) (omega arith) ∙ here 0 ∙ ap (λ o. some (some o)) p.stored in
      let s =
        fetch_inputs-Fetched tx_outs l (T.add_input tx p.converted) is (pos + 1) h
          (λ n. ap (get_elem? tx_outs) (omega arith) ∙ here (suc n)) in
      record {
        os = some p.out ∷ s.os;
        connected = s.connected;
        last = s.last;
        looked_up = rw (p.connects, s.looked_up);
        fetches = rw (p.spends, now, p.decodes, p.converts) s.fetches;
        adds = rw p.converts s.adds;
        has = s.has;
        all_there = λ h. ap suc (s.all_there h.1);
        none_there = λ h. cc (h.0, p.spends);
      }

module _ {F : Type 0} (x : External) (e : Codec) (checks : Bool) (fs : FileSystem F) (r : Read F)
    (k : Seek F) (exact : ReadExact (xor_read r)) where
  module _ (T : ConnectedBlock) (t : TxDb) (idx : BlockIndex) (b : BlkFile)
      (u : Bytes → Option Bytes) where
    -- What a run over transactions does.
    pub record FetchedAll (tx_outs : List (Option (Option Bytes))) (blk : T.Blk)
        (txs : List Transaction) (pos : ℕ) : Type 0 where
      pub connected : List T.tx.Tx
      pub fetches : fetch_txs x e T tx_outs blk txs pos ≡ ok (some (add_all T blk connected))
      pub one_by_one : map_all (λ tx. T.tx.connect tx t idx b) txs ≡ ok connected
      pub looks_up : All (LooksUp x checks fs r k exact t idx b) txs

    pub fetch_txs-FetchedAll :
        Attaches x checks fs r k exact T.tx
        → ((tx : Transaction) → (blank : T.tx.Tx) × (T.tx.from tx ≡ ok blank))
        → (tx_outs : List (Option (Option Bytes))) (blk : T.Blk) (txs : List Transaction) (pos : ℕ)
        → All (IsCoinbaseOrSpends x) txs
        → All (λ tx. All (Stored x e checks fs r k exact T.tx t idx b u) tx.input) txs
        → HasFrom x e checks fs r k exact T.tx t idx b u tx_outs pos
            (results u (block_keys x e txs))
        → FetchedAll tx_outs blk txs pos
    unfolding fetch_txs map_all block_keys
    fetch_txs-FetchedAll attaches starts tx_outs blk [] pos kinds stored has = record {
      connected = [];
      fetches = refl;
      one_by_one = refl;
      looks_up = tt;
    }
    fetch_txs-FetchedAll attaches starts tx_outs blk (tx ∷ txs) pos (kind, kinds) (h, stored) has =
        let (blank, starts_tx) = starts tx in
        let s =
          fetch_inputs-Fetched x e checks fs r k exact T.tx t idx b u tx_outs
            (results u (block_keys x e txs)) blank tx.input pos h
            (λ n.
              has n
              ∙ ap (λ l. get_elem? l n)
                  (map-append (λ key. some (u key)) (input_keys x e tx.input)
                    (block_keys x e txs))) in
        let rest =
          fetch_txs-FetchedAll attaches starts tx_outs (T.add_tx blk s.connected) txs s.last kinds
            stored s.has in
        let found =
          inputs_found x checks fs r k exact tx.input (x.is_coinbase tx) t idx b s.os s.looked_up
          ∙ found-All x checks fs r k exact T t idx b tx (present s.os) kind s.all_there
              s.none_there in
        record {
          connected = s.connected ∷ rest.connected;
          fetches = rw (starts_tx, s.fetches) rest.fetches;
          one_by_one = rw (attaches tx t idx b, found, starts_tx, s.adds, rest.one_by_one);
          looks_up = ((s.os, s.looked_up), rest.looks_up);
        }

  -- In either format, connecting a block from the cache on disk gives the block that is connected
  -- through the transaction index, where the database works and has the outputs that the index finds.
  -- Just those outputs are deleted.
  pub connect_outpoints_disk-eq-connect :
      {D : Type 0} (db : RocksDb D) (f : Format) (t : TxDb) (idx : BlockIndex) (b : BlkFile)
      (block : Block) (d : D)
      → Works db
      → P2pkPushes x
      → All (IsCoinbaseOrSpends x) block.txdata
      → All
          (λ tx.
            All
              (Stored x e checks fs r k exact
                (format x checks fs r k exact f).tx
                t
                idx
                b
                (λ key. Map.get (db.entries d) key))
              tx.input)
          block.txdata
      → (connected : (format x checks fs r k exact f).Blk) × (d' : D) × (connect_outpoints db x e
            (format x checks fs r k exact f)
            d
            block
          ≡ ok (some connected, d'))
        × ((format x checks fs r k exact f).connect block t idx b ≡ ok connected)
        × ((key : Bytes)
            → Map.get (db.entries d') key
              ≡ deleted (block_keys x e block.txdata) (λ j. Map.get (db.entries d) j) key)
  unfolding connect_outpoints
  connect_outpoints_disk-eq-connect db f t idx b block d w pushes kinds stored =
      let T = format x checks fs r k exact f in
      let u = λ (key : Bytes). Map.get (db.entries d) key in
      let laws = format-IsFormat x checks fs r k exact pushes f in
      let blank = T.from block.header (x.block_hash block.header) in
      let keys = block_keys x e block.txdata in
      let (d', removes, left) = delete_all-deleted db w keys d in
      let run =
        fetch_txs-FetchedAll T t idx b u laws.attaches laws.starts (results u keys) blank
          block.txdata 0 kinds stored (λ n. ap (get_elem? (results u keys)) (omega arith)) in
      (
        add_all T blank run.connected,
        d',
        rw (w.gets keys d, removes, run.fetches),
        laws.builds block t idx b run.connected run.one_by_one run.looks_up,
        left,
      )
