-- ===== src/DiskIter/Effects.antt =====
-- What a task of the first stage does to the database.
use rusty_bitcoin_explorer.Common.{
  ℕ, ◌≡◌, ◌≢◌, ◌<◌, ◌^◌, refl, sym, ap, ◌∙◌, Bool, none, some, get_elem?, arith, get_elem?-lt,
}
use rusty_bitcoin_explorer.Common.Map
use rusty_bitcoin_explorer.Common.Map.{bytes_key}
use rusty_bitcoin_explorer.Error.{Outcome, ok, err, panic, stuck, >>=-eq-ok}
use rusty_bitcoin_explorer.External.{External, Block, Transaction, TxIn, TxOut}
use rusty_bitcoin_explorer.Reader.{Read, ReadExact}
use rusty_bitcoin_explorer.Xor.{Seek}
use rusty_bitcoin_explorer.Xor.Laws.{xor_read}
use rusty_bitcoin_explorer.BlkFile.{FileSystem}
use rusty_bitcoin_explorer.TxIndex.{TxDb}
use rusty_bitcoin_explorer.Api.{BitcoinDb}
use rusty_bitcoin_explorer.DiskUtxo.{
  Bytes, RocksDb, Works, Codec, txout_key, put_txs, update_unspent_cache,
}
use rusty_bitcoin_explorer.DiskUtxo.Update.{
  SpellsKeys, txout_key_injective, update_unspent_cache_disk_lem,
}
use rusty_bitcoin_explorer.ConnectedIter.Deliver.{block_at}
use rusty_bitcoin_explorer.DiskIter.Chain.{Source, IsChain}
use rusty_bitcoin_explorer.DiskIter.Keys.{key_of}

module _ {F D : Type 0} (db : RocksDb D) (x : External) (e : Codec) (checks : Bool)
    (fs : FileSystem F) (r : Read F) (k : Seek F) (exact : ReadExact (xor_read r)) (db' : BitcoinDb)
    (t : TxDb) (w : Works db) (inj : SpellsKeys x e) where
  abbrev reads : ℕ → Outcome Block
  reads = block_at x checks fs r k exact db'

  abbrev pub Chain : Type 0
  Chain = IsChain x checks fs r k exact t db'.block_index db'.blk_file reads

  abbrev pub Spends : ℕ → TxIn → Type 0
  Spends = Source x checks fs r k exact t db'.block_index db'.blk_file reads

  pub update-read :
      (d d' : D) (h : ℕ) (block : Block)
      → update_unspent_cache db x e checks fs r k exact d db' h ≡ ok (some block, d')
      → reads h ≡ ok block
  unfolding update_unspent_cache
  update-read d d' h block runs = by_read (reads h) refl
    where
      by_read : (o : Outcome Block) → reads h ≡ o → reads h ≡ ok block
      by_read (ok b) is =
          let (batch, puts, writes) =
            >>=-eq-ok (put_txs x e checks b.txdata) _ (rw (update_unspent_cache, is) at runs) in
          let (d2, written, entries) = w.puts batch d in
          let same : b ≡ block = cc (rw written at writes) in is ∙ ap ok same
      by_read (err error) is = cc (rw (update_unspent_cache, is) at runs)
      by_read panic is = cc (rw (update_unspent_cache, is) at runs)
      by_read stuck is = cc (rw (update_unspent_cache, is) at runs)

  -- Where the database works, a task fails only at the read, and leaves the database.
  pub update-missed :
      (d d' : D) (h : ℕ)
      → update_unspent_cache db x e checks fs r k exact d db' h ≡ ok (none, d')
      → (d ≡ d') × ((block : Block) → reads h ≢ ok block)
  unfolding update_unspent_cache
  update-missed d d' h runs = by_read (reads h) refl
    where
      by_read :
          (o : Outcome Block) → reads h ≡ o → (d ≡ d') × ((block : Block) → reads h ≢ ok block)
      by_read (ok b) is =
          let (batch, puts, writes) =
            >>=-eq-ok (put_txs x e checks b.txdata) _ (rw (update_unspent_cache, is) at runs) in
          let (d2, written, entries) = w.puts batch d in cc (rw written at writes)
      by_read (err error) is =
          let same : d ≡ d' = cc (rw (update_unspent_cache, is) at runs) in
          (same, λ block reads_h. let both : err error ≡ ok block = sym is ∙ reads_h in cc both)
      by_read panic is = cc (rw (update_unspent_cache, is) at runs)
      by_read stuck is = cc (rw (update_unspent_cache, is) at runs)

  -- The database with the outputs of a block.
  pub record Added (d : D) (h : ℕ) (block : Block) : Type 0 where
    pub d' : D
    pub runs : update_unspent_cache db x e checks fs r k exact d db' h ≡ ok (some block, d')
    pub stored :
        (i : ℕ) (tx : Transaction) (n : ℕ) (o : TxOut)
        → get_elem? block.txdata i ≡ some tx
        → get_elem? tx.output n ≡ some o
        → Map.get (db.entries d') (txout_key x e (x.compute_txid tx) n) ≡ some (e.encode_txout o)
    pub kept :
        (key : Bytes)
        → ((i : ℕ) (tx : Transaction) (n : ℕ) (o : TxOut)
            → get_elem? block.txdata i ≡ some tx
            → get_elem? tx.output n ≡ some o
            → txout_key x e (x.compute_txid tx) n ≢ key)
        → Map.get (db.entries d') key ≡ Map.get (db.entries d) key

  pub update-Added : Chain → (d : D) (h : ℕ) (block : Block) → reads h ≡ ok block → Added d h block
  update-Added chain d h block reads_h =
      let (d', runs, stored, kept) =
        update_unspent_cache_disk_lem db x e checks fs r k exact d db' h block w inj reads_h
          (λ i j a b at at' same.
            let (heights, places) =
              chain.unique h h block block i j a b reads_h reads_h at at' same in
            let one = ap (get_elem? block.txdata) places in
            let both : some a ≡ some b = sym at ∙ one ∙ at' in cc both)
          (λ i tx at. chain.short h block i tx reads_h at) in
      record { d' = d'; runs = runs; stored = stored; kept = kept }

  -- The number of an output that is spent is that of a u32.
  pub vout-lt :
      Chain → (j : ℕ) (input : TxIn) → Spends j input → input.previous_output.vout < 2 ^ 32
  vout-lt chain j input s =
      let low = get_elem?-lt s.tx.output input.previous_output.vout s.at_number in
      let bound = chain.short s.height s.block s.place s.tx s.readable s.at_place in omega arith

  -- An output that was there before, and is not of the block that is added, is left.
  pub kept_source :
      Chain
      → (d : D) (h : ℕ) (block : Block) (j : ℕ) (input : TxIn) (a : Added d h block)
      → reads h ≡ ok block
      → (s : Spends j input) → s.height ≢ h
      → Map.get (db.entries a.d') (key_of x e input) ≡ Map.get (db.entries d) (key_of x e input)
  kept_source chain d h block j input a reads_h s other =
      a.kept (key_of x e input) (λ i tx n o at at_n same.
        let low = get_elem?-lt tx.output n at_n in
        let bound = chain.short h block i tx reads_h at in
        let (id, number) =
          txout_key_injective x e (x.compute_txid tx) input.previous_output.txid n
            input.previous_output.vout inj (omega arith) (vout-lt chain j input s) same in
        let (heights, places) =
          chain.unique h s.height block s.block i s.place tx s.tx reads_h s.readable at s.at_place
            (id ∙ sym s.is_id) in
        other (sym heights))
