-- ===== src/DiskIter/Cost.antt =====
-- What a worker over the database has before it.
use rusty_bitcoin_explorer.Common.{
  ℕ, suc, ◌+◌, ◌≡◌, ◌<◌, refl, ap, ◌∙◌, Bool, true, false, Option, none, some, [], ◌∷◌, length,
  arith,
}
use rusty_bitcoin_explorer.Common.Map.{nat_key}
use rusty_bitcoin_explorer.Error.{Outcome, ok, err, panic, stuck, >>=-eq-ok}
use rusty_bitcoin_explorer.External.{External, Block}
use rusty_bitcoin_explorer.Reader.{Read, ReadExact}
use rusty_bitcoin_explorer.Xor.{Seek}
use rusty_bitcoin_explorer.Xor.Laws.{xor_read}
use rusty_bitcoin_explorer.BlkFile.{FileSystem}
use rusty_bitcoin_explorer.Connected.{ConnectedBlock}
use rusty_bitcoin_explorer.Api.{BitcoinDb}
use rusty_bitcoin_explorer.DiskUtxo.{
  RocksDb, Codec, block_keys, fetch_txs, put_txs, written, update_unspent_cache,
}
use rusty_bitcoin_explorer.ConnectedIter.Deliver.{block_at}
use rusty_bitcoin_explorer.DiskIter.{
  Worker, waiting, fetching, deleting, done, failed, after_delete, worker_of, is_active, advance,
}

written-eq :
    {D : Type 0} (db : RocksDb D) (b block : Block) (w : Bool × D) (d : D)
    → written db b w ≡ (some block, d)
    → b ≡ block
written-eq db b block (true, d') d is =
    let one : some b ≡ some block = ap (λ (z : Option Block × _). z.0) is in cc one
written-eq db b block (false, d') d is =
    let one : none ≡ some block = ap (λ (z : Option Block × _). z.0) is in cc one

module _ {F D : Type 0} (db : RocksDb D) (x : External) (e : Codec) (checks : Bool)
    (fs : FileSystem F) (r : Read F) (k : Seek F) (exact : ReadExact (xor_read r))
    (T : ConnectedBlock) (db' : BitcoinDb) (end : ℕ) (unspent : D) where
  abbrev pub reads : ℕ → Outcome Block
  reads = block_at x checks fs r k exact db'

  -- The keys of a block that can be read.
  abbrev pub cost_read : Outcome Block → ℕ
  cost_read (ok block) = length (block_keys x e block.txdata)
  cost_read _ = 0

  -- The steps that a worker has before it, at most.
  abbrev pub cost : ℕ → Worker T → ℕ
  cost c waiting = 3 + c
  cost c (fetching block) = 2 + length (block_keys x e block.txdata)
  cost c (deleting block keys tx_outs) = 1 + length keys
  cost c (done blk) = 0
  cost c failed = 0

  pub read_first :
      (d d' : D) (h : ℕ) (block : Block)
      → update_unspent_cache db x e checks fs r k exact d db' h ≡ ok (some block, d')
      → reads h ≡ ok block
  unfolding update_unspent_cache
  read_first d d' h block runs = by_read (reads h) refl
    where
      by_read : (o : Outcome Block) → reads h ≡ o → reads h ≡ ok block
      by_read (ok b) is =
          let (batch, puts, writes) =
            >>=-eq-ok (put_txs x e checks b.txdata) _ (rw (update_unspent_cache, is) at runs) in
          let one : written db b (db.write_without_wal batch d) ≡ (some block, d') = cc writes in
          is ∙ ap ok (written-eq db b block (db.write_without_wal batch d) d' one)
      by_read (err error) is = cc (rw (update_unspent_cache, is) at runs)
      by_read panic is = cc (rw (update_unspent_cache, is) at runs)
      by_read stuck is = cc (rw (update_unspent_cache, is) at runs)

  -- A thread that goes on has less before it.
  pub cost-advance :
      (c : ℕ) (d d' : D) (w w' : Worker T)
      → is_active w ≡ true
      → advance db x e T d w ≡ ok (d', w')
      → cost c w' < cost c w
  unfolding advance
  cost-advance c d d' waiting w' active runs = cc active
  cost-advance c d d' (done blk) w' active runs = cc active
  cost-advance c d d' failed w' active runs = cc active
  cost-advance c d d' (fetching block) w' active runs =
      let keys = block_keys x e block.txdata in
      let is : deleting block keys (db.multi_get keys d) ≡ w' = cc runs in rw (← is) (omega arith)
  cost-advance c d d' (deleting block (key ∷ keys) tx_outs) w' active runs =
      by_delete (db.delete key d) (cc runs)
    where
      by_delete :
          (o : Bool × D)
          → after_delete block keys tx_outs o ≡ (d', w')
          → cost c w' < 1 + suc (length keys)
      by_delete (true, d2) is =
          let w_is : deleting block keys tx_outs ≡ w' = ap (λ (z : D × Worker T). z.1) is in
          rw (← w_is) (omega arith)
      by_delete (false, d2) is =
          let w_is : failed ≡ w' = ap (λ (z : D × Worker T). z.1) is in rw (← w_is) (omega arith)
  cost-advance c d d' (deleting block [] tx_outs) w' active runs =
      let (o, fetches, goes) =
        >>=-eq-ok
          (fetch_txs x e T tx_outs (T.from block.header (x.block_hash block.header)) block.txdata 0)
          _ runs in
      by_result o (cc goes)
    where
      by_result : (o : Option T.Blk) → worker_of o ≡ w' → cost c w' < 1
      by_result none is = rw (← is) (omega arith)
      by_result (some blk) is = rw (← is) (omega arith)
