-- ===== src/DiskIter.antt =====
-- src/iter/connected_block_iter.rs: `ConnectedBlockIter` with the cache on disk, which is the default.
-- The two stages of worker threads are those of ConnectedIter. A block of the first stage is written as
-- one batch. In `connect_outpoints` a thread takes a step for `multi_get`, which RocksDB answers from
-- one view of the database, one for each key that it deletes, and one to build the block.
pub mod Chain
pub mod Keys
pub mod Effects
pub mod Invariant
pub mod Work
pub mod Steps
pub mod Deliver
pub mod Cost
pub mod Ends
use rusty_bitcoin_explorer.Common.{
  ℕ, suc, ◌<◌, ◌≡◌, ◌==◌, Bool, true, false, Option, none, some, List, [], ◌∷◌, ◌++◌, length,
  if◌then◌else◌,
}
use rusty_bitcoin_explorer.Error.{Outcome, ok, ◌>>=◌}
use rusty_bitcoin_explorer.External.{External, Block}
use rusty_bitcoin_explorer.Reader.{Read, ReadExact}
use rusty_bitcoin_explorer.Xor.{Seek}
use rusty_bitcoin_explorer.Xor.Laws.{xor_read}
use rusty_bitcoin_explorer.BlkFile.{FileSystem}
use rusty_bitcoin_explorer.Connected.{ConnectedBlock}
use rusty_bitcoin_explorer.Api.{BitcoinDb}
use rusty_bitcoin_explorer.SharedUtxo.{put}
use rusty_bitcoin_explorer.DiskUtxo.{
  Bytes, RocksDb, Codec, block_keys, fetch_txs, update_unspent_cache,
}
use rusty_bitcoin_explorer.ConnectedIter.{Task, todo, unreadable, fetched}

module _ (T : ConnectedBlock) where
  -- A task of the second stage: before it was handed out; before `multi_get`; in the loop over the
  -- keys, with those that are left and what `multi_get` gave; at the end.
  pub data Worker : Type 0 where
    waiting : Worker
    fetching : Block → Worker
    deleting : Block → List Bytes → List (Option (Option Bytes)) → Worker
    done : T.Blk → Worker
    failed : Worker

  -- The database, the tasks of both stages by their heights, how many of the second were handed out,
  -- and the results that `next` gave.
  pub record Pipeline (D : Type 0) : Type 0 where
    pub cache : D
    pub tasks : ℕ → Task
    pub workers : ℕ → Worker
    pub started : ℕ
    pub given : List T.Blk

  -- `ConnectedBlockIter::new` with the database that `create_db` opened, before any thread has moved.
  unfoldable pub new : {D : Type 0} → D → Pipeline D
  new unspent = record {
    cache = unspent;
    tasks = λ h. todo;
    workers = λ h. waiting;
    started = 0;
    given = [];
  }

module _ {T : ConnectedBlock} where
  abbrev pub after_delete :
      {D : Type 0} → Block → List Bytes → List (Option (Option Bytes)) → Bool × D → D × Worker T
  after_delete block keys tx_outs (true, d) = (d, deleting block keys tx_outs)
  after_delete block keys tx_outs (false, d) = (d, failed)

  abbrev pub worker_of : Option T.Blk → Worker T
  worker_of none = failed
  worker_of (some blk) = done blk

  -- The worker is in the middle of its task.
  abbrev pub is_active : Worker T → Bool
  is_active (fetching block) = true
  is_active (deleting block keys tx_outs) = true
  is_active _ = false

module _ {D : Type 0} (db : RocksDb D) (x : External) (e : Codec) (T : ConnectedBlock) where
  -- The next step of a thread.
  unfoldable pub advance : D → Worker T → Outcome (D × Worker T)
  unfolding block_keys fetch_txs
  advance unspent waiting = ok (unspent, waiting)
  advance unspent (done blk) = ok (unspent, done blk)
  advance unspent failed = ok (unspent, failed)
  advance unspent (fetching block) =
      let keys = block_keys x e block.txdata in
      ok (unspent, deleting block keys (db.multi_get keys unspent))
  advance unspent (deleting block (key ∷ keys) tx_outs) =
      ok (after_delete block keys tx_outs (db.delete key unspent))
  advance unspent (deleting block [] tx_outs) =
      fetch_txs x e T tx_outs (T.from block.header (x.block_hash block.header)) block.txdata 0
      >>= λ fetched_block. ok (unspent, worker_of fetched_block)

module _ {F D : Type 0} (db : RocksDb D) (x : External) (e : Codec) (checks : Bool)
    (fs : FileSystem F) (r : Read F) (k : Seek F) (exact : ReadExact (xor_read r))
    (T : ConnectedBlock) (db' : BitcoinDb) (end : ℕ) where
  pub data Step : Pipeline T D → Pipeline T D → Type 0 where
    updates :
        (p : Pipeline T D) (h : ℕ) (block : Block) (d : D)
        → h < end
        → p.tasks h ≡ todo
        → update_unspent_cache db x e checks fs r k exact p.cache db' h ≡ ok (some block, d)
        → Step p (record p { cache = d; tasks = put h (fetched block) p.tasks })
    misses :
        (p : Pipeline T D) (h : ℕ) (d : D)
        → h < end
        → p.tasks h ≡ todo
        → update_unspent_cache db x e checks fs r k exact p.cache db' h ≡ ok (none, d)
        → Step p (record p { cache = d; tasks = put h unreadable p.tasks })
    starts :
        (p : Pipeline T D) (block : Block)
        → p.tasks p.started ≡ fetched block
        → Step p (record p {
          workers = put p.started (fetching block) p.workers;
          started = suc p.started;
        })
    works :
        (p : Pipeline T D) (j : ℕ) (d : D) (w : Worker T)
        → is_active (p.workers j) ≡ true
        → advance db x e T p.cache (p.workers j) ≡ ok (d, w)
        → Step p (record p { cache = d; workers = put j w p.workers })
    gives :
        (p : Pipeline T D) (blk : T.Blk)
        → p.workers (length p.given) ≡ done blk
        → Step p (record p { given = p.given ++ blk ∷ [] })

  -- The states that the iterator may come to.
  pub data Reach (unspent : D) : Pipeline T D → Type 0 where
    here : Reach unspent (new T unspent)
    next : {p q : Pipeline T D} → Reach unspent p → Step p q → Reach unspent q
