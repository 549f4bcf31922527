-- ===== src/ConnectedIter.antt =====
-- src/iter/connected_block_iter.rs: `ConnectedBlockIter` with the cache in memory, two stages of worker
-- threads over one cache. The crate par_iter_sync does each task once, hands the tasks of the second
-- stage out in order, each when the first stage has its result, and gives the results in order up to
-- the first error. It is modelled by the steps that this allows: a thread's work on the shared cache is
-- one step for each lock, and the steps of the threads come in any order.
pub mod Chain
pub mod Entries
pub mod Invariant
pub mod Work
pub mod Advance
pub mod Steps
pub mod Fetches
pub mod Indexed
pub mod Deliver
pub mod Progress
pub mod Cost
pub mod Ends
use rusty_bitcoin_explorer.Common.{
  ℕ, suc, ◌<◌, ◌≡◌, Bool, true, false, Option, none, some, List, [], ◌∷◌, ◌++◌, length,
  if◌then◌else◌,
}
use rusty_bitcoin_explorer.Common.Map
use rusty_bitcoin_explorer.Common.Map.{nat_key}
use rusty_bitcoin_explorer.Error.{Error, Outcome, ok, err, ◌>>=◌}
use rusty_bitcoin_explorer.External.{External, Hash, Block, Transaction, TxIn}
use rusty_bitcoin_explorer.Block.{map_all}
use rusty_bitcoin_explorer.Connected.{ConnectedBlock}
use rusty_bitcoin_explorer.Utxo.{VecMap, is_empty, remove, new_entry}
use rusty_bitcoin_explorer.SharedUtxo.{Shared, put, add_entry, drop_entry, write_arc}

-- A task of the first stage: to read the block of a height and to add its outputs.
pub data Task : Type 0 where
  todo : Task
  unreadable : Task
  fetched : Block → Task

module _ (T : ConnectedBlock) where
  -- A task of the second stage, by where its thread stands in `connect_outpoints`: before it was
  -- handed out; between two transactions; in the loop over inputs; with the `Arc` for an input; about
  -- to drop the entry that it found empty, with what it took; at the end.
  pub data Worker : Type 0 where
    waiting : Worker
    between : T.Blk → List Transaction → Worker
    inside : T.Blk → T.tx.Tx → List TxIn → List Transaction → Worker
    with_arc : T.Blk → T.tx.Tx → TxIn → ℕ → List TxIn → List Transaction → Worker
    emptied : T.Blk → T.tx.Tx → Option T.tx.Out → Hash → ℕ → List TxIn → List Transaction → Worker
    done : T.Blk → Worker
    failed : Worker

  -- The cache, the tasks of both stages by their heights, how many of the second were handed out, and
  -- the results that `next` gave.
  pub record Pipeline : Type 0 where
    pub shared : Shared T.tx.Out
    pub tasks : ℕ → Task
    pub workers : ℕ → Worker
    pub started : ℕ
    pub given : List T.Blk

  abbrev pub no_arcs : Shared T.tx.Out
  no_arcs = record {
    arcs = λ a. record { size = 0; inner = [] };
    owner = λ a. 0;
    next_arc = 0;
    unspent = [];
  }

  -- `ConnectedBlockIter::new`, before any thread has moved.
  unfoldable pub new : Pipeline
  new = record {
    shared = no_arcs;
    tasks = λ h. todo;
    workers = λ h. waiting;
    started = 0;
    given = [];
  }

module _ {T : Type 0} where
  -- `unspent.lock().unwrap().extend(new_unspent_cache)`
  unfoldable pub add_entries : Shared T → List (Hash × VecMap T) → Shared T
  unfolding add_entry
  add_entries sh [] = sh
  add_entries sh ((txid, outs) ∷ entries) = add_entries (add_entry sh txid outs) entries

module _ {T : ConnectedBlock} where
  -- What follows the removal: the output, or `Err(())`.
  abbrev pub settle : T.Blk → T.tx.Tx → Option T.tx.Out → List TxIn → List Transaction → Worker T
  settle blk tx none is txs = failed
  settle blk tx (some out) is txs = inside blk (T.tx.add_input tx out) is txs

  abbrev pub look_up : T.Blk → T.tx.Tx → TxIn → Option ℕ → List TxIn → List Transaction → Worker T
  look_up blk tx input none is txs = failed
  look_up blk tx input (some a) is txs = with_arc blk tx input a is txs

  abbrev pub after_removal :
      T.Blk
      → T.tx.Tx
      → Option T.tx.Out
      → Hash
      → ℕ
      → VecMap T.tx.Out
      → List TxIn
      → List Transaction
      → Worker T
  after_removal blk tx out txid a v is txs =
      if is_empty v then emptied blk tx out txid a is txs else settle blk tx out is txs

  -- The worker is in the middle of its task.
  abbrev pub is_active : Worker T → Bool
  is_active waiting = false
  is_active (done blk) = false
  is_active failed = false
  is_active _ = true

module _ (x : External) (checks : Bool) (T : ConnectedBlock) where
  -- `B::from(block.header, block_hash)`, at the start of a task.
  unfoldable pub begin : Block → Worker T
  begin block = between (T.from block.header (x.block_hash block.header)) block.txdata

  -- The next step of a thread.
  unfoldable pub advance : Shared T.tx.Out → Worker T → Outcome (Shared T.tx.Out × Worker T)
  unfolding remove is_empty write_arc drop_entry
  advance sh waiting = ok (sh, waiting)
  advance sh (done blk) = ok (sh, done blk)
  advance sh failed = ok (sh, failed)
  advance sh (between blk []) = ok (sh, done blk)
  advance sh (between blk (tx ∷ txs)) =
      T.tx.from tx >>= λ blank. ok (sh, inside blk blank tx.input txs)
  advance sh (inside blk tx [] txs) = ok (sh, between (T.add_tx blk tx) txs)
  advance sh (inside blk tx (input ∷ is) txs) =
      if x.is_null input.previous_output
      then ok (sh, inside blk tx is txs)
      else ok (sh, look_up blk tx input (Map.get sh.unspent input.previous_output.txid) is txs)
  advance sh (with_arc blk tx input a is txs) =
      remove checks (sh.arcs a) input.previous_output.vout >>= λ taken. ok (
        write_arc sh a taken.1,
        after_removal blk tx taken.0 input.previous_output.txid a taken.1 is txs,
      )
  advance sh (emptied blk tx out txid a is txs) = ok (drop_entry sh txid, settle blk tx out is txs)

  module _ (reads : ℕ → Outcome Block) (end : ℕ) where
    -- `reads` is `get_block` of the database; the heights are `0..end`. Reading does not touch the
    -- cache, and `update_unspent_cache` takes its lock once, at the end.
    pub data Step : Pipeline T → Pipeline T → Type 0 where
      updates :
          (p : Pipeline T) (h : ℕ) (block : Block) (entries : List (Hash × VecMap T.tx.Out))
          → h < end
          → p.tasks h ≡ todo
          → reads h ≡ ok block
          → map_all (new_entry x checks T.tx) block.txdata ≡ ok entries
          → Step p (record p {
            shared = add_entries p.shared entries;
            tasks = put h (fetched block) p.tasks;
          })
      misses :
          (p : Pipeline T) (h : ℕ) (e : Error)
          → h < end
          → p.tasks h ≡ todo
          → reads h ≡ err e
          → Step p (record p { tasks = put h unreadable p.tasks })
      starts :
          (p : Pipeline T) (block : Block)
          → p.tasks p.started ≡ fetched block
          → Step p (record p {
            workers = put p.started (begin block) p.workers;
            started = suc p.started;
          })
      works :
          (p : Pipeline T) (j : ℕ) (sh : Shared T.tx.Out) (w : Worker T)
          → is_active (p.workers j) ≡ true
          → advance p.shared (p.workers j) ≡ ok (sh, w)
          → Step p (record p { shared = sh; workers = put j w p.workers })
      gives :
          (p : Pipeline T) (blk : T.Blk)
          → p.workers (length p.given) ≡ done blk
          → Step p (record p { given = p.given ++ blk ∷ [] })

    -- The states that the iterator may come to.
    pub data Reach : Pipeline T → Type 0 where
      here : Reach (new T)
      next : {p q : Pipeline T} → Reach p → Step p q → Reach q
