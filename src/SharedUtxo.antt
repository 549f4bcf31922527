-- ===== src/SharedUtxo.antt =====
-- src/iter/connected_block_iter.rs and the module `in_mem_utxo` of src/iter/fetch_connected_async.rs: the
-- cache in memory, shared by the worker threads of both stages of `ConnectedBlockIter`. A step is what
-- one thread does under one lock. An `Arc` is a number, and `owner` names the transaction for which it
-- was made.
pub mod Frame
pub mod Effect
pub mod Run
pub mod Once
use rusty_bitcoin_explorer.Common.{
  ℕ, suc, ◌≡◌, ◌≢◌, ◌<◌, Bool, Option, none, some, [], ◌==◌, if◌then◌else◌,
}
use rusty_bitcoin_explorer.Common.Map
use rusty_bitcoin_explorer.Common.Map.{Map, nat_key}
use rusty_bitcoin_explorer.Error.{ok}
use rusty_bitcoin_explorer.External.{Hash}
use rusty_bitcoin_explorer.Utxo.{VecMap, is_empty, remove}
use rusty_bitcoin_explorer.Utxo.Slots.{IsCounted}

-- The function with another value at one place.
abbrev pub put : {A : Type 0} → ℕ → A → (ℕ → A) → ℕ → A
put i a f j = if i == j then a else f j

-- `unspent` and the maps behind its `Arc`s.
pub record Shared (T : Type 0) : Type 0 where
  pub arcs : ℕ → VecMap T
  pub owner : ℕ → Hash
  pub next_arc : ℕ
  pub unspent : Map Hash ℕ

-- Where a thread stands in the body of the loop over inputs: before the look-up, with the `Arc` for
-- output `n` of a transaction, or about to remove the entry that it found empty.
pub data Phase : Type 0 where
  idle : Phase
  holding : Hash → ℕ → ℕ → Phase
  dropping : Hash → ℕ → Phase

pub record System (T : Type 0) : Type 0 where
  pub shared : Shared T
  pub threads : ℕ → Phase

-- What a step tells: nothing, that an input got this output, or that an entry was added.
pub data Event (T : Type 0) : Type 0 where
  quiet : Event T
  spent : Hash → ℕ → Option T → Event T
  added : Hash → VecMap T → Event T

module _ {T : Type 0} where
  -- An entry of `unspent.extend(..)`, in a new `Arc`.
  unfoldable pub add_entry : Shared T → Hash → VecMap T → Shared T
  add_entry sh txid v = record {
    arcs = put sh.next_arc v sh.arcs;
    owner = put sh.next_arc txid sh.owner;
    next_arc = suc sh.next_arc;
    unspent = Map.insert sh.unspent txid sh.next_arc;
  }

  -- `unspent.lock().unwrap().remove(prev_txid)`
  unfoldable pub drop_entry : Shared T → Hash → Shared T
  drop_entry sh txid = record sh { unspent = Map.remove sh.unspent txid }

  unfoldable pub write_arc : Shared T → ℕ → VecMap T → Shared T
  write_arc sh a v = record sh { arcs = put a v sh.arcs }

  -- What a thread does after it took the output.
  unfoldable pub after_take : Hash → ℕ → VecMap T → Phase
  unfolding is_empty
  after_take txid a v = if is_empty v then dropping txid a else idle

  -- The transaction never had an `Arc`.
  abbrev pub IsFresh : Shared T → Hash → Type 0
  IsFresh sh txid = (a : ℕ) → a < sh.next_arc → sh.owner a ≢ txid

  -- The steps of all threads. A thread of the second stage looks up an entry, takes an output through
  -- its `Arc`, and removes the entry if that left it empty; which output it spends next is left open. A
  -- thread of the first stage adds entries, here one at a time, though one lock covers those of a block.
  -- Ids are not added twice.
  pub data Step (checks : Bool) : System T → System T → Event T → Type 0 where
    missed :
        (s : System T) (i : ℕ) (txid : Hash) (n : ℕ)
        → s.threads i ≡ idle
        → Map.get s.shared.unspent txid ≡ none
        → Step checks s s (spent txid n none)
    found :
        (s : System T) (i : ℕ) (txid : Hash) (n a : ℕ)
        → s.threads i ≡ idle
        → Map.get s.shared.unspent txid ≡ some a
        → Step checks s (record s { threads = put i (holding txid n a) s.threads }) quiet
    taken :
        (s : System T) (i : ℕ) (txid : Hash) (n a : ℕ) (out : Option T) (v : VecMap T)
        → s.threads i ≡ holding txid n a
        → remove checks (s.shared.arcs a) n ≡ ok (out, v)
        → Step checks s
            (record {
              shared = write_arc s.shared a v;
              threads = put i (after_take txid a v) s.threads;
            })
            (spent txid n out)
    dropped :
        (s : System T) (i : ℕ) (txid : Hash) (a : ℕ)
        → s.threads i ≡ dropping txid a
        → Step checks s
            (record { shared = drop_entry s.shared txid; threads = put i idle s.threads })
            quiet
    adds :
        (s : System T) (txid : Hash) (v : VecMap T)
        → IsFresh s.shared txid
        → IsCounted v
        → Step checks s (record s { shared = add_entry s.shared txid v }) (added txid v)
