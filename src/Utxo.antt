-- ===== src/Utxo.antt =====
-- src/iter/util.rs and src/iter/fetch_connected_async.rs: the cache of unspent outputs behind
-- `connected_block_iter`, in memory (the module `in_mem_utxo`). The mutexes make each access to the
-- cache one step; the functions here are one thread's steps in order. An `Arc` that the map holds is
-- the entry of the map.
pub mod Slots
pub mod Contents
pub mod Inputs
pub mod Agree
pub mod Formats
pub mod Update
use rusty_bitcoin_explorer.Common.{
  ℕ, ◌+◌, ◌-◌, ◌^◌, Bool, true, false, Option, none, some, List, [], ◌∷◌, map, length, get_elem?,
  set, leb, ◌==◌, if◌then◌else◌,
}
use rusty_bitcoin_explorer.Common.Words.{as_u32}
use rusty_bitcoin_explorer.Common.Map
use rusty_bitcoin_explorer.Common.Map.{Map, nat_key}
use rusty_bitcoin_explorer.Error.{Outcome, ok, err, panic, stuck, ◌>>=◌}
use rusty_bitcoin_explorer.External.{External, Hash, Block, Transaction, TxIn}
use rusty_bitcoin_explorer.Reader.{Read, ReadExact}
use rusty_bitcoin_explorer.Xor.{Seek}
use rusty_bitcoin_explorer.Xor.Laws.{xor_read}
use rusty_bitcoin_explorer.BlkFile.{FileSystem}
use rusty_bitcoin_explorer.Block.{map_all}
use rusty_bitcoin_explorer.Connected.{ConnectedTx, ConnectedBlock}
use rusty_bitcoin_explorer.Api.{BitcoinDb, get_block}

-- The slots of a transaction's outputs and the number of those that are taken.
pub record VecMap (T : Type 0) : Type 0 where
  pub size : ℕ
  pub inner : List (Option T)

-- `a - b` on u32; with overflow checks it panics, without them it wraps.
unfoldable pub sub_u32 : Bool → ℕ → ℕ → Outcome ℕ
sub_u32 checks a b = if leb b a then ok (a - b) else if checks then panic else ok (a + 2 ^ 32 - b)

module _ {T : Type 0} where
  unfoldable pub from_vec : List (Option T) → VecMap T
  from_vec slice = record { size = as_u32 (length slice); inner = slice }

  unfoldable pub is_empty : VecMap T → Bool
  is_empty v = v.size == 0

  -- What follows the check of the index: `take()`, and the count where something was there.
  abbrev pub take_slot : Bool → VecMap T → ℕ → Option (Option T) → Outcome (Option T × VecMap T)
  take_slot checks v index none = panic
  take_slot checks v index (some none) = ok (none, v)
  take_slot checks v index (some (some element)) = sub_u32 checks v.size 1 >>= λ size.
      ok (some element, record { size = size; inner = set v.inner index none })

  unfoldable pub remove : Bool → VecMap T → ℕ → Outcome (Option T × VecMap T)
  unfolding sub_u32
  remove checks v index =
      if leb (length v.inner) index
      then ok (none, v)
      else take_slot checks v index (get_elem? v.inner index)

abbrev pub Cache : Type 0 → Type 0
Cache T = Map Hash (VecMap T)

module _ {T : Type 0} where
  -- `unspent.extend(..)`
  unfoldable pub extend : Cache T → List (Hash × VecMap T) → Cache T
  extend unspent entries = Map.collect (λ entry. entry.0) (λ entry. entry.1) unspent entries

  -- The entry of the transaction after a removal: dropped when it is empty.
  abbrev pub put_back : Cache T → Hash → Option T × VecMap T → Option T × Cache T
  put_back unspent txid (tx_out, outs) =
      (tx_out, if is_empty outs then Map.remove unspent txid else Map.insert unspent txid outs)

  -- Takes output `n` of a transaction off the cache; nothing where the transaction or the output is
  -- not there.
  unfoldable pub spend : Bool → Cache T → Hash → ℕ → Outcome (Option T × Cache T)
  unfolding remove is_empty
  spend checks unspent prev_txid n = elim (Map.get unspent prev_txid) [
    | none ↦ ok (none, unspent)
    | some prev_tx ↦ remove checks prev_tx n >>= λ taken. ok (put_back unspent prev_txid taken)
  ]

-- A result `Result<A, ()>` with the cache that is left, in both cases.
module _ (x : External) (checks : Bool) (T : ConnectedTx) where
  unfoldable pub new_entry : Transaction → Outcome (Hash × VecMap T.Out)
  unfolding map_all from_vec
  new_entry tx = do
    outs ← map_all T.into tx.output
    ok (x.compute_txid tx, from_vec (map some outs))

  -- The loop over the inputs of a transaction.
  unfoldable pub spend_inputs : T.Tx → List TxIn → Cache T.Out → Outcome (Option T.Tx × Cache T.Out)
  unfolding spend
  spend_inputs output_tx [] unspent = ok (some output_tx, unspent)
  spend_inputs output_tx (input ∷ is) unspent =
      let next = λ (tx : T.Tx) (c : Cache T.Out). spend_inputs tx is c in
      if x.is_null input.previous_output then next output_tx unspent else (do
        (tx_out, unspent') ←
            spend checks unspent input.previous_output.txid input.previous_output.vout
        elim tx_out [
          | none ↦ ok (none, unspent')
          | some out ↦ next (T.add_input output_tx out) unspent'
        ])

module _ (x : External) (checks : Bool) (T : ConnectedBlock) where
  -- The loop over the transactions of a block.
  unfoldable pub spend_txs :
      T.Blk → List Transaction → Cache T.tx.Out → Outcome (Option T.Blk × Cache T.tx.Out)
  unfolding spend_inputs
  spend_txs output_block [] unspent = ok (some output_block, unspent)
  spend_txs output_block (tx ∷ txs) unspent = do
    blank ← T.tx.from tx
    (spent, unspent') ← spend_inputs x checks T.tx blank tx.input unspent
    elim spent [
      | none ↦ ok (none, unspent')
      | some output_tx ↦ spend_txs (T.add_tx output_block output_tx) txs unspent'
    ]

  unfoldable pub connect_outpoints :
      Cache T.tx.Out → Block → Outcome (Option T.Blk × Cache T.tx.Out)
  unfolding spend_txs
  connect_outpoints unspent block =
      spend_txs (T.from block.header (x.block_hash block.header)) block.txdata unspent

module _ {F : Type 0} (x : External) (checks : Bool) (fs : FileSystem F) (r : Read F) (k : Seek F)
    (exact : ReadExact (xor_read r)) (T : ConnectedBlock) where
  unfoldable pub update_unspent_cache :
      Cache T.tx.Out → BitcoinDb → ℕ → Outcome (Option Block × Cache T.tx.Out)
  unfolding new_entry extend map_all
  update_unspent_cache unspent db height = elim (get_block x checks fs r k exact ok db height) [
    | ok block ↦ map_all (new_entry x checks T.tx) block.txdata >>= λ new_unspent_cache.
        ok (some block, extend unspent new_unspent_cache)
    | err e ↦ ok (none, unspent)
    | panic ↦ panic
    | stuck ↦ stuck
  ]
