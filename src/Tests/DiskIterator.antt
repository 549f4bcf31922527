-- ===== src/Tests/DiskIterator.antt =====
-- The iterator over the cache on disk, on the chain of one block.
use rusty_bitcoin_explorer.Common.{
  ◌+◌, ◌*◌, ◌≤◌, ◌<◌, ◌⊎◌, ℕ, zero, suc, ◌≡◌, ◌≢◌, refl, inr, sym, ◌∙◌, true, Option, some, List,
  [], ◌∷◌, get_elem?, arith,
}
use rusty_bitcoin_explorer.Common.Map
use rusty_bitcoin_explorer.Common.Map.{Map, bytes_key}
use rusty_bitcoin_explorer.Error.{ok}
use rusty_bitcoin_explorer.Connected.{
  CompactConnectedBlock, compact_add_input, compact_add_tx, compact_from_header,
}
use rusty_bitcoin_explorer.Block.{compact_header}
use rusty_bitcoin_explorer.Api.{get_connected_block}
use rusty_bitcoin_explorer.SharedUtxo.{put}
use rusty_bitcoin_explorer.Utxo.Formats.{compact}
use rusty_bitcoin_explorer.DiskUtxo.{
  Bytes, update_unspent_cache, put_txs, put_outputs, add_u32, txout_key, block_keys, input_keys,
  fetch_txs, fetch_inputs,
}
use rusty_bitcoin_explorer.ConnectedIter.{todo, fetched}
use rusty_bitcoin_explorer.ConnectedIter.Deliver.{block_at}
use rusty_bitcoin_explorer.DiskIter.{
  Worker, waiting, fetching, deleting, done, failed, Pipeline, new, is_active, advance, Step,
  updates, starts, works, gives, Reach, here, next,
}
use rusty_bitcoin_explorer.DiskIter.Chain.{Source}
use rusty_bitcoin_explorer.DiskIter.Effects.{Chain}
use rusty_bitcoin_explorer.DiskIter.Deliver.{Reach_disk-get_connected_block, Reach_disk-Step}
use rusty_bitcoin_explorer.ConnectedIter.Cost.{total}
use rusty_bitcoin_explorer.DiskIter.Cost.{cost_read}
use rusty_bitcoin_explorer.DiskIter.Ends.{steps, steps_disk_bounded}
use rusty_bitcoin_explorer.Tests.Sample.{
  sample, sample-pushes, block, transaction, file_read, file_seek, file_exact,
}
use rusty_bitcoin_explorer.Tests.Connected.{tx_db, input, output}
use rusty_bitcoin_explorer.Tests.Api.{one_file, self_spent, reads_block, connects, connected_seven}
use rusty_bitcoin_explorer.Tests.Utxo.{converts}
use rusty_bitcoin_explorer.Tests.Disk.{memory, memory-Works, codec, spells, on_disk}
use rusty_bitcoin_explorer.Tests.Iterator.{
  T, reads, only, only_tx, only_input, blank_seven, results, readable,
}

source :
    (j : ℕ)
    → Source sample true one_file file_read file_seek file_exact tx_db self_spent.block_index
        self_spent.blk_file
        (block_at sample true one_file file_read file_seek file_exact self_spent)
        j
        input
source j = record {
  height = 0;
  block = block 7;
  place = 0;
  tx = transaction 7;
  out = output;
  earlier = omega arith;
  readable = reads_block;
  at_place = refl;
  is_id = refl;
  at_number = refl;
  connects = connects;
}

chain :
    Chain memory sample codec true one_file file_read file_seek file_exact self_spent tx_db
      memory-Works spells
chain = record {
  unique = λ h h' b b' i i' tx tx' is is' at at' same.
      let first = only_tx h b i tx is at in
      let second = only_tx h' b' i' tx' is' at' in (first.0 ∙ sym second.0, first.1 ∙ sym second.1);
  short = λ h b i tx is at. let it = only_tx h b i tx is at in rw it.2 (omega arith);
  source = λ j b k i is at spent. let it = only_input j b k i is at in rw it.2 (source j);
  once = λ j j' b b' k k' i i' is is' at at' spent spent' same_txid same_n.
      let first = only_input j b k i is at in
      let second = only_input j' b' k' i' is' at' in
      (first.0 ∙ sym second.0, first.1 ∙ sym second.1);
  kinds = λ j b is. let it = only j b is in rw it.1 (inr (refl, (refl, tt)), tt);
}

updated :
    update_unspent_cache memory sample codec true one_file file_read file_seek file_exact []
      self_spent 0
    ≡ ok (some (block 7), on_disk)
unfolding update_unspent_cache put_txs put_outputs add_u32 txout_key Map.collect Map.insert
    Map.remove
updated = rw (update_unspent_cache, reads_block) refl

abbrev in_stage :
    Map Bytes Bytes → (ℕ → Worker T) → List CompactConnectedBlock → Pipeline T (Map Bytes Bytes)
in_stage d workers given = record {
  cache = d;
  tasks = put 0 (fetched (block 7)) (λ h. todo);
  workers = workers;
  started = 1;
  given = given;
}

abbrev tx_outs : List (Option (Option Bytes))
tx_outs = some (some (codec.encode_txout output)) ∷ []

-- Where the worker of the block stands, step by step.
abbrev place : ℕ → Worker T
place zero = fetching (block 7)
place (suc zero) = deleting (block 7) ((7 ∷ 0 ∷ []) ∷ []) tx_outs
place (suc (suc zero)) = deleting (block 7) [] tx_outs
place _ = done connected_seven

abbrev workers : ℕ → ℕ → Worker T
workers zero = λ j. waiting
workers (suc n) = put 0 (place n) (workers n)

abbrev At : Map Bytes Bytes → ℕ → Type 0
At d n =
    Reach memory sample codec true one_file file_read file_seek file_exact T self_spent 1 []
      (in_stage d (workers n) [])

work :
    (d d' : Map Bytes Bytes) (n : ℕ)
    → is_active (workers n 0) ≡ true
    → advance memory sample codec T d (workers n 0) ≡ ok (d', place n)
    → At d n
    → At d' (suc n)
work d d' n active runs r = next r (works _ 0 d' (place n) active runs)

-- The keys of the block are about to be deleted.
fetched_one : At on_disk 2
unfolding new advance block_keys input_keys txout_key Map.get
fetched_one = work on_disk on_disk 1 refl refl (
    next
      (next {p = new T []} here (updates (new T []) 0 (block 7) on_disk (omega arith) refl updated))
      (starts _ (block 7) refl))

builds :
    fetch_txs sample codec T tx_outs (T.from (block 7).header 7) (block 7).txdata 0
    ≡ ok (some connected_seven)
unfolding fetch_txs fetch_inputs compact_from_header compact_header compact_add_input compact_add_tx
builds = rw (blank_seven, converts) refl

-- The run of one block, to the end.
run :
    Reach memory sample codec true one_file file_read file_seek file_exact T self_spent 1 []
      (in_stage [] (workers 4) (connected_seven ∷ []))
unfolding advance Map.remove
run =
    next (work [] [] 3 refl (rw builds refl) (work on_disk [] 2 refl refl fetched_one))
      (gives _ connected_seven refl)

Reach_disk-get_connected_block_example :
    ((n : ℕ) (blk : CompactConnectedBlock)
      → get_elem? (connected_seven ∷ []) n ≡ some blk
      → get_connected_block sample true one_file file_read file_seek file_exact T self_spent n
        ≡ ok blk)
    × ((j : ℕ) → workers 4 j ≢ failed)
Reach_disk-get_connected_block_example =
    Reach_disk-get_connected_block memory sample codec true one_file file_read file_seek file_exact
      self_spent tx_db memory-Works spells compact sample-pushes (λ o. refl) chain 1 [] _ run refl

abbrev at_delete : Pipeline T (Map Bytes Bytes)
at_delete = in_stage on_disk (workers 2) []

abbrev Next : Pipeline T (Map Bytes Bytes) → Type 0
Next q =
    Step memory sample codec true one_file file_read file_seek file_exact T self_spent 1 at_delete q

Reach_disk-Step_example :
    ((1 ≤ 0) ⊎ ((q : Pipeline T (Map Bytes Bytes)) × Next q))
    × ((j : ℕ)
        → is_active (at_delete.workers j) ≡ true
        → (d : Map Bytes Bytes) × (w : Worker T) × (advance memory sample codec T on_disk
              (at_delete.workers j)
            ≡ ok (d, w)))
    × ((h : ℕ)
        → h < 1
        → at_delete.tasks h ≡ todo
        → (q : Pipeline T (Map Bytes Bytes)) × Next q × (q.tasks h ≢ todo))
Reach_disk-Step_example =
    Reach_disk-Step memory sample codec true one_file file_read file_seek file_exact self_spent
      tx_db memory-Works spells compact sample-pushes (λ o. refl) chain 1 [] at_delete fetched_one 1
      results (omega arith) readable

steps_disk_bounded_example :
    steps memory sample codec true one_file file_read file_seek file_exact T self_spent 1 [] run
    ≤ 5 * 1
      + total 1 (λ h.
        cost_read memory sample codec true one_file file_read file_seek file_exact T self_spent 1 []
          (reads h))
steps_disk_bounded_example =
    steps_disk_bounded memory sample codec true one_file file_read file_seek file_exact T self_spent
      1 [] run
