-- ===== src/Tests/Iterator.antt =====
-- The iterator over connected blocks on a chain of one block, which spends its own output.
use rusty_bitcoin_explorer.Common.{
  ℕ, zero, suc, ◌+◌, ◌*◌, ◌≡◌, ◌≢◌, ◌≤◌, ◌<◌, ◌⊎◌, inr, refl, sym, ◌∙◌, true, none, some, List, [],
  ◌∷◌, get_elem?, arith,
}
use rusty_bitcoin_explorer.Common.Map
use mathlib.Core.Option
use rusty_bitcoin_explorer.Error.{Outcome, ok}
use rusty_bitcoin_explorer.External.{Block, Transaction, TxIn}
use rusty_bitcoin_explorer.Block.{CompactTxOut, map_all, compact_header}
use rusty_bitcoin_explorer.Connected.{
  ConnectedBlock, CompactConnectedBlock, CompactConnectedTransaction, all_inputs, compact_from_tx,
  compact_add_input, compact_add_tx, compact_from_header,
}
use rusty_bitcoin_explorer.Connected.Blocks.{compact_tx_out-ok}
use rusty_bitcoin_explorer.Api.{get_block, get_connected_block}
use rusty_bitcoin_explorer.Api.Errors.{IsResult, value}
use rusty_bitcoin_explorer.Utxo.{new_entry, from_vec, remove, is_empty}
use rusty_bitcoin_explorer.Utxo.Formats.{format, compact, format-IsFormat}
use rusty_bitcoin_explorer.SharedUtxo.{Shared, put, add_entry, write_arc, drop_entry}
use rusty_bitcoin_explorer.ConnectedIter.{
  Worker, waiting, between, inside, with_arc, emptied, done, failed, is_active, Step, todo, fetched,
  Pipeline, new, add_entries, begin, advance, updates, starts, works, gives, Reach, here, next,
}
use rusty_bitcoin_explorer.ConnectedIter.Chain.{Source, IsChain}
use rusty_bitcoin_explorer.ConnectedIter.Indexed.{IsIndexed}
use rusty_bitcoin_explorer.ConnectedIter.Deliver.{block_at, Reach-get_connected_block}
use rusty_bitcoin_explorer.ConnectedIter.Progress.{Reach-Step}
use rusty_bitcoin_explorer.ConnectedIter.Ends.{steps, steps_bounded}
use rusty_bitcoin_explorer.ConnectedIter.Cost.{total, cost_read}
use rusty_bitcoin_explorer.Tests.Sample.{
  sample, sample-pushes, block, transaction, file_read, file_seek, file_exact,
}
use rusty_bitcoin_explorer.Tests.Connected.{tx_db, input, output}
use rusty_bitcoin_explorer.Tests.Api.{
  one_file, self_spent, reads_block, connects, out_seven, connected_seven,
}
use rusty_bitcoin_explorer.Tests.Utxo.{converts}

abbrev pub T : ConnectedBlock
T = format sample true one_file file_read file_seek file_exact compact

abbrev pub reads : ℕ → Outcome Block
reads = block_at sample true one_file file_read file_seek file_exact self_spent

abbrev spends : TxIn → CompactTxOut
spends i = out_seven

pub only : (h : ℕ) (b : Block) → reads h ≡ ok b → (h ≡ 0) × (b ≡ block 7)
unfolding get_block
only zero b is = let same : ok (block 7) ≡ ok b = sym reads_block ∙ is in (refl, cc same)
only (suc h) b is = cc is

one : {A : Type 0} (a b : A) (k : ℕ) → get_elem? (a ∷ []) k ≡ some b → (k ≡ 0) × (b ≡ a)
one a b zero at = (refl, let same : a ≡ b = cc at in sym same)
one a b (suc k) at = cc at

pub only_tx :
    (h : ℕ) (b : Block) (i : ℕ) (tx : Transaction)
    → reads h ≡ ok b
    → get_elem? b.txdata i ≡ some tx
    → (h ≡ 0) × (i ≡ 0) × (tx ≡ transaction 7)
only_tx h b i tx is at =
    let (first, same) = only h b is in
    let it = one (transaction 7) tx i (rw same at at) in (first, it.0, it.1)

pub only_input :
    (h : ℕ) (b : Block) (k : ℕ) (i : TxIn)
    → reads h ≡ ok b
    → get_elem? (all_inputs b.txdata) k ≡ some i
    → (h ≡ 0) × (k ≡ 0) × (i ≡ input)
unfolding all_inputs
only_input h b k i is at =
    let (first, same) = only h b is in let it = one input i k (rw same at at) in (first, it.0, it.1)

source : (j : ℕ) → Source sample T reads spends j input
source j = record {
  height = 0;
  block = block 7;
  place = 0;
  tx = transaction 7;
  out = output;
  earlier = omega arith;
  readable = reads_block;
  at_place = refl;
  is_id = refl;
  at_number = refl;
  converts = converts;
}

chain : IsChain sample T reads spends
chain = record {
  total = compact_tx_out-ok sample sample-pushes;
  begins =
      (format-IsFormat sample true one_file file_read file_seek file_exact sample-pushes
        compact).starts;
  unique = λ h h' b b' i i' tx tx' is is' at at' same.
      let first = only_tx h b i tx is at in
      let second = only_tx h' b' i' tx' is' at' in (first.0 ∙ sym second.0, first.1 ∙ sym second.1);
  short = λ h b i tx is at. let it = only_tx h b i tx is at in rw it.2 (omega arith);
  source = λ j b k i is at spent. let it = only_input j b k i is at in rw it.2 (source j);
  once = λ j j' b b' k k' i i' is is' at at' spent spent' same_txid same_n.
      let first = only_input j b k i is at in
      let second = only_input j' b' k' i' is' at' in
      (first.0 ∙ sym second.0, first.1 ∙ sym second.1);
}

indexed :
    IsIndexed sample true one_file file_read file_seek file_exact T tx_db self_spent.block_index
      self_spent.blk_file reads spends
indexed = record {
  found = λ j b n i is at spent.
      let it = only_input j b n i is at in
      rw it.2 (record { spent = refl; out = output; connects = connects; converts = converts });
  kinds = λ j b is. let it = only j b is in rw it.1 (inr (refl, (refl, tt)), tt);
}

-- All steps of one block.
entries_made :
    map_all (new_entry sample true T.tx) (block 7).txdata
    ≡ ok ((7, record { size = 1; inner = some out_seven ∷ [] }) ∷ [])
unfolding map_all new_entry from_vec
entries_made = rw converts refl

abbrev blank : CompactConnectedBlock
blank = record { header = record { block_hash = 7; time = 0 }; txdata = [] }

abbrev blank_tx : CompactConnectedTransaction
blank_tx = record { txid = 7; input = []; output = out_seven ∷ [] }

pub blank_seven : T.tx.from (transaction 7) ≡ ok blank_tx
unfolding compact_from_tx map_all
blank_seven = rw converts refl

abbrev whole_tx : CompactConnectedTransaction
whole_tx = record blank_tx { input = out_seven ∷ [] }

-- The cache with the output, and without it.
abbrev one_entry : Shared CompactTxOut
one_entry = record {
  arcs =
      put 0 (record { size = 1; inner = some out_seven ∷ [] })
        (λ a. record { size = 0; inner = [] });
  owner = put 0 7 (λ a. 0);
  next_arc = 1;
  unspent = (7, 0) ∷ [];
}

abbrev taken_entry : Shared CompactTxOut
taken_entry = record one_entry {
  arcs = put 0 (record { size = 0; inner = none ∷ [] }) one_entry.arcs;
}

abbrev no_entry : Shared CompactTxOut
no_entry = record taken_entry { unspent = [] }

abbrev in_stage : Shared CompactTxOut → (ℕ → Worker T) → List CompactConnectedBlock → Pipeline T
in_stage sh workers given = record {
  shared = sh;
  tasks = put 0 (fetched (block 7)) (λ h. todo);
  workers = workers;
  started = 1;
  given = given;
}

-- Where the worker of the block stands, step by step.
abbrev course : List (Worker T)
course =
    between blank (transaction 7 ∷ [])
    ∷ inside blank blank_tx (input ∷ []) []
    ∷ with_arc blank blank_tx input 0 [] []
    ∷ emptied blank blank_tx (some out_seven) 7 0 [] []
    ∷ inside blank whole_tx [] []
    ∷ between connected_seven []
    ∷ []

abbrev place : ℕ → Worker T
place n = Option.get_or (get_elem? course n) (done connected_seven)

abbrev workers : ℕ → ℕ → Worker T
workers zero = λ j. waiting
workers (suc n) = put 0 (place n) (workers n)

started_one : Reach sample true T reads 1 (in_stage one_entry (workers 1) [])
unfolding new add_entries add_entry begin Map.insert Map.remove compact_from_header compact_header
started_one =
    next
      (next {p = new T} here
        (updates (new T) 0 (block 7) _ (omega arith) refl reads_block entries_made))
      (starts _ (block 7) refl)

abbrev AtWork : Shared CompactTxOut → ℕ → Type 0
AtWork sh n = Reach sample true T reads 1 (in_stage sh (workers n) [])

work :
    (sh sh' : Shared CompactTxOut) (n : ℕ)
    → is_active (workers n 0) ≡ true
    → advance sample true T sh (workers n 0) ≡ ok (sh', place n)
    → AtWork sh n
    → AtWork sh' (suc n)
work sh sh' n active runs r = next r (works _ 0 sh' (place n) active runs)

emptied_one : AtWork taken_entry 4
unfolding advance remove is_empty write_arc Map.get
emptied_one = work one_entry taken_entry 3 refl refl (
    work one_entry one_entry 2 refl refl
      (work one_entry one_entry 1 refl (rw blank_seven refl) started_one))

-- The run of one block, to the end.
run : Reach sample true T reads 1 (in_stage no_entry (workers 7) (connected_seven ∷ []))
unfolding advance drop_entry compact_add_input compact_add_tx Map.remove
run =
    next
      (work no_entry no_entry 6 refl refl
        (work no_entry no_entry 5 refl refl (work taken_entry no_entry 4 refl refl emptied_one)))
      (gives _ connected_seven refl)

Reach-get_connected_block_example :
    ((n : ℕ) (blk : CompactConnectedBlock)
      → get_elem? (connected_seven ∷ []) n ≡ some blk
      → get_connected_block sample true one_file file_read file_seek file_exact T self_spent n
        ≡ ok blk)
    × ((j : ℕ) → workers 7 j ≢ failed)
Reach-get_connected_block_example =
    Reach-get_connected_block sample true one_file file_read file_seek file_exact compact self_spent
      tx_db 1 spends _ sample-pushes refl chain indexed run

pub results : (h : ℕ) → h < 1 → IsResult (reads h)
results h below = let first : 0 ≡ h = omega arith in rw (← first) (value (block 7) reads_block)

pub readable : (h : ℕ) → h < 1 → (b : Block) × (reads h ≡ ok b)
readable h below = let first : 0 ≡ h = omega arith in rw (← first) (block 7, reads_block)

-- A thread that holds an `Arc` to an entry that it took the last output of.
abbrev after_take : Pipeline T
after_take = in_stage taken_entry (workers 4) []

Reach-Step_example :
    ((1 ≤ 0) ⊎ ((q : Pipeline T) × Step sample true T reads 1 after_take q))
    × ((j : ℕ)
        → is_active (after_take.workers j) ≡ true
        → (sh : Shared CompactTxOut) × (w : Worker T) × (advance sample true T taken_entry
              (after_take.workers j)
            ≡ ok (sh, w)))
    × ((h : ℕ)
        → h < 1
        → after_take.tasks h ≡ todo
        → (q : Pipeline T) × Step sample true T reads 1 after_take q × (q.tasks h ≢ todo))
Reach-Step_example =
    Reach-Step sample true T reads 1 1 spends after_take chain emptied_one results (omega arith)
      readable

steps_bounded_example : steps sample true T reads 1 run ≤ 4 * 1 + total 1 (λ h. cost_read (reads h))
steps_bounded_example = steps_bounded sample true T reads 1 run
