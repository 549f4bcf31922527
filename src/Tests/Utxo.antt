-- ===== src/Tests/Utxo.antt =====
-- The cache of unspent outputs, and the iterators.
use rusty_bitcoin_explorer.Common.{
  ℕ, zero, suc, ◌≡◌, ◌≢◌, ◌<◌, ◌^◌, refl, inl, inr, ap, ◌∙◌, true, Option, some, List, [], ◌∷◌,
  get_elem?, length, All, arith, Bool-cases, Option-cases, ◌==◌,
}
use rusty_bitcoin_explorer.Common.Map
use rusty_bitcoin_explorer.Common.Map.{nat_key}
use rusty_bitcoin_explorer.Error.{Outcome, ok}
use rusty_bitcoin_explorer.External.{Transaction, TxOut, Hash}
use rusty_bitcoin_explorer.Block.{CompactTxOut, compact_tx_out}
use rusty_bitcoin_explorer.Connected.{CompactConnectedBlock, all_inputs}
use rusty_bitcoin_explorer.Connected.Connect.{
  compact_connected_block, compact_connected_tx, compact_connect_block,
}
use rusty_bitcoin_explorer.Connected.Blocks.{compact_tx_out-ok}
use rusty_bitcoin_explorer.Api.{get_block}
use rusty_bitcoin_explorer.Utxo.{VecMap, Cache, spend, connect_outpoints, update_unspent_cache}
use rusty_bitcoin_explorer.Utxo.Contents.{contents, AllCounted, without, spend_lem}
use rusty_bitcoin_explorer.Utxo.Inputs.{Distinct, Ready, left_over}
use rusty_bitcoin_explorer.Utxo.Formats.{compact, connect_outpoints-eq-connect}
use rusty_bitcoin_explorer.Utxo.Update.{UniqueIds, update_unspent_cache_lem}
use rusty_bitcoin_explorer.Iter.{ParIterSync, until_failure, block_iter, range}
use rusty_bitcoin_explorer.Iter.Order.{DeliversRange, drain, Ends, block_iter-DeliversRange}
use rusty_bitcoin_explorer.Tests.Sample.{
  sample, sample-pushes, block, transaction, file_read, file_seek, file_exact,
}
use rusty_bitcoin_explorer.Tests.Connected.{tx_db, output}
use rusty_bitcoin_explorer.Tests.Scripts.{evaluates}
use rusty_bitcoin_explorer.Tests.Api.{one_file, self_spent, reads_block, connects, out_seven}

abbrev one_output : VecMap CompactTxOut
one_output = record { size = 1; inner = some out_seven ∷ [] }

-- The output of transaction 7.
abbrev cache : Cache CompactTxOut
cache = (7, one_output) ∷ []

cached : contents cache 7 0 ≡ some out_seven
unfolding Map.get
cached = refl

cache-AllCounted : AllCounted cache
unfolding Map.get
cache-AllCounted txid v e = elim (Bool-cases (7 == txid)) [
  | inl same ↦
      let is : one_output ≡ v = cc (rw (same, Map.get) at e) in
      rw (← is) (record { counts = refl; fits = omega arith })
  | inr differs ↦ cc (rw (differs, Map.get) at e)
]

spend_lem_example :
    (c' : Cache CompactTxOut) × (spend true cache 7 0 ≡ ok (contents cache 7 0, c'))
    × AllCounted c'
    × ((j : Hash) (m : ℕ) → contents c' j m ≡ without (contents cache) 7 0 j m)
spend_lem_example = spend_lem true cache 7 0 cache-AllCounted

pub converts : compact_tx_out sample output ≡ ok out_seven
unfolding compact_tx_out
converts = rw evaluates

ready :
    All
      (Ready sample true one_file file_read file_seek file_exact
        (compact_connected_tx sample true one_file file_read file_seek file_exact)
        tx_db
        self_spent.block_index
        self_spent.blk_file
        (contents cache))
      (all_inputs (transaction 7 ∷ []))
unfolding all_inputs
ready = (
  inr (record {
    spends = refl;
    out = output;
    converted = out_seven;
    connects = connects;
    converts = converts;
    cached = cached;
  }),
  tt,
)

distinct : Distinct sample (all_inputs (transaction 7 ∷ []))
unfolding all_inputs
distinct = (inr tt, tt)

connect_outpoints-eq-connect_example :
    (connected : CompactConnectedBlock) × (c' : Cache CompactTxOut) × (connect_outpoints sample true
        (compact_connected_block sample true one_file file_read file_seek file_exact)
        cache
        (block 7)
      ≡ ok (some connected, c'))
    × (compact_connect_block sample true one_file file_read file_seek file_exact
          (block 7)
          tx_db
          self_spent.block_index
          self_spent.blk_file
        ≡ ok connected)
    × (contents c' ≡ left_over sample (all_inputs (transaction 7 ∷ [])) (contents cache))
    × AllCounted c'
connect_outpoints-eq-connect_example =
    connect_outpoints-eq-connect sample true one_file file_read file_seek file_exact compact tx_db
      self_spent.block_index self_spent.blk_file (block 7) cache sample-pushes
      (inr (refl, (refl, tt)), tt) cache-AllCounted ready distinct

pub unique : UniqueIds sample (transaction 7 ∷ [])
unique zero zero a b ea eb same = cc (ea, eb)
unique zero (suc j) a b ea eb same = cc eb
unique (suc i) j a b ea eb same = cc ea

short :
    (i : ℕ) (tx : Transaction)
    → get_elem? (transaction 7 ∷ []) i ≡ some tx
    → length tx.output < 2 ^ 32
short zero tx e = let same : transaction 7 ≡ tx = cc e in rw (← same) (omega arith)
short (suc i) tx e = cc e

update_unspent_cache_lem_example :
    (c' : Cache CompactTxOut) × (update_unspent_cache sample true one_file file_read file_seek
        file_exact
        (compact_connected_block sample true one_file file_read file_seek file_exact)
        cache
        self_spent
        0
      ≡ ok (some (block 7), c'))
    × AllCounted c'
    × ((i : ℕ) (tx : Transaction) (n : ℕ) (o : TxOut) (out : CompactTxOut)
        → get_elem? (transaction 7 ∷ []) i ≡ some tx
        → get_elem? tx.output n ≡ some o
        → compact_tx_out sample o ≡ ok out
        → contents c' (sample.compute_txid tx) n ≡ some out)
    × ((txid : Hash) (n : ℕ)
        → ((i : ℕ) (tx : Transaction)
            → get_elem? (transaction 7 ∷ []) i ≡ some tx
            → sample.compute_txid tx ≢ txid)
        → contents c' txid n ≡ contents cache txid n)
update_unspent_cache_lem_example =
    update_unspent_cache_lem sample true one_file file_read file_seek file_exact
      (compact_connected_block sample true one_file file_read file_seek file_exact) cache self_spent
      0 (block 7) (compact_tx_out-ok sample sample-pushes) reads_block unique short cache-AllCounted

-- One thread that does the tasks in order.
abbrev run_in_order : (A B : Type 0) → (A → Outcome (Option B)) → List A → List B
run_in_order A B f [] = []
run_in_order A B f (a ∷ as_) = elim (f a) [ ok (some b) ↦ b ∷ run_in_order A B f as_ | _ ↦ [] ]

runs_in_order :
    (A B : Type 0) (f : A → Outcome (Option B)) (g : A → Option B) (as_ : List A)
    → All (λ a. f a ≡ ok (g a)) as_
    → run_in_order A B f as_ ≡ until_failure g as_
runs_in_order A B f g [] h = refl
runs_in_order A B f g (a ∷ as_) (h, hs) = elim (Option-cases (g a)) [
  | inl fails ↦ rw (h ∙ ap ok fails, run_in_order, fails, until_failure)
  | inr (b, is) ↦
      rw (h ∙ ap ok is, run_in_order, is, until_failure) (ap (◌∷◌ b) (runs_in_order A B f g as_ hs))
]

abbrev one_thread : ParIterSync
one_thread = record { into_par_iter_sync = run_in_order; in_order = runs_in_order }

heights :
    All
      (λ h. Ends (get_block sample true one_file file_read file_seek file_exact ok self_spent h))
      (range 0 1)
unfolding range
heights = (inl (block 7, reads_block), tt)

block_iter-DeliversRange_example :
    DeliversRange
      (get_block sample true one_file file_read file_seek file_exact ok self_spent)
      0
      1
      (drain 1 (
        block_iter sample true one_file file_read file_seek file_exact one_thread ok self_spent 0
          1))
block_iter-DeliversRange_example =
    block_iter-DeliversRange sample true one_file file_read file_seek file_exact one_thread ok
      self_spent 0 1 1 heights (omega arith)
