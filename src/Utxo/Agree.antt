-- ===== src/Utxo/Agree.antt =====
-- A block that is connected from the cache is the block that is connected through the transaction
-- index.
use rusty_bitcoin_explorer.Common.{
  ℕ, ◌≡◌, ◌⊎◌, inl, inr, refl, sym, ap, ◌∙◌, Bool, true, false, Option, some, List, [], ◌∷◌, ◌++◌,
  length, All, ◌==◌, arith,
}
use rusty_bitcoin_explorer.Error.{ok}
use rusty_bitcoin_explorer.External.{External, Hash, Transaction, TxIn, TxOut}
use rusty_bitcoin_explorer.Reader.{Read, ReadExact}
use rusty_bitcoin_explorer.Xor.{Seek}
use rusty_bitcoin_explorer.Xor.Laws.{xor_read}
use rusty_bitcoin_explorer.BlkFile.{FileSystem, BlkFile}
use rusty_bitcoin_explorer.BlockIndex.{BlockIndex}
use rusty_bitcoin_explorer.TxIndex.{TxDb}
use rusty_bitcoin_explorer.Block.{map_all}
use rusty_bitcoin_explorer.Connected.{ConnectedBlock, all_inputs, all_found, outpoints_count}
use rusty_bitcoin_explorer.Connected.Lists.{present}
use rusty_bitcoin_explorer.Connected.Blocks.{Attaches, LooksUp, inputs_found}
use rusty_bitcoin_explorer.Utxo.{Cache, spend_txs}
use rusty_bitcoin_explorer.Utxo.Contents.{contents, AllCounted}
use rusty_bitcoin_explorer.Utxo.Inputs.{
  IsNull, NotNull, Distinct, left_over, Ready, spend_inputs-Spent,
}

-- The block with the transactions added.
abbrev pub add_all : (T : ConnectedBlock) → T.Blk → List T.tx.Tx → T.Blk
add_all T blk [] = blk
add_all T blk (tx ∷ txs) = add_all T (T.add_tx blk tx) txs

-- A coinbase spends no output, and any other transaction spends one by each input.
abbrev pub IsCoinbaseOrSpends : External → Transaction → Type 0
IsCoinbaseOrSpends x tx =
    ((x.is_coinbase tx ≡ true) × All (IsNull x) tx.input)
    ⊎ ((x.is_coinbase tx ≡ false) × All (NotNull x) tx.input)

left_over-append :
    {A : Type 0} (x : External) (is js : List TxIn) (u : Hash → ℕ → Option A)
    → left_over x (is ++ js) u ≡ left_over x js (left_over x is u)
left_over-append x [] js u = refl
left_over-append x (i ∷ is) js u = left_over-append x is js _

module _ {F : Type 0} (x : External) (checks : Bool) (fs : FileSystem F) (r : Read F) (k : Seek F)
    (exact : ReadExact (xor_read r)) where
  module _ (T : ConnectedBlock) (t : TxDb) (idx : BlockIndex) (b : BlkFile) where
    -- What a run over transactions does.
    pub record Connects (blk : T.Blk) (txs : List Transaction) (c : Cache T.tx.Out) : Type 0 where
      pub connected : List T.tx.Tx
      pub cache : Cache T.tx.Out
      pub spends : spend_txs x checks T blk txs c ≡ ok (some (add_all T blk connected), cache)
      pub one_by_one : map_all (λ tx. T.tx.connect tx t idx b) txs ≡ ok connected
      pub looks_up : All (LooksUp x checks fs r k exact t idx b) txs
      pub counted : AllCounted cache
      pub left : contents cache ≡ left_over x (all_inputs txs) (contents c)

    pub found-All :
        (tx : Transaction) (outs : List TxOut)
        → IsCoinbaseOrSpends x tx
        → (All (NotNull x) tx.input → length outs ≡ length tx.input)
        → (All (IsNull x) tx.input → outs ≡ [])
        → all_found (outpoints_count (x.is_coinbase tx) tx.input) outs ≡ ok outs
    found-All tx outs (inl (coinbase, nulls)) all_there none_there = rw (coinbase, none_there nulls)
    found-All tx outs (inr (spends, inputs)) all_there none_there =
        let count = all_there inputs in
        let test : (length outs == length tx.input) ≡ true = ground arith in rw (spends, test)

    pub spend_txs-Connects :
        Attaches x checks fs r k exact T.tx
        → ((tx : Transaction) → (blank : T.tx.Tx) × (T.tx.from tx ≡ ok blank))
        → (blk : T.Blk) (txs : List Transaction) (c : Cache T.tx.Out)
        → All (IsCoinbaseOrSpends x) txs
        → AllCounted c
        → All (Ready x checks fs r k exact T.tx t idx b (contents c)) (all_inputs txs)
        → Distinct x (all_inputs txs)
        → Connects blk txs c
    unfolding spend_txs map_all all_inputs
    spend_txs-Connects attaches starts blk [] c kinds counted ready distinct = record {
      connected = [];
      cache = c;
      spends = refl;
      one_by_one = refl;
      looks_up = tt;
      counted = counted;
      left = refl;
    }
    spend_txs-Connects attaches starts blk (tx ∷ txs) c (kind, kinds) counted ready distinct =
        let (blank, starts_tx) = starts tx in
        let s =
          spend_inputs-Spent x checks fs r k exact T.tx t idx b blank tx.input (all_inputs txs) c
            counted ready distinct in
        let rest =
          spend_txs-Connects attaches starts (T.add_tx blk s.connected) txs s.cache kinds s.counted
            s.ready s.distinct in
        let found =
          inputs_found x checks fs r k exact tx.input (x.is_coinbase tx) t idx b s.os s.looked_up
          ∙ found-All tx (present s.os) kind s.all_there s.none_there in
        record {
          connected = s.connected ∷ rest.connected;
          cache = rest.cache;
          spends = rw (starts_tx, s.spends) rest.spends;
          one_by_one = rw (attaches tx t idx b, found, starts_tx, s.adds, rest.one_by_one);
          looks_up = ((s.os, s.looked_up), rest.looks_up);
          counted = rest.counted;
          left =
              rest.left
              ∙ ap (left_over x (all_inputs txs)) s.left
              ∙ sym (left_over-append x tx.input (all_inputs txs) (contents c));
        }
