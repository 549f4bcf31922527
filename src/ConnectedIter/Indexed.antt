-- ===== src/ConnectedIter/Indexed.antt =====
-- The block that a task is to give is the block that is connected through the transaction index.
use rusty_bitcoin_explorer.Common.{
  ℕ, suc, ◌≡◌, ◌⊎◌, inl, inr, refl, sym, ap, ◌∙◌, Bool, Option, none, some, List, [], ◌∷◌, length,
  get_elem?, All, All-of, All-append_left, All-append_right, Bool-cases,
}
use rusty_bitcoin_explorer.Error.{Outcome, ok}
use rusty_bitcoin_explorer.External.{External, Block, Transaction, TxIn, TxOut}
use rusty_bitcoin_explorer.Reader.{Read, ReadExact}
use rusty_bitcoin_explorer.Xor.{Seek}
use rusty_bitcoin_explorer.Xor.Laws.{xor_read}
use rusty_bitcoin_explorer.BlkFile.{FileSystem, BlkFile}
use rusty_bitcoin_explorer.BlockIndex.{BlockIndex}
use rusty_bitcoin_explorer.TxIndex.{TxDb}
use rusty_bitcoin_explorer.Block.{map_all}
use rusty_bitcoin_explorer.Connected.{ConnectedBlock, add_inputs, all_inputs}
use rusty_bitcoin_explorer.Connected.Lists.{present}
use rusty_bitcoin_explorer.Connected.Connect.{connect_input}
use rusty_bitcoin_explorer.Connected.Blocks.{LooksUp, inputs_found}
use rusty_bitcoin_explorer.Utxo.Inputs.{IsNull, NotNull, connect_null}
use rusty_bitcoin_explorer.Utxo.Agree.{add_all, IsCoinbaseOrSpends, found-All}
use rusty_bitcoin_explorer.Utxo.Formats.{IsFormat}
use rusty_bitcoin_explorer.ConnectedIter.Chain.{finish_inputs, finish_txs, expected}

module _ {F : Type 0} (x : External) (checks : Bool) (fs : FileSystem F) (r : Read F) (k : Seek F)
    (exact : ReadExact (xor_read r)) (T : ConnectedBlock) (t : TxDb) (idx : BlockIndex)
    (b : BlkFile) (reads : ℕ → Outcome Block) (spends : TxIn → T.tx.Out) where
  -- The index finds the output that the input spends.
  pub record Found (input : TxIn) : Type 0 where
    pub out : TxOut
    pub spent : NotNull x input
    pub connects : connect_input x checks fs r k exact t idx b input ≡ ok (some out)
    pub converts : T.tx.into out ≡ ok (spends input)

  -- The transaction index is that of the chain.
  pub record IsIndexed : Type 0 where
    pub found :
        (j : ℕ) (block : Block) (n : ℕ) (input : TxIn)
        → reads j ≡ ok block
        → get_elem? (all_inputs block.txdata) n ≡ some input
        → NotNull x input
        → Found input
    pub kinds :
        (j : ℕ) (block : Block) → reads j ≡ ok block → All (IsCoinbaseOrSpends x) block.txdata

  abbrev NullOrFound : TxIn → Type 0
  NullOrFound input = IsNull x input ⊎ Found input

  record Matched (tx : T.tx.Tx) (is : List TxIn) : Type 0 where
    os : List (Option TxOut)
    looked_up : map_all (connect_input x checks fs r k exact t idx b) is ≡ ok os
    adds : add_inputs T.tx tx (present os) ≡ ok (finish_inputs x T reads spends tx is)
    all_there : All (NotNull x) is → length (present os) ≡ length is
    none_there : All (IsNull x) is → present os ≡ []

  inputs-Matched : (tx : T.tx.Tx) (is : List TxIn) → All NullOrFound is → Matched tx is
  unfolding finish_inputs add_inputs map_all
  inputs-Matched tx [] h = record {
    os = [];
    looked_up = refl;
    adds = refl;
    all_there = λ h. refl;
    none_there = λ h. refl;
  }
  inputs-Matched tx (i ∷ is) (inl null, h) =
      let m = inputs-Matched tx is h in
      record {
        os = none ∷ m.os;
        looked_up = rw (connect_null x checks fs r k exact T.tx t idx b i null, m.looked_up);
        adds = rw null m.adds;
        all_there = λ h. cc (h.0, null);
        none_there = λ h. m.none_there h.1;
      }
  inputs-Matched tx (i ∷ is) (inr f, h) =
      let m = inputs-Matched (T.tx.add_input tx (spends i)) is h in
      record {
        os = some f.out ∷ m.os;
        looked_up = rw (f.connects, m.looked_up);
        adds = rw (f.converts, f.spent) m.adds;
        all_there = λ h. ap suc (m.all_there h.1);
        none_there = λ h. cc (h.0, f.spent);
      }

  record TxsMatched (blk : T.Blk) (txs : List Transaction) : Type 0 where
    connected : List T.tx.Tx
    one_by_one : map_all (λ tx. T.tx.connect tx t idx b) txs ≡ ok connected
    looks_up : All (LooksUp x checks fs r k exact t idx b) txs
    finishes : finish_txs x T reads spends blk txs ≡ ok (add_all T blk connected)

  txs-TxsMatched :
      IsFormat x checks fs r k exact T
      → (blk : T.Blk) (txs : List Transaction) → All (IsCoinbaseOrSpends x) txs
      → All NullOrFound (all_inputs txs)
      → TxsMatched blk txs
  unfolding finish_txs map_all all_inputs
  txs-TxsMatched laws blk [] kinds h = record {
    connected = [];
    one_by_one = refl;
    looks_up = tt;
    finishes = refl;
  }
  txs-TxsMatched laws blk (tx ∷ txs) (kind, kinds) h =
      let (blank, starts) = laws.starts tx in
      let m =
        inputs-Matched blank tx.input (All-append_left NullOrFound tx.input (all_inputs txs) h) in
      let connected_tx = finish_inputs x T reads spends blank tx.input in
      let rest =
        txs-TxsMatched laws
          (T.add_tx blk (finish_inputs x T reads spends (laws.starts tx).0 tx.input)) txs kinds
          (All-append_right NullOrFound tx.input (all_inputs txs) h) in
      let found =
        inputs_found x checks fs r k exact tx.input (x.is_coinbase tx) t idx b m.os m.looked_up
        ∙ found-All x checks fs r k exact T t idx b tx (present m.os) kind m.all_there
            m.none_there in
      record {
        connected = connected_tx ∷ rest.connected;
        one_by_one = rw (laws.attaches tx t idx b, found, starts, m.adds, rest.one_by_one);
        looks_up = ((m.os, m.looked_up), rest.looks_up);
        finishes = rw starts rest.finishes;
      }

  pub expected-connect :
      IsFormat x checks fs r k exact T
      → IsIndexed
      → (j : ℕ) (block : Block) (blk : T.Blk) → reads j ≡ ok block
      → expected x T reads spends block ≡ ok blk
      → T.connect block t idx b ≡ ok blk
  expected-connect laws indexed j block blk reads_j finishes =
      let inputs =
        All-of NullOrFound (all_inputs block.txdata)
          (λ n input at. null_or_found j block n input reads_j at) in
      let m =
        txs-TxsMatched laws (T.from block.header (x.block_hash block.header)) block.txdata
          (indexed.kinds j block reads_j) inputs in
      laws.builds block t idx b m.connected m.one_by_one m.looks_up ∙ sym m.finishes ∙ finishes
    where
      null_or_found :
          (j : ℕ) (block : Block) (n : ℕ) (input : TxIn)
          → reads j ≡ ok block
          → get_elem? (all_inputs block.txdata) n ≡ some input
          → NullOrFound input
      null_or_found j block n input reads_j at =
          elim (Bool-cases (x.is_null input.previous_output)) [
            | inl null ↦ inl null
            | inr spent ↦ inr (indexed.found j block n input reads_j at spent)
          ]
