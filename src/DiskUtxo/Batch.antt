-- ===== src/DiskUtxo/Batch.antt =====
-- The batch of entries that `update_unspent_cache` writes to the cache on disk.
use rusty_bitcoin_explorer.Common.{
  ℕ, zero, suc, ◌+◌, ◌^◌, ◌<◌, ◌≡◌, inl, inr, refl, sym, ap, ◌∙◌, Bool, some, List, [], ◌∷◌, ◌++◌,
  length, get_elem?, get_elem?-append_left, get_elem?-append_right, get_elem?-append_cases, arith,
}
use rusty_bitcoin_explorer.Common.Map.{bytes_key}
use rusty_bitcoin_explorer.Error.{ok}
use rusty_bitcoin_explorer.External.{External, Hash, Transaction, TxOut}
use rusty_bitcoin_explorer.DiskUtxo.{Bytes, Codec, add_u32, txout_key, put_outputs, put_txs}

abbrev pub Entry : Type 0
Entry = Bytes × Bytes

add_u32_fits : (checks : Bool) (a b : ℕ) → a + b < 2 ^ 32 → add_u32 checks a b ≡ ok (a + b)
unfolding add_u32
add_u32_fits checks a b h = ground arith

module _ (x : External) (e : Codec) (checks : Bool) where
  -- The entry comes from an output of the transactions.
  pub record Puts (txs : List Transaction) (entry : Entry) : Type 0 where
    pub place : ℕ
    pub tx : Transaction
    pub number : ℕ
    pub out : TxOut
    pub at_place : get_elem? txs place ≡ some tx
    pub at_number : get_elem? tx.output number ≡ some out
    pub is_entry : entry ≡ (txout_key x e (x.compute_txid tx) number, e.encode_txout out)

  abbrev pub entry_of : Hash → ℕ → TxOut → Entry
  entry_of txid n o = (txout_key x e txid n, e.encode_txout o)

  -- The batch has each output, counted from `n`, and nothing else.
  abbrev pub Has : Hash → ℕ → List TxOut → List Entry → Type 0
  Has txid n outs batch =
      (m : ℕ) (o : TxOut)
      → get_elem? outs m ≡ some o
      → get_elem? batch m ≡ some (entry_of txid (n + m) o)

  abbrev pub Only : Hash → ℕ → List TxOut → List Entry → Type 0
  Only txid n outs batch =
      (m : ℕ) (entry : Entry)
      → get_elem? batch m ≡ some entry
      → (o : TxOut) × (get_elem? outs m ≡ some o) × (entry ≡ entry_of txid (n + m) o)

  Has-cons :
      (txid : Hash) (n : ℕ) (o : TxOut) (os : List TxOut) (batch : List Entry)
      → Has txid (n + 1) os batch
      → Has txid n (o ∷ os) (entry_of txid n o ∷ batch)
  Has-cons txid n o os batch h zero o' at =
      let here : o ≡ o' = cc at in
      let same : n ≡ n + 0 = omega arith in
      cc (ap (entry_of txid n) here, ap (λ i. entry_of txid i o') same)
  Has-cons txid n o os batch h (suc m) o' at =
      let same : n + 1 + m ≡ n + suc m = omega arith in
      h m o' at ∙ ap (λ i. some (entry_of txid i o')) same

  Only-cons :
      (txid : Hash) (n : ℕ) (o : TxOut) (os : List TxOut) (batch : List Entry)
      → Only txid (n + 1) os batch
      → Only txid n (o ∷ os) (entry_of txid n o ∷ batch)
  Only-cons txid n o os batch h zero entry at =
      let same : n ≡ n + 0 = omega arith in
      let here : entry_of txid n o ≡ entry = cc at in
      (o, refl, sym here ∙ ap (λ i. entry_of txid i o) same)
  Only-cons txid n o os batch h (suc m) entry at =
      let (o', at', is) = h m entry at in
      let same : n + 1 + m ≡ n + suc m = omega arith in
      (o', at', is ∙ ap (λ i. entry_of txid i o') same)

  pub record OutputsBatch (txid : Hash) (n : ℕ) (outs : List TxOut) : Type 0 where
    pub batch : List Entry
    pub runs : put_outputs x e checks txid n outs ≡ ok batch
    pub has : Has txid n outs batch
    pub only : Only txid n outs batch

  put_outputs-OutputsBatch :
      (txid : Hash) (n : ℕ) (outs : List TxOut)
      → suc (n + length outs) < 2 ^ 32
      → OutputsBatch txid n outs
  unfolding put_outputs
  put_outputs-OutputsBatch txid n [] h = record {
    batch = [];
    runs = rw (add_u32_fits checks n 1 (omega arith));
    has = λ m o at. cc at;
    only = λ m entry at. cc at;
  }
  put_outputs-OutputsBatch txid n (o ∷ os) h =
      let s = put_outputs-OutputsBatch txid (n + 1) os (omega arith) in
      record {
        batch = entry_of txid n o ∷ s.batch;
        runs = rw (add_u32_fits checks n 1 (omega arith), s.runs);
        has = Has-cons txid n o os s.batch s.has;
        only = Only-cons txid n o os s.batch s.only;
      }

  pub record TxsBatch (txs : List Transaction) : Type 0 where
    pub batch : List Entry
    pub runs : put_txs x e checks txs ≡ ok batch
    pub has :
        (i : ℕ) (tx : Transaction) (n : ℕ) (o : TxOut)
        → get_elem? txs i ≡ some tx
        → get_elem? tx.output n ≡ some o
        → (j : ℕ) × (get_elem? batch j ≡ some (entry_of (x.compute_txid tx) n o))
    pub only : (j : ℕ) (entry : Entry) → get_elem? batch j ≡ some entry → Puts txs entry

  module _ (tx : Transaction) (txs : List Transaction)
      (p : OutputsBatch (x.compute_txid tx) 0 tx.output) (s : TxsBatch txs) where
    append-has :
        (i : ℕ) (tx' : Transaction) (n : ℕ) (o : TxOut)
        → get_elem? (tx ∷ txs) i ≡ some tx'
        → get_elem? tx'.output n ≡ some o
        → (j : ℕ) × (get_elem? (p.batch ++ s.batch) j ≡ some (entry_of (x.compute_txid tx') n o))
    append-has zero tx' n o at at_n =
        let same : tx ≡ tx' = cc at in
        let zero_more : 0 + n ≡ n = omega arith in
        let found = p.has n o (ap (λ (t : Transaction). get_elem? t.output n) same ∙ at_n) in
        (
          n,
          get_elem?-append_left p.batch s.batch n found
              ∙ ap (λ i. some (entry_of (x.compute_txid tx) i o)) zero_more
              ∙ ap (λ (t : Transaction). some (entry_of (x.compute_txid t) n o)) same,
        )
    append-has (suc i) tx' n o at at_n =
        let (j, found) = s.has i tx' n o at at_n in
        (length p.batch + j, get_elem?-append_right p.batch s.batch j ∙ found)

    append-only :
        (j : ℕ) (entry : Entry)
        → get_elem? (p.batch ++ s.batch) j ≡ some entry
        → Puts (tx ∷ txs) entry
    append-only j entry at = elim (get_elem?-append_cases p.batch s.batch j entry at) [
      | inl first ↦
          let (o, at_n, is) = p.only j entry first in
          let zero_more : 0 + j ≡ j = omega arith in
          record {
            place = 0;
            tx = tx;
            number = j;
            out = o;
            at_place = refl;
            at_number = at_n;
            is_entry = is ∙ ap (λ i. entry_of (x.compute_txid tx) i o) zero_more;
          }
      | inr (i, later) ↦
          let q = s.only i entry later in
          record {
            place = suc q.place;
            tx = q.tx;
            number = q.number;
            out = q.out;
            at_place = q.at_place;
            at_number = q.at_number;
            is_entry = q.is_entry;
          }
    ]

  pub put_txs-TxsBatch :
      (txs : List Transaction)
      → ((i : ℕ) (tx : Transaction) → get_elem? txs i ≡ some tx → suc (length tx.output) < 2 ^ 32)
      → TxsBatch txs
  unfolding put_txs
  put_txs-TxsBatch [] short = record {
    batch = [];
    runs = refl;
    has = λ i tx n o at at_n. cc at;
    only = λ j entry at. cc at;
  }
  put_txs-TxsBatch (tx ∷ txs) short =
      let fits = short 0 tx refl in
      let p = put_outputs-OutputsBatch (x.compute_txid tx) 0 tx.output (omega arith) in
      let s = put_txs-TxsBatch txs (λ i. short (suc i)) in
      record {
        batch = p.batch ++ s.batch;
        runs = rw (p.runs, s.runs);
        has = append-has tx txs p s;
        only = append-only tx txs p s;
      }
