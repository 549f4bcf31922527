-- ===== src/DiskIter/Work.antt =====
-- A thread in the middle of its task can always go on.
use rusty_bitcoin_explorer.Common.{
  ℕ, suc, ◌≡◌, ◌≤◌, ◌<◌, inl, inr, refl, sym, ap, ◌∙◌, Bool, true, some, [], ◌∷◌, drop, get_elem?,
  get_elem?_of_drop, drop_further, All-of, ◌==◌, arith, Bool-cases,
}
use rusty_bitcoin_explorer.Common.Map
use rusty_bitcoin_explorer.Common.Map.{bytes_key, bytes_eq, bytes_eq_iff, get-remove}
use rusty_bitcoin_explorer.Error.{ok}
use rusty_bitcoin_explorer.External.{External, Block, TxIn, TxOut}
use rusty_bitcoin_explorer.Reader.{Read, ReadExact}
use rusty_bitcoin_explorer.Xor.{Seek}
use rusty_bitcoin_explorer.Xor.Laws.{xor_read}
use rusty_bitcoin_explorer.BlkFile.{FileSystem}
use rusty_bitcoin_explorer.TxIndex.{TxDb}
use rusty_bitcoin_explorer.Api.{BitcoinDb}
use rusty_bitcoin_explorer.Connected.{ConnectedBlock, all_inputs}
use rusty_bitcoin_explorer.Utxo.Update.{Converts}
use rusty_bitcoin_explorer.Utxo.Formats.{IsFormat}
use rusty_bitcoin_explorer.Utxo.Agree.{add_all}
use rusty_bitcoin_explorer.SharedUtxo.{put}
use rusty_bitcoin_explorer.DiskUtxo.{Bytes, RocksDb, Works, Codec, block_keys}
use rusty_bitcoin_explorer.DiskUtxo.Connect.{results, Stored, fetch_txs-FetchedAll}
use rusty_bitcoin_explorer.DiskUtxo.Update.{SpellsKeys, txout_key_injective}
use rusty_bitcoin_explorer.ConnectedIter.{Task, fetched}
use rusty_bitcoin_explorer.ConnectedIter.Deliver.{block_at}
use rusty_bitcoin_explorer.DiskIter.{
  Worker, waiting, fetching, deleting, done, failed, Pipeline, is_active, advance,
}
use rusty_bitcoin_explorer.DiskIter.Keys.{
  key_of, rank, block_keys-all_inputs, KeyAt, input_keys-KeyAt, All-all_inputs,
}
use rusty_bitcoin_explorer.DiskIter.Effects.{Chain, vout-lt}
use rusty_bitcoin_explorer.DiskIter.Invariant.{IsOn, Available, IsInvariant}

module _ {F D : Type 0} (db : RocksDb D) (x : External) (e : Codec) (checks : Bool)
    (fs : FileSystem F) (r : Read F) (k : Seek F) (exact : ReadExact (xor_read r)) (db' : BitcoinDb)
    (t : TxDb) (works : Works db) (inj : SpellsKeys x e) (T : ConnectedBlock)
    (chain : Chain db x e checks fs r k exact db' t works inj) where
  below_put : (pos : ℕ → ℕ) (j n i m : ℕ) → pos j ≤ n → put j n pos i ≤ m → pos i ≤ m
  below_put pos j n i m before after = elim (Bool-cases (j == i)) [
    | inl same ↦
        let eq : j ≡ i = ground arith in
        let bound : n ≤ m = rw same at after in
        let low : pos i ≤ n = rw (← eq) before in omega arith
    | inr differs ↦ rw differs at after
  ]

  -- A key that is deleted is that of no other input.
  after_key :
      (d d' : D) (pos : ℕ → ℕ) (tasks : ℕ → Task) (j : ℕ) (block : Block) (key : Bytes)
      → block_at x checks fs r k exact db' j ≡ ok block
      → KeyAt x e (all_inputs block.txdata) (pos j) key
      → ((i : Bytes) → Map.get (db.entries d') i ≡ Map.get (Map.remove (db.entries d) key) i)
      → Available db x e checks fs r k exact db' t works inj T d pos tasks
      → Available db x e checks fs r k exact db' t works inj T d' (put j (suc (pos j)) pos) tasks
  after_key d d' pos tasks j block key reads_j left_key left available i block' n input s reads_i
        here spent later got =
      left (key_of x e input)
      ∙ get-remove (db.entries d) key (key_of x e input)
      ∙ elim (Bool-cases (bytes_eq key (key_of x e input))) [
        | inl same ↦
            let key_eq : key ≡ key_of x e input = (bytes_eq_iff key (key_of x e input)).0 same in
            let own =
              chain.source j block left_key.place left_key.input reads_j left_key.at
                left_key.spent in
            let (ids, numbers) =
              txout_key_injective x e left_key.input.previous_output.txid input.previous_output.txid
                left_key.input.previous_output.vout input.previous_output.vout inj
                (vout-lt db x e checks fs r k exact db' t works inj chain j left_key.input own)
                (vout-lt db x e checks fs r k exact db' t works inj chain i input s)
                (left_key.is_key ∙ key_eq) in
            let (eq, places) =
              chain.once j i block block' left_key.place n left_key.input input reads_j reads_i
                left_key.at here left_key.spent spent ids numbers in
            let one : ok block' ≡ ok block =
              sym reads_i ∙ ap (block_at x checks fs r k exact db') (sym eq) ∙ reads_j in
            let block_eq : block' ≡ block = cc one in
            let counts : rank x e (all_inputs block'.txdata) n ≡ pos j =
              ap (λ (b : Block). rank x e (all_inputs b.txdata) n) block_eq
              ∙ ap (rank x e (all_inputs block.txdata)) (sym places)
              ∙ left_key.counts in
            let test : (j == i) ≡ true = ground arith in
            let bound : suc (pos j) ≤ rank x e (all_inputs block'.txdata) n = rw test at later in
            absurd (omega (arith, counts))
        | inr differs ↦ rw differs (
            available i block' n input s reads_i here spent
              (below_put pos j (suc (pos j)) i (rank x e (all_inputs block'.txdata) n) (omega arith)
                later)
              got)
      ]

  module _ (laws : IsFormat x checks fs r k exact T) (total : Converts T.tx)
      (decodes : (o : TxOut) → e.decode_txout (e.encode_txout o) ≡ some o) (p : Pipeline T D)
      (inv : IsInvariant db x e checks fs r k exact db' t works inj T p) (j : ℕ)
      (begun : j < p.started) (block : Block) (got : p.tasks j ≡ fetched block) where
    pub record Moves (w : Worker T) : Type 0 where
      pub d : D
      pub w' : Worker T
      pub pos' : ℕ
      pub runs : advance db x e T p.cache w ≡ ok (d, w')
      pub on : IsOn db x e checks fs r k exact db' t works inj T pos' block w'
      pub available :
          Available db x e checks fs r k exact db' t works inj T d (put j pos' inv.pos) p.tasks

    quiet :
        (w w' : Worker T)
        → advance db x e T p.cache w ≡ ok (p.cache, w')
        → IsOn db x e checks fs r k exact db' t works inj T (inv.pos j) block w'
        → Moves w
    quiet w w' runs on = record {
      d = p.cache;
      w' = w';
      pos' = inv.pos j;
      runs = runs;
      on = on;
      available = λ i block' n input s reads_i at spent later got'.
          inv.available i block' n input s reads_i at spent
            (below_put inv.pos j (inv.pos j) i (rank x e (all_inputs block'.txdata) n) (omega arith)
              later)
            got';
    }

    input-Stored :
        (n : ℕ) (input : TxIn)
        → inv.pos j ≡ 0
        → get_elem? (all_inputs block.txdata) n ≡ some input
        → Stored x e checks fs r k exact T.tx t db'.block_index db'.blk_file
            (λ key. Map.get (db.entries p.cache) key)
            input
    input-Stored n input none_gone at = elim (Bool-cases (x.is_null input.previous_output)) [
      | inl null ↦ inl null
      | inr spent ↦
          let reads_j = inv.readable j block got in
          let s = chain.source j block n input reads_j at spent in
          let earlier = s.earlier in
          let (block', there) = inv.reached s.height (omega arith) in
          let again : ok block' ≡ ok s.block =
            sym (inv.readable s.height block' there) ∙ s.readable in
          let same : block' ≡ s.block = cc again in
          let (out, converts) = total s.out in
          inr (record {
            spends = spent;
            out = s.out;
            converted = out;
            encoded = e.encode_txout s.out;
            connects = s.connects;
            converts = converts;
            stored =
                inv.available j block n input s reads_j at spent (omega (arith, none_gone))
                  (there ∙ ap fetched same);
            decodes = decodes s.out;
          })
    ]

    pub advance-Moves :
        (w : Worker T)
        → is_active w ≡ true
        → IsOn db x e checks fs r k exact db' t works inj T (inv.pos j) block w
        → Moves w
    unfolding advance
    advance-Moves waiting active on = cc active
    advance-Moves failed active on = cc active
    advance-Moves (done blk) active on = cc active
    advance-Moves (fetching b) active (same, none_gone) =
        let keys = block_keys x e b.txdata in
        let u = λ (key : Bytes). Map.get (db.entries p.cache) key in
        let keys_eq : keys ≡ block_keys x e block.txdata =
          ap (λ (z : Block). block_keys x e z.txdata) same in
        quiet (fetching b) (deleting b keys (results u keys)) (rw (works.gets keys p.cache) refl) (
          same,
          keys_eq ∙ ap (λ n. drop n (block_keys x e block.txdata)) (sym none_gone),
          (
            u,
            ap (results u) keys_eq,
            All-all_inputs x e
                (Stored x e checks fs r k exact T.tx t db'.block_index db'.blk_file u) block.txdata
                (All-of _ (all_inputs block.txdata)
                  (λ n input at. input-Stored n input none_gone at)),
          ),
        )
    advance-Moves (deleting b [] tx_outs) active (same, left, (u, outs, stored)) =
        let run =
          fetch_txs-FetchedAll x e checks fs r k exact T t db'.block_index db'.blk_file u
            laws.attaches laws.starts tx_outs (T.from block.header (x.block_hash block.header))
            block.txdata 0 (chain.kinds j block (inv.readable j block got)) stored
            (λ n. ap (get_elem? tx_outs) (omega arith) ∙ ap (λ l. get_elem? l n) outs) in
        quiet (deleting b [] tx_outs)
          (done (add_all T (T.from block.header (x.block_hash block.header)) run.connected))
          (rw (same, run.fetches) refl)
          (laws.builds block t db'.block_index db'.blk_file run.connected run.one_by_one
            run.looks_up)
    advance-Moves (deleting b (key ∷ keys) tx_outs) active (same, left, (u, outs, stored)) =
        let all_keys = block_keys x e block.txdata in
        let at = get_elem?_of_drop all_keys keys (inv.pos j) key (sym left) in
        let (d', removes, entries) = works.deletes key p.cache in
        let key_at =
          input_keys-KeyAt x e (all_inputs block.txdata) (inv.pos j) key (
            ap (λ l. get_elem? l (inv.pos j)) (sym (block_keys-all_inputs x e block.txdata))
            ∙ at) in
        record {
          d = d';
          w' = deleting b keys tx_outs;
          pos' = suc (inv.pos j);
          runs = rw removes refl;
          on = (
            same,
            sym (drop_further all_keys keys (inv.pos j) key (sym left)),
            (u, outs, stored),
          );
          available =
              after_key p.cache d' inv.pos p.tasks j block key (inv.readable j block got) key_at
                entries inv.available;
        }
