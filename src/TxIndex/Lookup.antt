-- ===== src/TxIndex/Lookup.antt =====
-- A transaction that the index holds is found, and so is its block's height.
use rusty_bitcoin_explorer.Common.{
  ℕ, suc, ◌≡◌, ◌≢◌, refl, ==_iff, sym, ap, ◌∙◌, Bool, true, Option, some, List, [], ◌∷◌, ◌++◌,
  append-nil, get_elem?, ◌==◌, Bool-cases, inl, inr,
}
use rusty_bitcoin_explorer.Common.Words.{pos, IsU32}
use rusty_bitcoin_explorer.Common.Map
use rusty_bitcoin_explorer.Common.Map.{Map, position_key, Agrees, get-collect}
use rusty_bitcoin_explorer.Error.{Outcome, ok}
use rusty_bitcoin_explorer.External.{External, Hash}
use rusty_bitcoin_explorer.Reader.Bytes.{bytes}
use rusty_bitcoin_explorer.Reader.Varint.{write_varint}
use rusty_bitcoin_explorer.BlockIndex.{BlockIndexRecord, BlockIndex}
use rusty_bitcoin_explorer.BlockIndex.Load.{IsChain}
use rusty_bitcoin_explorer.BlockIndex.Decode.{
  IsI32, extend, read_i32_varint-append, read_u32_varint-append,
}
use rusty_bitcoin_explorer.TxIndex.{
  TransactionPosition, TxDb, genesis_txid, place, collect_positions, open_db, tx_key,
  get_tx_position, get_block_height, is_genesis_tx,
}

-- `CDiskTxPos` of Bitcoin Core.
unfoldable pub write_position : TransactionPosition → List ℕ
write_position p =
    write_varint (extend p.n_file) ++ (write_varint p.n_data_pos ++ write_varint p.n_tx_offset)

pub record IsWritablePosition (p : TransactionPosition) : Type 0 where
  pub file : IsI32 p.n_file
  pub data_pos : IsU32 p.n_data_pos
  pub tx_offset : IsU32 p.n_tx_offset

module _ (x : External) (checks : Bool) where
  -- Where the database has the position of a transaction under its key, that position is returned.
  pub get_tx_position_lem :
      (t : TxDb) (p : TransactionPosition)
      → IsWritablePosition p
      → t.db (tx_key x checks p.txid) ≡ ok (some (write_position p))
      → get_tx_position x checks t p.txid ≡ ok p
  unfolding get_tx_position write_position
  get_tx_position_lem t p w e =
      let (s₁, run₁, e₁) = read_i32_varint-append x bytes checks p.n_file _ _ w.file refl in
      let (s₂, run₂, e₂) = read_u32_varint-append x bytes checks p.n_data_pos _ s₁ w.data_pos e₁ in
      let (s₃, run₃, e₃) =
        read_u32_varint-append x bytes checks p.n_tx_offset [] s₂ w.tx_offset
          (e₂ ∙ sym (append-nil (write_varint p.n_tx_offset))) in
      rw (e, run₁, run₂, run₃)

-- No two records have one place on disk.
abbrev pub Distinct : List BlockIndexRecord → Type 0
Distinct rs =
    (i j : ℕ) (a b : BlockIndexRecord)
    → get_elem? rs i ≡ some a
    → get_elem? rs j ≡ some b
    → place a ≡ place b
    → i ≡ j

Agrees-of_distinct :
    (rs : List BlockIndexRecord) (b : BlockIndexRecord)
    → ((i : ℕ) (c : BlockIndexRecord)
        → get_elem? rs i ≡ some c
        → place c ≡ place b
        → c.n_height ≡ b.n_height)
    → Agrees place (λ c. c.n_height) (place b) b.n_height rs
Agrees-of_distinct [] b h = tt
Agrees-of_distinct (c ∷ cs) b h = (h 0 c refl, Agrees-of_distinct cs b (λ i. h (suc i)))

module _ (x : External) (checks : Bool) where
  abbrev db_of : (List ℕ → Outcome (Option (List ℕ))) → BlockIndex → TxDb
  db_of db blk_index = record {
    db = db;
    file_pos_to_height = collect_positions blk_index.records;
    genesis_txid = genesis_txid;
  }

  -- The transactions of the chain and the heights of their blocks: the genesis transaction, which the
  -- database need not hold, and those whose position the database holds, at the place of a record.
  pub data StandsAt (db : List ℕ → Outcome (Option (List ℕ))) (rs : List BlockIndexRecord)
      : Hash → ℕ → Type 0 where
    genesis : StandsAt db rs genesis_txid 0
    stored :
        (p : TransactionPosition) (i : ℕ) (b : BlockIndexRecord)
        → p.txid ≢ genesis_txid
        → IsWritablePosition p
        → db (tx_key x checks p.txid) ≡ ok (some (write_position p))
        → get_elem? rs i ≡ some b
        → (p.n_file, p.n_data_pos) ≡ place b
        → StandsAt db rs p.txid i

  height_of :
      (db : List ℕ → Outcome (Option (List ℕ))) (blk_index : BlockIndex) (txid : Hash) (i : ℕ)
      → IsChain x blk_index.records
      → Distinct blk_index.records
      → StandsAt db blk_index.records txid i
      → get_block_height x checks (db_of db blk_index) txid ≡ ok i
  unfolding get_block_height collect_positions is_genesis_tx
  height_of db blk_index txid i chain distinct genesis = refl
  height_of db blk_index txid i chain distinct (stored p j b other w found_there at here) =
      let rs = blk_index.records in
      let found = get_tx_position_lem x checks (db_of db blk_index) p w found_there in
      let same_height =
        λ (l : ℕ) (c : BlockIndexRecord) (e : get_elem? rs l ≡ some c) (q : place c ≡ place b).
          (chain.at_height l c e).0
          ∙ ap pos (distinct l j c b e at q)
          ∙ sym (chain.at_height j b at).0 in
      let indexed : Map.get (collect_positions rs) (p.n_file, p.n_data_pos) ≡ some (pos j) =
        ap (Map.get (collect_positions rs)) here
        ∙ get-collect place (λ c. c.n_height) rs [] j b (Agrees-of_distinct rs b same_height) at
        ∙ ap some (chain.at_height j b at).0 in
      elim (Bool-cases (p.txid == genesis_txid)) [
        | inl g ↦ absurd (other ((==_iff p.txid genesis_txid).0 g))
        | inr g ↦ rw (g, found, indexed)
      ]

  -- With a block index that is a chain of records at distinct places, the height of a transaction
  -- other than the genesis transaction that the database places in the block of record `i` is `i`. The
  -- genesis transaction has height 0, whatever the database holds.
  pub get_block_height_lem :
      (db : List ℕ → Outcome (Option (List ℕ))) (blk_index : BlockIndex) (t : TxDb) (txid : Hash)
      (i : ℕ)
      → open_db true (ok db) blk_index ≡ some t
      → IsChain x blk_index.records
      → Distinct blk_index.records
      → StandsAt db blk_index.records txid i
      → get_block_height x checks t txid ≡ ok i
  unfolding open_db
  get_block_height_lem db blk_index t txid i opened chain distinct stands =
      let made : db_of db blk_index ≡ t = cc opened in
      rw (← made) (height_of db blk_index txid i chain distinct stands)
