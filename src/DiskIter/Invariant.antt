-- ===== src/DiskIter/Invariant.antt =====
-- The invariant of the two stages over the database.
use rusty_bitcoin_explorer.Common.{
  ℕ, ◌≡◌, ◌≢◌, ◌≤◌, ◌<◌, ◌⊎◌, Bool, Option, some, List, drop, get_elem?, All,
}
use rusty_bitcoin_explorer.Common.Map
use rusty_bitcoin_explorer.Common.Map.{bytes_key}
use rusty_bitcoin_explorer.Error.{ok}
use rusty_bitcoin_explorer.External.{External, Block, Transaction, TxIn}
use rusty_bitcoin_explorer.Reader.{Read, ReadExact}
use rusty_bitcoin_explorer.Xor.{Seek}
use rusty_bitcoin_explorer.Xor.Laws.{xor_read}
use rusty_bitcoin_explorer.BlkFile.{FileSystem}
use rusty_bitcoin_explorer.TxIndex.{TxDb}
use rusty_bitcoin_explorer.Api.{BitcoinDb}
use rusty_bitcoin_explorer.Connected.{ConnectedBlock, all_inputs}
use rusty_bitcoin_explorer.Utxo.Inputs.{NotNull}
use rusty_bitcoin_explorer.DiskUtxo.{Bytes, RocksDb, Works, Codec, block_keys}
use rusty_bitcoin_explorer.DiskUtxo.Connect.{results, Stored}
use rusty_bitcoin_explorer.DiskUtxo.Update.{SpellsKeys}
use rusty_bitcoin_explorer.ConnectedIter.{Task, unreadable, fetched}
use rusty_bitcoin_explorer.ConnectedIter.Deliver.{block_at}
use rusty_bitcoin_explorer.DiskIter.{Worker, waiting, fetching, deleting, done, failed, Pipeline}
use rusty_bitcoin_explorer.DiskIter.Keys.{key_of, rank}
use rusty_bitcoin_explorer.DiskIter.Effects.{Spends}

module _ {F D : Type 0} (db : RocksDb D) (x : External) (e : Codec) (checks : Bool)
    (fs : FileSystem F) (r : Read F) (k : Seek F) (exact : ReadExact (xor_read r)) (db' : BitcoinDb)
    (t : TxDb) (works : Works db) (inj : SpellsKeys x e) (T : ConnectedBlock) where
  -- What `multi_get` gave for a block is what its inputs spend.
  abbrev pub Holds : Block → List (Option (Option Bytes)) → Type 0
  Holds block tx_outs =
      (u : Bytes → Option Bytes) × (tx_outs ≡ results u (block_keys x e block.txdata))
      × All
          (λ (tx : Transaction).
            All (Stored x e checks fs r k exact T.tx t db'.block_index db'.blk_file u) tx.input)
          block.txdata

  -- The worker has deleted the first `pos` keys of the block.
  abbrev pub IsOn : ℕ → Block → Worker T → Type 0
  IsOn pos block waiting = ⊥
  IsOn pos block failed = ⊥
  IsOn pos block (fetching b) = (b ≡ block) × (pos ≡ 0)
  IsOn pos block (deleting b keys tx_outs) =
      (b ≡ block) × (keys ≡ drop pos (block_keys x e block.txdata)) × Holds block tx_outs
  IsOn pos block (done blk) = T.connect block t db'.block_index db'.blk_file ≡ ok blk

  -- What an input spends, and was not deleted, is in the database once its transaction was written.
  abbrev pub Available : D → (ℕ → ℕ) → (ℕ → Task) → Type 0
  Available d pos tasks =
      (j : ℕ) (block : Block) (n : ℕ) (input : TxIn)
      (s : Spends db x e checks fs r k exact db' t works inj j input)
      → block_at x checks fs r k exact db' j ≡ ok block
      → get_elem? (all_inputs block.txdata) n ≡ some input
      → NotNull x input
      → pos j ≤ rank x e (all_inputs block.txdata) n
      → tasks s.height ≡ fetched s.block
      → Map.get (db.entries d) (key_of x e input) ≡ some (e.encode_txout s.out)

  pub record IsInvariant (p : Pipeline T D) : Type 0 where
    pub pos : ℕ → ℕ
    pub readable :
        (h : ℕ) (block : Block)
        → p.tasks h ≡ fetched block
        → block_at x checks fs r k exact db' h ≡ ok block
    pub missing :
        (h : ℕ) (block : Block)
        → p.tasks h ≡ unreadable
        → block_at x checks fs r k exact db' h ≢ ok block
    pub reached : (h : ℕ) → h < p.started → (block : Block) × (p.tasks h ≡ fetched block)
    pub worker :
        (j : ℕ)
        → ((p.started ≤ j) × (p.workers j ≡ waiting) × (pos j ≡ 0))
          ⊎ ((j < p.started)
              × (block : Block) × (p.tasks j ≡ fetched block)
              × IsOn (pos j) block (p.workers j))
    pub available : Available p.cache pos p.tasks
    pub delivered :
        (n : ℕ) (blk : T.Blk)
        → get_elem? p.given n ≡ some blk
        → (block : Block) × (block_at x checks fs r k exact db' n ≡ ok block)
          × (T.connect block t db'.block_index db'.blk_file ≡ ok blk)
