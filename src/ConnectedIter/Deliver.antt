-- ===== src/ConnectedIter/Deliver.antt =====
-- What `ConnectedBlockIter` gives.
use rusty_bitcoin_explorer.Common.{ℕ, ◌≡◌, ◌≢◌, inl, inr, refl, sym, ◌∙◌, Bool, some, get_elem?}
use rusty_bitcoin_explorer.Error.{Outcome, ok}
use rusty_bitcoin_explorer.External.{External, Block, TxIn}
use rusty_bitcoin_explorer.Reader.{Read, ReadExact}
use rusty_bitcoin_explorer.Xor.{Seek}
use rusty_bitcoin_explorer.Xor.Laws.{xor_read}
use rusty_bitcoin_explorer.BlkFile.{FileSystem}
use rusty_bitcoin_explorer.TxIndex.{TxDb}
use rusty_bitcoin_explorer.Script.Total.{P2pkPushes}
use rusty_bitcoin_explorer.Connected.{ConnectedBlock}
use rusty_bitcoin_explorer.Utxo.Formats.{Format, format, format-IsFormat}
use rusty_bitcoin_explorer.Api.{BitcoinDb, get_block, get_connected_block}
use rusty_bitcoin_explorer.ConnectedIter.{waiting, failed, Pipeline, Reach}
use rusty_bitcoin_explorer.ConnectedIter.Chain.{IsChain, finish}
use rusty_bitcoin_explorer.ConnectedIter.Invariant.{IsInvariant}
use rusty_bitcoin_explorer.ConnectedIter.Work.{not_off_course}
use rusty_bitcoin_explorer.ConnectedIter.Fetches.{Reach-IsInvariant}
use rusty_bitcoin_explorer.ConnectedIter.Indexed.{IsIndexed, expected-connect}

module _ (x : External) (checks : Bool) (T : ConnectedBlock) (reads : ℕ → Outcome Block)
    (spends : TxIn → T.tx.Out) where
  -- On a chain no worker reports bad data.
  pub never_failed :
      (p : Pipeline T)
      → IsChain x T reads spends
      → IsInvariant x T reads spends p
      → (j : ℕ) → p.workers j ≢ failed
  unfolding finish
  never_failed p chain inv j fails = elim (inv.worker j) [
    | inl (later, rests, zero_pos) ↦ let both : waiting ≡ failed = sym rests ∙ fails in cc both
    | inr (begun, c) ↦
        not_off_course x checks T reads spends chain p.tasks j (inv.pos j) (p.workers j) c
          (rw fails refl)
  ]

module _ {F : Type 0} (x : External) (checks : Bool) (fs : FileSystem F) (r : Read F) (k : Seek F)
    (exact : ReadExact (xor_read r)) where
  abbrev pub block_at : BitcoinDb → ℕ → Outcome Block
  block_at db h = get_block x checks fs r k exact ok db h

  -- On a chain whose transaction index is complete, where the scripts that pay to a public key push
  -- one, in either format and however the worker threads of
  -- the two stages interleave, the block that the iterator gives at place `n` is the one that
  -- `get_connected_block` returns for height `n`, and no worker ever reports bad data.
  pub Reach-get_connected_block :
      (f : Format) (db : BitcoinDb) (t : TxDb) (end : ℕ)
      (spends : TxIn → (format x checks fs r k exact f).tx.Out)
      (p : Pipeline (format x checks fs r k exact f))
      → P2pkPushes x
      → db.tx_db ≡ some t
      → IsChain x (format x checks fs r k exact f) (block_at db) spends
      → IsIndexed x checks fs r k exact
          (format x checks fs r k exact f)
          t
          db.block_index
          db.blk_file
          (block_at db)
          spends
      → Reach x checks (format x checks fs r k exact f) (block_at db) end p
      → ((n : ℕ) (blk : (format x checks fs r k exact f).Blk)
          → get_elem? p.given n ≡ some blk
          → get_connected_block x checks fs r k exact (format x checks fs r k exact f) db n
            ≡ ok blk)
        × ((j : ℕ) → p.workers j ≢ failed)
  unfolding get_connected_block get_block
  Reach-get_connected_block f db t end spends p pushes has_index chain indexed r' =
      let T = format x checks fs r k exact f in
      let inv = Reach-IsInvariant x checks T (block_at db) end spends p chain r' in
      (
        λ n blk at.
            let (block, reads_n, finishes) = inv.delivered n blk at in
            let connects =
              expected-connect x checks fs r k exact T t db.block_index db.blk_file (block_at db)
                spends (format-IsFormat x checks fs r k exact pushes f) indexed n block blk reads_n
                finishes in
            rw (has_index, reads_n) connects,
        never_failed x checks T (block_at db) spends p chain inv,
      )
