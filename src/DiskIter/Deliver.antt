-- ===== src/DiskIter/Deliver.antt =====
-- What `ConnectedBlockIter` gives with the cache on disk, and that its stages do not block each other.
use rusty_bitcoin_explorer.Common.{
  ℕ, ◌≡◌, ◌≢◌, ◌==◌, ◌≤◌, ◌<◌, inl, inr, refl, sym, ap, ◌∙◌, Bool, true, ◌⊎◌, some, leb, Bool-cases,
  length, get_elem?, arith,
}
use rusty_bitcoin_explorer.Script.Total.{P2pkPushes}
use rusty_bitcoin_explorer.Connected.Blocks.{compact_tx_out-ok, full_tx_out-ok}
use rusty_bitcoin_explorer.Utxo.Formats.{Format, compact, full, format, format-IsFormat}
use rusty_bitcoin_explorer.Api.{get_block, get_connected_block}
use rusty_bitcoin_explorer.Error.{Outcome, ok}
use rusty_bitcoin_explorer.External.{External, Block, TxOut}
use rusty_bitcoin_explorer.Reader.{Read, ReadExact}
use rusty_bitcoin_explorer.Xor.{Seek}
use rusty_bitcoin_explorer.Xor.Laws.{xor_read}
use rusty_bitcoin_explorer.BlkFile.{FileSystem}
use rusty_bitcoin_explorer.TxIndex.{TxDb}
use rusty_bitcoin_explorer.Api.{BitcoinDb}
use rusty_bitcoin_explorer.Api.Errors.{IsResult, value, error}
use rusty_bitcoin_explorer.SharedUtxo.{put}
use rusty_bitcoin_explorer.Connected.{ConnectedBlock}
use rusty_bitcoin_explorer.Utxo.Update.{Converts}
use rusty_bitcoin_explorer.DiskUtxo.{RocksDb, Works, Codec, update_unspent_cache}
use rusty_bitcoin_explorer.DiskUtxo.Update.{SpellsKeys}
use rusty_bitcoin_explorer.ConnectedIter.{Task, todo, unreadable, fetched}
use rusty_bitcoin_explorer.ConnectedIter.Deliver.{block_at}
use rusty_bitcoin_explorer.DiskIter.{
  Worker, waiting, fetching, deleting, done, failed, Pipeline, is_active, advance, Step, updates,
  misses, starts, works, gives, Reach,
}
use rusty_bitcoin_explorer.DiskIter.Effects.{Chain, update-Added}
use rusty_bitcoin_explorer.DiskIter.Invariant.{IsInvariant}
use rusty_bitcoin_explorer.DiskIter.Work.{advance-Moves}
use rusty_bitcoin_explorer.DiskIter.Steps.{Reach-IsInvariant}

module _ {F D : Type 0} (db : RocksDb D) (x : External) (e : Codec) (checks : Bool)
    (fs : FileSystem F) (r : Read F) (k : Seek F) (exact : ReadExact (xor_read r)) where
  -- The conversions of outputs are total.
  format-Converts : P2pkPushes x → (f : Format) → Converts (format x checks fs r k exact f).tx
  format-Converts pushes compact = compact_tx_out-ok x pushes
  format-Converts pushes full = full_tx_out-ok x pushes

  module _ (db' : BitcoinDb) (t : TxDb) (sound : Works db) (inj : SpellsKeys x e) (f : Format)
      (pushes : P2pkPushes x) (decodes : (o : TxOut) → e.decode_txout (e.encode_txout o) ≡ some o)
      (chain : Chain db x e checks fs r k exact db' t sound inj) (end : ℕ) (d : D)
      (p : Pipeline (format x checks fs r k exact f) D)
      (reach : Reach db x e checks fs r k exact (format x checks fs r k exact f) db' end d p) where
    abbrev T : ConnectedBlock
    T = format x checks fs r k exact f

    abbrev reads : ℕ → Outcome Block
    reads = block_at x checks fs r k exact db'

    inv : IsInvariant db x e checks fs r k exact db' t sound inj T p
    inv =
        Reach-IsInvariant db x e checks fs r k exact db' t sound inj T chain
          (format-IsFormat x checks fs r k exact pushes f) (format-Converts pushes f) decodes end d
          reach

    not_failed : (j : ℕ) → p.workers j ≢ failed
    not_failed j fails = elim (inv.worker j) [
      | inl (later, rests, zero_pos) ↦ let both : waiting ≡ failed = sym rests ∙ fails in cc both
      | inr (begun, block, got, on) ↦ absurd (rw fails at on)
    ]

    -- With the cache on disk, over a database that works, with keys that tell outputs apart and an
    -- encoding of outputs that reads back, on a chain whose transaction index is complete, where the
    -- scripts that pay to a public key push one, in either format and however the worker threads of the
    -- two stages interleave, the block that the iterator gives at place `n` is the one that
    -- `get_connected_block` returns for height `n`, and no worker ever reports bad data.
    pub Reach_disk-get_connected_block :
        db'.tx_db ≡ some t
        → ((n : ℕ) (blk : T.Blk)
            → get_elem? p.given n ≡ some blk
            → get_connected_block x checks fs r k exact T db' n ≡ ok blk)
          × ((j : ℕ) → p.workers j ≢ failed)
    unfolding get_connected_block get_block
    Reach_disk-get_connected_block has_index = (
      λ n blk at.
          let (block, reads_n, connects) = inv.delivered n blk at in
          rw (has_index, reads_n) connects,
      not_failed,
    )

    abbrev CanStep : Type 0
    CanStep = (q : Pipeline T D) × Step db x e checks fs r k exact T db' end p q

    put-here : {A : Type 0} (h : ℕ) (a : A) (g : ℕ → A) → put h a g h ≡ a
    put-here h a g = let same : (h == h) ≡ true = ground arith in rw same refl

    -- A step that does the task of the first stage for a height.
    abbrev Does : ℕ → Type 0
    Does h = (q : Pipeline T D) × Step db x e checks fs r k exact T db' end p q × (q.tasks h ≢ todo)

    do_task : (h : ℕ) → h < end → p.tasks h ≡ todo → IsResult (reads h) → Does h
    unfolding update_unspent_cache
    do_task h below is (value block reads_h) =
        let a =
          update-Added db x e checks fs r k exact db' t sound inj chain p.cache h block reads_h in
        (
          _,
          updates p h block a.d' below is a.runs,
          λ again. let both : fetched block ≡ todo = sym (put-here h _ p.tasks) ∙ again in cc both,
        )
    do_task h below is (error er fails) = (
      _,
      misses p h p.cache below is (rw (update_unspent_cache, fails) refl),
      λ again. let both : unreadable ≡ todo = sym (put-here h _ p.tasks) ∙ again in cc both,
    )

    fetch_next : (h : ℕ) (block : Block) → h < end → reads h ≡ ok block → p.started ≡ h → CanStep
    fetch_next h block below reads_h is_next = by_task (p.tasks h) refl
      where
        by_task : (task : Task) → p.tasks h ≡ task → CanStep
        by_task todo is =
            let (q, step, left) = do_task h below is (value block reads_h) in (q, step)
        by_task unreadable is = absurd (inv.missing h block is reads_h)
        by_task (fetched b) is = (_, starts p b (ap p.tasks is_next ∙ is))

    -- The next step of a thread does not panic.
    runs_on :
        (j : ℕ)
        → is_active (p.workers j) ≡ true
        → (d' : D) × (w : Worker T) × (advance db x e T p.cache (p.workers j) ≡ ok (d', w))
    runs_on j active = elim (inv.worker j) [
      | inl (later, rests, zero_pos) ↦ cc (rw rests at active)
      | inr (begun, block, got, on) ↦
          let m =
            advance-Moves db x e checks fs r k exact db' t sound inj T chain
              (format-IsFormat x checks fs r k exact pushes f) (format-Converts pushes f) decodes p
              inv j begun block got (p.workers j) active on in
          (m.d, m.w', m.runs)
    ]

    go_on : (j : ℕ) → is_active (p.workers j) ≡ true → CanStep
    go_on j active = let (d', w, runs) = runs_on j active in (_, works p j d' w active runs)

    give_next :
        ((h : ℕ) → h ≤ length p.given → (block : Block) × (reads h ≡ ok block))
        → length p.given < end
        → CanStep
    give_next readable below = by_worker (p.workers n) refl
      where
        n : ℕ
        n = length p.given

        by_worker : (w : Worker T) → p.workers n ≡ w → CanStep
        by_worker (done blk) is = (_, gives p blk is)
        by_worker failed is = absurd (not_failed n is)
        by_worker waiting is = elim (inv.worker n) [
          | inl (later, rests, zero_pos) ↦
              let (block, reads_h) = readable p.started later in
              fetch_next p.started block (omega arith) reads_h refl
          | inr (begun, block, got, on) ↦ absurd (rw is at on)
        ]
        by_worker (fetching b) is = go_on n (ap is_active is)
        by_worker (deleting b keys outs) is = go_on n (ap is_active is)

    -- With the cache on disk, over a database, keys, an encoding and a chain as for
    -- `Reach_disk-get_connected_block`, where reading a block gives the block or an error, the stages
    -- neither deadlock nor panic, in whatever state they are: the iterator has given the blocks of all
    -- heights below `good`, which can be read, or some thread can go on or the next block can be given;
    -- each thread of the second stage that is in its task can take its next step; and each task of the
    -- first stage that is left can be done, whether its block can be read or not.
    pub Reach_disk-Step :
        (good : ℕ)
        → ((h : ℕ) → h < end → IsResult (reads h))
        → good ≤ end
        → ((h : ℕ) → h < good → (block : Block) × (reads h ≡ ok block))
        → ((good ≤ length p.given)
            ⊎ ((q : Pipeline T D) × Step db x e checks fs r k exact T db' end p q))
          × ((j : ℕ)
              → is_active (p.workers j) ≡ true
              → (d' : D) × (w : Worker T) × (advance db x e T p.cache (p.workers j) ≡ ok (d', w)))
          × ((h : ℕ)
              → h < end
              → p.tasks h ≡ todo
              → (q : Pipeline T D) × Step db x e checks fs r k exact T db' end p q
                × (q.tasks h ≢ todo))
    Reach_disk-Step good results within readable = (
      elim (Bool-cases (leb good (length p.given))) [
        | inl all_given ↦ inl (ground arith)
        | inr below ↦ inr (
            let left : length p.given < good = ground arith in
            give_next (λ h low. readable h (omega arith)) (omega arith))
      ],
      runs_on,
      λ h low is. do_task h low is (results h low),
    )
