-- ===== src/DiskIter/Steps.antt =====
-- Every step keeps the invariant.
use rusty_bitcoin_explorer.Common.{
  ℕ, suc, ◌≡◌, ◌≢◌, ◌<◌, inl, inr, refl, sym, ap, ◌∙◌, Bool, true, Option, some, none, [], ◌∷◌,
  ◌++◌, length, get_elem?, get_elem?-snoc, ◌==◌, arith, Bool-cases,
}
use mathlib.Core.Path.{subst}
use rusty_bitcoin_explorer.Common.Map
use rusty_bitcoin_explorer.Common.Map.{bytes_key, nat_key}
use rusty_bitcoin_explorer.Error.{Outcome, ok}
use rusty_bitcoin_explorer.External.{External, Block, TxOut}
use rusty_bitcoin_explorer.Reader.{Read, ReadExact}
use rusty_bitcoin_explorer.Xor.{Seek}
use rusty_bitcoin_explorer.Xor.Laws.{xor_read}
use rusty_bitcoin_explorer.BlkFile.{FileSystem}
use rusty_bitcoin_explorer.TxIndex.{TxDb}
use rusty_bitcoin_explorer.Api.{BitcoinDb}
use rusty_bitcoin_explorer.Connected.{ConnectedBlock}
use rusty_bitcoin_explorer.Utxo.Update.{Converts}
use rusty_bitcoin_explorer.Utxo.Formats.{IsFormat}
use rusty_bitcoin_explorer.SharedUtxo.{put}
use rusty_bitcoin_explorer.DiskUtxo.{RocksDb, Works, Codec}
use rusty_bitcoin_explorer.DiskUtxo.Update.{SpellsKeys}
use rusty_bitcoin_explorer.ConnectedIter.{Task, todo, unreadable, fetched}
use rusty_bitcoin_explorer.ConnectedIter.Deliver.{block_at}
use rusty_bitcoin_explorer.DiskIter.{
  Worker, waiting, fetching, done, Pipeline, is_active, advance, new, Step, updates, misses, starts,
  works, gives, Reach, here, next,
}
use rusty_bitcoin_explorer.DiskIter.Effects.{
  Chain, update-read, update-missed, update-Added, kept_source,
}
use rusty_bitcoin_explorer.DiskUtxo.{txout_key, update_unspent_cache}
use rusty_bitcoin_explorer.ConnectedIter.Steps.{keep}
use rusty_bitcoin_explorer.DiskIter.Invariant.{Available, IsInvariant}
use rusty_bitcoin_explorer.DiskIter.Work.{Moves, advance-Moves}

module _ {F D : Type 0} (db : RocksDb D) (x : External) (e : Codec) (checks : Bool)
    (fs : FileSystem F) (r : Read F) (k : Seek F) (exact : ReadExact (xor_read r)) (db' : BitcoinDb)
    (t : TxDb) (sound : Works db) (inj : SpellsKeys x e) (T : ConnectedBlock)
    (chain : Chain db x e checks fs r k exact db' t sound inj)
    (laws : IsFormat x checks fs r k exact T) (total : Converts T.tx)
    (decodes : (o : TxOut) → e.decode_txout (e.encode_txout o) ≡ some o) where
  abbrev Inv : Pipeline T D → Type 0
  Inv = IsInvariant db x e checks fs r k exact db' t sound inj T

  abbrev reads : ℕ → Outcome Block
  reads = block_at x checks fs r k exact db'

  module _ (p : Pipeline T D) (inv : Inv p) where
    -- A task of the first stage that is done, with what it did to the database.
    task_done :
        (h : ℕ) (d : D) (task : Task)
        → p.tasks h ≡ todo
        → ((block : Block) → task ≡ fetched block → reads h ≡ ok block)
        → ((block : Block) → task ≡ unreadable → reads h ≢ ok block)
        → Available db x e checks fs r k exact db' t sound inj T d inv.pos (put h task p.tasks)
        → Inv (record p { cache = d; tasks = put h task p.tasks })
    task_done h d task open_ loaded lost available = record {
      pos = inv.pos;
      readable = λ i block at. elim (Bool-cases (h == i)) [
        | inl same ↦ let eq : h ≡ i = ground arith in rw (← eq) (loaded block (rw same at at))
        | inr differs ↦ inv.readable i block (rw differs at at)
      ];
      missing = λ i block at. elim (Bool-cases (h == i)) [
        | inl same ↦ let eq : h ≡ i = ground arith in rw (← eq) (lost block (rw same at at))
        | inr differs ↦ inv.missing i block (rw differs at at)
      ];
      reached = λ i below.
          let (block, got) = inv.reached i below in (block, keep p.tasks h i task block open_ got);
      worker = λ j. elim (inv.worker j) [
        | inl rests ↦ inl rests
        | inr (begun, block, got, on) ↦
            inr (begun, block, keep p.tasks h j task block open_ got, on)
      ];
      available = available;
      delivered = inv.delivered;
    }

    updates_keep :
        (h : ℕ) (block : Block) (d : D)
        → p.tasks h ≡ todo
        → update_unspent_cache db x e checks fs r k exact p.cache db' h ≡ ok (some block, d)
        → Inv (record p { cache = d; tasks = put h (fetched block) p.tasks })
    updates_keep h block d open_ runs =
        let reads_h =
          update-read db x e checks fs r k exact db' t sound inj p.cache d h block runs in
        let a =
          update-Added db x e checks fs r k exact db' t sound inj chain p.cache h block reads_h in
        let one : ◌≡◌ {A = Outcome (Option Block × D)} (ok (some block, d))
            (ok (some block, a.d')) =
          sym runs ∙ a.runs in
        let same : d ≡ a.d' = cc one in
        task_done h d (fetched block) open_
          (λ b is. let eq : block ≡ b = cc is in rw (← eq) reads_h) (λ b is. cc is)
          (λ j b n input s reads_j at spent later got. rw same (elim (Bool-cases (h == s.height)) [
            | inl at_h ↦
                let eq : h ≡ s.height = ground arith in
                let one : ok s.block ≡ ok block = sym s.readable ∙ ap reads (sym eq) ∙ reads_h in
                let own : s.block ≡ block = cc one in
                let number = input.previous_output.vout in
                ap (λ id. Map.get (db.entries a.d') (txout_key x e id number)) (sym s.is_id)
                ∙ a.stored s.place s.tx number s.out
                    (ap (λ (z : Block). get_elem? z.txdata s.place) (sym own) ∙ s.at_place)
                    s.at_number
            | inr differs ↦
                kept_source db x e checks fs r k exact db' t sound inj chain p.cache h block j input
                  a reads_h s
                  (λ eq. let test : (h == s.height) ≡ true = ground arith in cc (test, differs))
                ∙ inv.available j b n input s reads_j at spent later (rw differs at got)
          ]))

    misses_keep :
        (h : ℕ) (d : D)
        → p.tasks h ≡ todo
        → update_unspent_cache db x e checks fs r k exact p.cache db' h ≡ ok (none, d)
        → Inv (record p { cache = d; tasks = put h unreadable p.tasks })
    misses_keep h d open_ runs =
        let (same, lost) =
          update-missed db x e checks fs r k exact db' t sound inj p.cache d h runs in
        task_done h d unreadable open_ (λ b is. cc is) (λ b is. lost b)
          (λ j b n input s reads_j at spent later got. rw (← same) (
            inv.available j b n input s reads_j at spent later (elim (Bool-cases (h == s.height)) [
              | inl at_h ↦ let both : unreadable ≡ fetched s.block = rw at_h at got in cc both
              | inr differs ↦ rw differs at got
            ])))

    starts_keep :
        (block : Block)
        → p.tasks p.started ≡ fetched block
        → Inv (record p {
          workers = put p.started (fetching block) p.workers;
          started = suc p.started;
        })
    starts_keep block got = record {
      pos = inv.pos;
      readable = inv.readable;
      missing = inv.missing;
      reached = λ h below. elim (Bool-cases (p.started == h)) [
        | inl same ↦ let eq : p.started ≡ h = ground arith in (block, rw (← eq) got)
        | inr differs ↦ inv.reached h (ground arith)
      ];
      worker = λ i. elim (Bool-cases (p.started == i)) [
        | inl same ↦
            let eq : p.started ≡ i = ground arith in
            elim (inv.worker i) [
              | inr (before, block', got', on) ↦ absurd (omega (arith, eq))
              | inl (later, rests, zero_pos) ↦
                  rw same (inr (omega (arith, eq), block, rw (← eq) got, (refl, zero_pos)))
            ]
        | inr differs ↦ elim (inv.worker i) [
          | inl (later, rests, zero_pos) ↦ rw differs (inl (ground arith, rests, zero_pos))
          | inr (before, block', got', on) ↦ rw differs (inr (omega arith, block', got', on))
        ]
      ];
      available = inv.available;
      delivered = inv.delivered;
    }

    moves :
        (j : ℕ) (begun : j < p.started) (block : Block) (got : p.tasks j ≡ fetched block)
        → (m : Moves db x e checks fs r k exact db' t sound inj T chain laws total decodes p inv j
            begun block got
            (p.workers j))
        → Inv (record p { cache = m.d; workers = put j m.w' p.workers })
    moves j begun block got m = record {
      pos = put j m.pos' inv.pos;
      readable = inv.readable;
      missing = inv.missing;
      reached = inv.reached;
      worker = λ i. elim (Bool-cases (j == i)) [
        | inl same ↦
            let eq : j ≡ i = ground arith in
            rw same (inr (rw (← eq) begun, block, rw (← eq) got, m.on))
        | inr differs ↦ rw differs (inv.worker i)
      ];
      available = m.available;
      delivered = inv.delivered;
    }

    works_keep :
        (j : ℕ) (d : D) (w : Worker T)
        → is_active (p.workers j) ≡ true
        → advance db x e T p.cache (p.workers j) ≡ ok (d, w)
        → Inv (record p { cache = d; workers = put j w p.workers })
    works_keep j d w active runs = elim (inv.worker j) [
      | inl (later, rests, zero_pos) ↦ cc (rw rests at active)
      | inr (begun, block, got, on) ↦
          let m =
            advance-Moves db x e checks fs r k exact db' t sound inj T chain laws total decodes p
              inv j begun block got (p.workers j) active on in
          let one : ok (m.d, m.w') ≡ ok (d, w) = sym m.runs ∙ runs in
          let same : ◌≡◌ {A = D × Worker T} (m.d, m.w') (d, w) = cc one in
          subst
            (λ (q : D × Worker T). Inv (record p { cache = q.0; workers = put j q.1 p.workers }))
            same (moves j begun block got m)
    ]

    gives_keep :
        (blk : T.Blk)
        → p.workers (length p.given) ≡ done blk
        → Inv (record p { given = p.given ++ blk ∷ [] })
    gives_keep blk finished = record {
      pos = inv.pos;
      readable = inv.readable;
      missing = inv.missing;
      reached = inv.reached;
      worker = inv.worker;
      available = inv.available;
      delivered = λ n b at. elim (get_elem?-snoc p.given blk n at) [
        | inl old ↦ inv.delivered n b old
        | inr (last, is) ↦ elim (inv.worker (length p.given)) [
          | inl (later, rests, zero_pos) ↦
              let both : waiting ≡ done blk = sym rests ∙ finished in cc both
          | inr (begun, block, got, on) ↦ (
            block,
            rw last (inv.readable (length p.given) block got),
            rw finished at on ∙ ap ok (sym is),
          )
        ]
      ];
    }

  new-IsInvariant : (d : D) → Inv (new T d)
  unfolding new
  new-IsInvariant d = record {
    pos = λ j. 0;
    readable = λ h block at. cc at;
    missing = λ h block at. cc at;
    reached = λ h below. absurd (omega arith);
    worker = λ j. inl (omega arith, refl, refl);
    available = λ j block n input s reads_j at spent later got. cc got;
    delivered = λ n blk at. cc at;
  }

  Step-IsInvariant :
      (end : ℕ) {p q : Pipeline T D} → Inv p → Step db x e checks fs r k exact T db' end p q → Inv q
  Step-IsInvariant end inv (updates p h block d low open_ runs) =
      updates_keep p inv h block d open_ runs
  Step-IsInvariant end inv (misses p h d low open_ runs) = misses_keep p inv h d open_ runs
  Step-IsInvariant end inv (starts p block got) = starts_keep p inv block got
  Step-IsInvariant end inv (works p j d w active runs) = works_keep p inv j d w active runs
  Step-IsInvariant end inv (gives p blk finished) = gives_keep p inv blk finished

  pub Reach-IsInvariant :
      (end : ℕ) (d : D) {p : Pipeline T D} → Reach db x e checks fs r k exact T db' end d p → Inv p
  Reach-IsInvariant end d here = new-IsInvariant d
  Reach-IsInvariant end d (next r' s) = Step-IsInvariant end (Reach-IsInvariant end d r') s
