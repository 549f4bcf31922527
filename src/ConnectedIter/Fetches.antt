-- ===== src/ConnectedIter/Fetches.antt =====
-- The first stage keeps the invariant, and with it every state that is reached has it.
use rusty_bitcoin_explorer.Common.{
  ℕ, ◌≡◌, inl, inr, refl, sym, ap, ◌∙◌, Bool, true, some, List, get_elem?, ◌==◌, arith, Bool-cases,
}
use mathlib.Core.Path.{subst}
use rusty_bitcoin_explorer.Common.Map
use rusty_bitcoin_explorer.Common.Map.{nat_key}
use rusty_bitcoin_explorer.Error.{Error, Outcome, ok, err}
use rusty_bitcoin_explorer.External.{External, Hash, Block, TxIn}
use rusty_bitcoin_explorer.Block.{map_all}
use rusty_bitcoin_explorer.Connected.{ConnectedBlock}
use rusty_bitcoin_explorer.Utxo.{VecMap, new_entry}
use rusty_bitcoin_explorer.SharedUtxo.{put}
use rusty_bitcoin_explorer.SharedUtxo.Effect.{unspent_of}
use rusty_bitcoin_explorer.ConnectedIter.{
  Task, todo, unreadable, fetched, Pipeline, add_entries, Step, updates, misses, starts, works,
  gives, Reach, here, next, new,
}
use rusty_bitcoin_explorer.ConnectedIter.Chain.{IsChain}
use rusty_bitcoin_explorer.ConnectedIter.Entries.{AreNew, Added, add_entries-Added}
use rusty_bitcoin_explorer.ConnectedIter.Invariant.{phase, Available, IsInvariant}
use rusty_bitcoin_explorer.ConnectedIter.Steps.{
  keep, keep-IsOnCourse, works-IsInvariant, starts-IsInvariant, gives-IsInvariant,
}

module _ (x : External) (checks : Bool) (T : ConnectedBlock) (reads : ℕ → Outcome Block) (end : ℕ)
    (spends : TxIn → T.tx.Out) where
  module _ (chain : IsChain x T reads spends) (p : Pipeline T)
      (inv : IsInvariant x T reads spends p) (h : ℕ) (open_ : p.tasks h ≡ todo) where
    misses-IsInvariant :
        (e : Error)
        → reads h ≡ err e
        → IsInvariant x T reads spends (record p { tasks = put h unreadable p.tasks })
    misses-IsInvariant e reads_h = record {
      pos = inv.pos;
      consistent = inv.consistent;
      readable = λ i b got. elim (Bool-cases (h == i)) [
        | inl same ↦ cc (rw same at got)
        | inr differs ↦ inv.readable i b (rw differs at got)
      ];
      missing = λ i got. elim (Bool-cases (h == i)) [
        | inl same ↦ let eq : h ≡ i = ground arith in (e, ap reads (sym eq) ∙ reads_h)
        | inr differs ↦ inv.missing i (rw differs at got)
      ];
      owners = λ a below.
          let (i, b, place, tx, got, at, owner) = inv.owners a below in
          (i, b, place, tx, keep p.tasks h i unreadable b open_ got, at, owner);
      reached = λ i below.
          let (b, got) = inv.reached i below in (b, keep p.tasks h i unreadable b open_ got);
      worker = λ j. elim (inv.worker j) [
        | inl rests ↦ inl rests
        | inr (begun, c) ↦ inr (
          begun,
          keep-IsOnCourse x checks T reads end spends p.tasks h j (inv.pos j) unreadable
              (p.workers j) open_ c,
        )
      ];
      available = λ j b k input src reads_j at spent after got.
          elim (Bool-cases (h == src.height)) [
            | inl same ↦ cc (rw same at got)
            | inr differs ↦ inv.available j b k input src reads_j at spent after (rw differs at got)
          ];
      delivered = inv.delivered;
    }

    module _ (block : Block) (reads_h : reads h ≡ ok block) where
      block-AreNew : AreNew x checks T.tx p.shared block.txdata
      block-AreNew = record {
        fresh = λ i tx at a below same.
            let (h', block', i', tx', got, at', owner) = inv.owners a below in
            let (eq, place) =
              chain.unique h h' block block' i i' tx tx' reads_h (inv.readable h' block' got) at at'
                (sym same ∙ owner) in
            let both : todo ≡ fetched block' = sym open_ ∙ ap p.tasks eq ∙ got in cc both;
        differ = λ i j a b at_a at_b same.
            (chain.unique h h block block i j a b reads_h reads_h at_a at_b same).1;
        short = λ i tx at. chain.short h block i tx reads_h at;
      }

      abbrev tasks' : ℕ → Task
      tasks' = put h (fetched block) p.tasks

      module _ (a : Added x checks T.tx p.shared (λ j. phase (p.workers j)) block.txdata) where
        added-Available :
            Available x T reads spends (unspent_of (add_entries p.shared a.entries)) inv.pos tasks'
        added-Available j b k input src reads_j at spent after got =
            elim (Bool-cases (h == src.height)) [
              | inl same ↦
                  let eq : h ≡ src.height = ground arith in
                  let one : ok block ≡ ok src.block = sym reads_h ∙ ap reads eq ∙ src.readable in
                  let is : block ≡ src.block = cc one in
                  let place = ap (λ (z : Block). get_elem? z.txdata src.place) is ∙ src.at_place in
                  subst
                    (λ id.
                      unspent_of (add_entries p.shared a.entries) id input.previous_output.vout
                      ≡ some (spends input))
                    src.is_id
                    (a.new src.place src.tx input.previous_output.vout src.out (spends input) place
                      src.at_number src.converts)
              | inr differs ↦
                  a.old input.previous_output.txid input.previous_output.vout (λ i tx at_i same.
                    let (eq, place) =
                      chain.unique h src.height block src.block i src.place tx src.tx reads_h
                        src.readable at_i src.at_place (same ∙ sym src.is_id) in
                    absurd (ground arith))
                  ∙ inv.available j b k input src reads_j at spent after (rw differs at got)
            ]

        added-IsInvariant :
            IsInvariant x T reads spends
              (record p { shared = add_entries p.shared a.entries; tasks = tasks' })
        added-IsInvariant = record {
          pos = inv.pos;
          consistent = a.consistent;
          readable = λ i b got. elim (Bool-cases (h == i)) [
            | inl same ↦
                let eq : h ≡ i = ground arith in
                let is : fetched block ≡ fetched b = rw same at got in
                ap reads (sym eq) ∙ reads_h ∙ cc is
            | inr differs ↦ inv.readable i b (rw differs at got)
          ];
          missing = λ i got. elim (Bool-cases (h == i)) [
            | inl same ↦ cc (rw same at got)
            | inr differs ↦ inv.missing i (rw differs at got)
          ];
          owners = λ arc below. elim (a.owners arc below) [
            | inl (before, is) ↦
                let (i, b, place, tx, got, at, owner) = inv.owners arc before in
                (i, b, place, tx, keep p.tasks h i (fetched block) b open_ got, at, is ∙ owner)
            | inr (place, tx, at, owner) ↦
                let self : (h == h) ≡ true = ground arith in
                (h, block, place, tx, rw self refl, at, owner)
          ];
          reached = λ i below.
              let (b, got) = inv.reached i below in
              (b, keep p.tasks h i (fetched block) b open_ got);
          worker = λ j. elim (inv.worker j) [
            | inl rests ↦ inl rests
            | inr (begun, c) ↦ inr (
              begun,
              keep-IsOnCourse x checks T reads end spends p.tasks h j (inv.pos j) (fetched block)
                  (p.workers j) open_ c,
            )
          ];
          available = added-Available;
          delivered = inv.delivered;
        }

      updates-IsInvariant :
          (entries : List (Hash × VecMap T.tx.Out))
          → map_all (new_entry x checks T.tx) block.txdata ≡ ok entries
          → IsInvariant x T reads spends
              (record p { shared = add_entries p.shared entries; tasks = tasks' })
      updates-IsInvariant entries runs =
          let a =
            add_entries-Added x checks T.tx p.shared (λ j. phase (p.workers j)) block.txdata
              chain.total inv.consistent block-AreNew in
          let one : ok a.entries ≡ ok entries = sym a.makes ∙ runs in
          let same : a.entries ≡ entries = cc one in
          subst
            (λ es.
              IsInvariant x T reads spends
                (record p { shared = add_entries p.shared es; tasks = tasks' }))
            same (added-IsInvariant a)

  pub Step-IsInvariant :
      (p q : Pipeline T)
      → IsChain x T reads spends
      → IsInvariant x T reads spends p
      → Step x checks T reads end p q
      → IsInvariant x T reads spends q
  Step-IsInvariant _ _ chain inv (updates p h block entries below open_ reads_h runs) =
      updates-IsInvariant chain p inv h open_ block reads_h entries runs
  Step-IsInvariant _ _ chain inv (misses p h e below open_ reads_h) =
      misses-IsInvariant chain p inv h open_ e reads_h
  Step-IsInvariant _ _ chain inv (starts p block got) =
      starts-IsInvariant x checks T reads end spends chain p inv block got
  Step-IsInvariant _ _ chain inv (works p j sh w active runs) =
      works-IsInvariant x checks T reads end spends chain p inv j sh w active runs
  Step-IsInvariant _ _ chain inv (gives p blk finished) =
      gives-IsInvariant x checks T reads end spends chain p inv blk finished

  new-IsInvariant : IsInvariant x T reads spends (new T)
  unfolding new Map.get
  new-IsInvariant = record {
    pos = λ j. 0;
    consistent = record {
      counted = λ a. record { counts = refl; fits = omega arith };
      owned = λ txid a there. cc there;
      safe = λ i. tt;
    };
    readable = λ h b got. cc got;
    missing = λ h got. cc got;
    owners = λ a below. absurd (omega (arith, below));
    reached = λ h below. absurd (omega (arith, below));
    worker = λ j. inl (omega arith, refl, refl);
    available = λ j b k input src reads_j at spent after got. cc got;
    delivered = λ k b at. cc at;
  }

  pub Reach-IsInvariant :
      (p : Pipeline T)
      → IsChain x T reads spends
      → Reach x checks T reads end p
      → IsInvariant x T reads spends p
  Reach-IsInvariant _ chain here = new-IsInvariant
  Reach-IsInvariant q chain (next {p} r step) =
      Step-IsInvariant p q chain (Reach-IsInvariant p chain r) step
