-- ===== src/ConnectedIter/Entries.antt =====
-- The entries of a block in the shared cache.
use rusty_bitcoin_explorer.Common.{
  ℕ, zero, suc, ◌≡◌, ◌≢◌, ◌<◌, ◌^◌, ◌⊎◌, inl, inr, refl, sym, ap, ◌∙◌, Bool, true, false, Option,
  some, List, [], ◌∷◌, map, length, get_elem?, ◌==◌, arith, Bool-cases,
}
use rusty_bitcoin_explorer.Error.{ok}
use rusty_bitcoin_explorer.External.{External, Hash, Transaction, TxOut}
use rusty_bitcoin_explorer.Block.{map_all}
use rusty_bitcoin_explorer.Connected.{ConnectedTx}
use rusty_bitcoin_explorer.Connected.Lists.{map_all-ok, length-map_all, get_elem?-map_all}
use rusty_bitcoin_explorer.Utxo.{VecMap, new_entry, from_vec}
use rusty_bitcoin_explorer.Utxo.Slots.{from_vec-IsCounted}
use rusty_bitcoin_explorer.Utxo.Update.{Converts, slot-map-some}
use rusty_bitcoin_explorer.SharedUtxo.{Shared, Phase, System, add_entry, adds, IsFresh}
use rusty_bitcoin_explorer.SharedUtxo.Frame.{IsConsistent}
use rusty_bitcoin_explorer.SharedUtxo.Effect.{unspent_of, with_entry}
use rusty_bitcoin_explorer.SharedUtxo.Run.{Step-HasEffect}
use rusty_bitcoin_explorer.ConnectedIter.{add_entries}

module _ (x : External) (checks : Bool) (T : ConnectedTx) where
  -- The ids are new to the cache, and no two transactions have one.
  pub record AreNew (sh : Shared T.Out) (txs : List Transaction) : Type 0 where
    pub fresh :
        (i : ℕ) (tx : Transaction) → get_elem? txs i ≡ some tx → IsFresh sh (x.compute_txid tx)
    pub differ :
        (i j : ℕ) (a b : Transaction)
        → get_elem? txs i ≡ some a
        → get_elem? txs j ≡ some b
        → x.compute_txid a ≡ x.compute_txid b
        → i ≡ j
    pub short : (i : ℕ) (tx : Transaction) → get_elem? txs i ≡ some tx → length tx.output < 2 ^ 32

  -- The cache once the outputs of the transactions are there.
  pub record Added (sh : Shared T.Out) (threads : ℕ → Phase) (txs : List Transaction) : Type 0 where
    pub entries : List (Hash × VecMap T.Out)
    pub makes : map_all (new_entry x checks T) txs ≡ ok entries
    pub consistent : IsConsistent (record { shared = add_entries sh entries; threads = threads })
    pub old :
        (txid : Hash) (n : ℕ)
        → ((i : ℕ) (tx : Transaction) → get_elem? txs i ≡ some tx → x.compute_txid tx ≢ txid)
        → unspent_of (add_entries sh entries) txid n ≡ unspent_of sh txid n
    pub new :
        (i : ℕ) (tx : Transaction) (n : ℕ) (o : TxOut) (out : T.Out)
        → get_elem? txs i ≡ some tx
        → get_elem? tx.output n ≡ some o
        → T.into o ≡ ok out
        → unspent_of (add_entries sh entries) (x.compute_txid tx) n ≡ some out
    pub owners :
        (a : ℕ)
        → a < (add_entries sh entries).next_arc
        → ((a < sh.next_arc) × ((add_entries sh entries).owner a ≡ sh.owner a))
          ⊎ ((i : ℕ) × (tx : Transaction) × (get_elem? txs i ≡ some tx)
              × ((add_entries sh entries).owner a ≡ x.compute_txid tx))

  AreNew-tail :
      (sh : Shared T.Out) (tx : Transaction) (txs : List Transaction) (v : VecMap T.Out)
      → AreNew sh (tx ∷ txs)
      → AreNew (add_entry sh (x.compute_txid tx) v) txs
  unfolding add_entry
  AreNew-tail sh tx txs v new = record {
    fresh = λ i tx' at a below same. elim (Bool-cases (sh.next_arc == a)) [
      | inl last ↦
          let is : x.compute_txid tx ≡ x.compute_txid tx' = rw last at same in
          let no_index = new.differ 0 (suc i) tx tx' refl at is in absurd (omega (arith, no_index))
      | inr before ↦
          let within : a < sh.next_arc = ground arith in
          new.fresh (suc i) tx' at a within (rw before at same)
    ];
    differ = λ i j a b at_a at_b same.
        let next = new.differ (suc i) (suc j) a b at_a at_b same in omega (arith, next);
    short = λ i. new.short (suc i);
  }

  -- One entry, and then those of the other transactions.
  module _ (sh : Shared T.Out) (threads : ℕ → Phase) (tx : Transaction) (txs : List Transaction)
      (outs : List T.Out) (run : map_all T.into tx.output ≡ ok outs)
      (rest : Added (add_entry sh (x.compute_txid tx) (from_vec (map some outs))) threads txs)
      (effect : unspent_of (add_entry sh (x.compute_txid tx) (from_vec (map some outs)))
        ≡ with_entry (unspent_of sh) (x.compute_txid tx) (from_vec (map some outs))) where
    abbrev after : Shared T.Out
    after = add_entries (add_entry sh (x.compute_txid tx) (from_vec (map some outs))) rest.entries

    before-old :
        (txid : Hash) (n : ℕ)
        → ((i : ℕ) (tx' : Transaction)
            → get_elem? (tx ∷ txs) i ≡ some tx'
            → x.compute_txid tx' ≢ txid)
        → unspent_of after txid n ≡ unspent_of sh txid n
    before-old txid n absent =
        let differs : (x.compute_txid tx == txid) ≡ false =
          elim (Bool-cases (x.compute_txid tx == txid)) [
            | inr apart ↦ apart
            | inl same ↦ absurd (absent 0 tx refl (ground arith))
          ] in
        rest.old txid n (λ i. absent (suc i))
        ∙ ap (λ (u : Hash → ℕ → Option T.Out). u txid n) effect
        ∙ rw differs refl

    before-new :
        ((i : ℕ) (tx' : Transaction)
          → get_elem? txs i ≡ some tx'
          → x.compute_txid tx' ≢ x.compute_txid tx)
        → (i : ℕ) (tx' : Transaction) (n : ℕ) (o : TxOut) (out : T.Out)
        → get_elem? (tx ∷ txs) i ≡ some tx'
        → get_elem? tx'.output n ≡ some o
        → T.into o ≡ ok out
        → unspent_of after (x.compute_txid tx') n ≡ some out
    unfolding from_vec
    before-new others zero tx' n o out at at_n converts =
        let same : tx ≡ tx' = cc at in
        let here = ap (λ (t : Transaction). get_elem? t.output n) same ∙ at_n in
        let (out', at_out, converts') = get_elem?-map_all T.into tx.output outs n o run here in
        let is : out' ≡ out = cc (sym converts' ∙ converts) in
        let self : (x.compute_txid tx == x.compute_txid tx) ≡ true = ground arith in
        let found : unspent_of after (x.compute_txid tx) n ≡ some out =
          rest.old (x.compute_txid tx) n others
          ∙ ap (λ (u : Hash → ℕ → Option T.Out). u (x.compute_txid tx) n) effect
          ∙ rw self (slot-map-some outs n ∙ at_out ∙ ap some is) in
        rw (← same) found
    before-new others (suc i) tx' n o out at at_n converts = rest.new i tx' n o out at at_n converts

    before-owners :
        (a : ℕ)
        → a < after.next_arc
        → ((a < sh.next_arc) × (after.owner a ≡ sh.owner a))
          ⊎ ((i : ℕ) × (tx' : Transaction) × (get_elem? (tx ∷ txs) i ≡ some tx')
              × (after.owner a ≡ x.compute_txid tx'))
    unfolding add_entry
    before-owners a below = elim (rest.owners a below) [
      | inr (i, tx', at, is) ↦ inr (suc i, tx', at, is)
      | inl (within, is) ↦ elim (Bool-cases (sh.next_arc == a)) [
        | inl last ↦ inr (0, tx, refl, is ∙ rw last refl)
        | inr earlier ↦
            let lower : a < sh.next_arc = ground arith in inl (lower, is ∙ rw earlier refl)
      ]
    ]

  pub add_entries-Added :
      (sh : Shared T.Out) (threads : ℕ → Phase) (txs : List Transaction)
      → Converts T
      → IsConsistent (record { shared = sh; threads = threads })
      → AreNew sh txs
      → Added sh threads txs
  unfolding add_entries map_all new_entry from_vec
  add_entries-Added sh threads [] total c new = record {
    entries = [];
    makes = refl;
    consistent = c;
    old = λ txid n absent. refl;
    new = λ i tx n o out at at_n converts. cc at;
    owners = λ a below. inl (below, refl);
  }
  add_entries-Added sh threads (tx ∷ txs) total c new =
      let (outs, run) = map_all-ok T.into total tx.output in
      let txid = x.compute_txid tx in
      let v = from_vec (map some outs) in
      let s : System T.Out = record { shared = sh; threads = threads } in
      let fits : length outs < 2 ^ 32 =
        rw (length-map_all T.into tx.output outs run) (new.short 0 tx refl) in
      let (c', effect) =
        Step-HasEffect checks s _ _ c
          (adds s txid v (new.fresh 0 tx refl) (from_vec-IsCounted outs fits)) in
      let rest =
        add_entries-Added (add_entry sh txid v) threads txs total c'
          (AreNew-tail sh tx txs v new) in
      record {
        entries = (txid, v) ∷ rest.entries;
        makes = rw (run, rest.makes);
        consistent = rest.consistent;
        old = before-old sh threads tx txs outs run rest effect;
        new = before-new sh threads tx txs outs run rest effect (λ i tx' at same.
            let no_index = new.differ (suc i) 0 tx' tx at refl same in
            absurd (omega (arith, no_index)));
        owners = before-owners sh threads tx txs outs run rest effect;
      }
