-- ===== src/Utxo/Update.antt =====
-- `update_unspent_cache` adds the outputs of a block to the cache.
use rusty_bitcoin_explorer.Common.{
  ℕ, zero, suc, ◌≡◌, ◌≢◌, ◌<◌, ◌^◌, inl, inr, refl, sym, ap, ◌∙◌, Bool, some, List, [], ◌∷◌, map,
  length, get_elem?,
}
use rusty_bitcoin_explorer.Common.Map.{
  nat_key, get-collect, get-collect_cases, get-collect_absent, Agrees-of,
}
use rusty_bitcoin_explorer.Error.{ok, >>=-eq-ok}
use rusty_bitcoin_explorer.External.{External, Hash, Block, Transaction, TxOut}
use rusty_bitcoin_explorer.Reader.{Read, ReadExact}
use rusty_bitcoin_explorer.Xor.{Seek}
use rusty_bitcoin_explorer.Xor.Laws.{xor_read}
use rusty_bitcoin_explorer.BlkFile.{FileSystem}
use rusty_bitcoin_explorer.Block.{map_all}
use rusty_bitcoin_explorer.Connected.{ConnectedTx, ConnectedBlock}
use rusty_bitcoin_explorer.Connected.Lists.{
  map_all-ok, length-map_all, get_elem?-map_all, get_elem?-map_all_inverse,
}
use rusty_bitcoin_explorer.Api.{BitcoinDb, get_block}
use rusty_bitcoin_explorer.Utxo.{VecMap, Cache, from_vec, extend, new_entry, update_unspent_cache}
use rusty_bitcoin_explorer.Utxo.Slots.{IsCounted, slot, from_vec-IsCounted}
use rusty_bitcoin_explorer.Utxo.Contents.{contents, AllCounted, output_of}

pub slot-map-some : {T : Type 0} (ts : List T) (n : ℕ) → slot (map some ts) n ≡ get_elem? ts n
slot-map-some [] n = refl
slot-map-some (t ∷ ts) zero = refl
slot-map-some (t ∷ ts) (suc n) = slot-map-some ts n

-- The conversion of outputs returns.
abbrev pub Converts : ConnectedTx → Type 0
Converts T = (o : TxOut) → (out : T.Out) × (T.into o ≡ ok out)

-- Two transactions of one id are one.
abbrev pub UniqueIds : External → List Transaction → Type 0
UniqueIds x txs =
    (i j : ℕ) (a b : Transaction)
    → get_elem? txs i ≡ some a
    → get_elem? txs j ≡ some b
    → x.compute_txid a ≡ x.compute_txid b
    → a ≡ b

module _ (x : External) (checks : Bool) (T : ConnectedTx) where
  new_entry_cases :
      (tx : Transaction) (entry : Hash × VecMap T.Out)
      → new_entry x checks T tx ≡ ok entry
      → (outs : List T.Out) × (map_all T.into tx.output ≡ ok outs)
        × (entry ≡ (x.compute_txid tx, from_vec (map some outs)))
  unfolding new_entry
  new_entry_cases tx entry e =
      let (outs, run, made) = >>=-eq-ok (map_all T.into tx.output) _ e in (outs, run, cc made)

  pub new_entry-ok :
      Converts T
      → (tx : Transaction) → (entry : Hash × VecMap T.Out) × (new_entry x checks T tx ≡ ok entry)
  unfolding new_entry
  new_entry-ok total tx =
      let (outs, run) = map_all-ok T.into total tx.output in
      ((x.compute_txid tx, from_vec (map some outs)), rw run)

  new_entry-IsCounted :
      (tx : Transaction) (entry : Hash × VecMap T.Out)
      → length tx.output < 2 ^ 32
      → new_entry x checks T tx ≡ ok entry
      → IsCounted entry.1
  new_entry-IsCounted tx entry short e =
      let (outs, run, made) = new_entry_cases tx entry e in
      rw made (from_vec-IsCounted outs (rw (length-map_all T.into tx.output outs run) short))

  -- The cache with the entries of the transactions.
  module _ (c : Cache T.Out) (txs : List Transaction) (entries : List (Hash × VecMap T.Out))
      (run : map_all (new_entry x checks T) txs ≡ ok entries) where
    extend-AllCounted :
        AllCounted c
        → ((i : ℕ) (tx : Transaction) → get_elem? txs i ≡ some tx → length tx.output < 2 ^ 32)
        → AllCounted (extend c entries)
    unfolding extend
    extend-AllCounted counted short txid v e =
        elim (get-collect_cases (λ entry. entry.0) (λ entry. entry.1) entries c txid v e) [
          | inl (i, entry, at, keyed, valued) ↦
              let (tx, at', made) =
                get_elem?-map_all_inverse (new_entry x checks T) txs entries i entry run at in
              rw (← valued) (new_entry-IsCounted tx entry (short i tx at') made)
          | inr before ↦ counted txid v before
        ]

    extend_old :
        (txid : Hash) (n : ℕ)
        → ((i : ℕ) (tx : Transaction) → get_elem? txs i ≡ some tx → x.compute_txid tx ≢ txid)
        → contents (extend c entries) txid n ≡ contents c txid n
    unfolding extend
    extend_old txid n absent =
        ap (λ o. output_of o n)
          (get-collect_absent (λ entry. entry.0) (λ entry. entry.1) entries c txid
            (λ i entry at keyed.
              let (tx, at', made) =
                get_elem?-map_all_inverse (new_entry x checks T) txs entries i entry run at in
              let (outs, _, is) = new_entry_cases tx entry made in
              absent i tx at' (ap (λ (p : Hash × VecMap T.Out). p.0) (sym is) ∙ keyed)))

    extend_new :
        (i : ℕ) (tx : Transaction) (n : ℕ) (o : TxOut) (out : T.Out)
        → UniqueIds x txs
        → get_elem? txs i ≡ some tx
        → get_elem? tx.output n ≡ some o
        → T.into o ≡ ok out
        → contents (extend c entries) (x.compute_txid tx) n ≡ some out
    unfolding extend from_vec
    extend_new i tx n o out unique at at_n converts =
        let (entry, at_entry, made) =
          get_elem?-map_all (new_entry x checks T) txs entries i tx run at in
        let (outs, converted, is) = new_entry_cases tx entry made in
        let (out', at_out, converts') =
          get_elem?-map_all T.into tx.output outs n o converted at_n in
        let id = ap (λ (p : Hash × VecMap T.Out). p.0) is in
        let agrees =
          Agrees-of (λ (p : Hash × VecMap T.Out). p.0) (λ (p : Hash × VecMap T.Out). p.1) entries
            entry.0 entry.1
            (λ j e at_j same.
              let (tx', at', made') =
                get_elem?-map_all_inverse (new_entry x checks T) txs entries j e run at_j in
              let (outs', _, is') = new_entry_cases tx' e made' in
              let one : tx' ≡ tx =
                unique j i tx' tx at' at
                  (ap (λ (p : Hash × VecMap T.Out). p.0) (sym is') ∙ same ∙ id) in
              let equal : ok e ≡ ok entry = sym made' ∙ ap (new_entry x checks T) one ∙ made in
              cc equal) in
        let got =
          get-collect (λ (p : Hash × VecMap T.Out). p.0) (λ (p : Hash × VecMap T.Out). p.1) entries
            c i entry agrees at_entry in
        let found = rw id at got in
        rw (found, is, slot-map-some outs n, at_out) (cc (sym converts' ∙ converts))

module _ {F : Type 0} (x : External) (checks : Bool) (fs : FileSystem F) (r : Read F) (k : Seek F)
    (exact : ReadExact (xor_read r)) (T : ConnectedBlock) where
  -- A block whose transactions have different ids is read, and the cache has each of its outputs then,
  -- converted, under its transaction and its number; the outputs of other transactions are as before,
  -- and every entry still counts its outputs.
  pub update_unspent_cache_lem :
      (c : Cache T.tx.Out) (db : BitcoinDb) (height : ℕ) (block : Block)
      → Converts T.tx
      → get_block x checks fs r k exact ok db height ≡ ok block
      → UniqueIds x block.txdata
      → ((i : ℕ) (tx : Transaction)
          → get_elem? block.txdata i ≡ some tx
          → length tx.output < 2 ^ 32)
      → AllCounted c
      → (c' : Cache T.tx.Out) × (update_unspent_cache x checks fs r k exact T c db height
          ≡ ok (some block, c'))
        × AllCounted c'
        × ((i : ℕ) (tx : Transaction) (n : ℕ) (o : TxOut) (out : T.tx.Out)
            → get_elem? block.txdata i ≡ some tx
            → get_elem? tx.output n ≡ some o
            → T.tx.into o ≡ ok out
            → contents c' (x.compute_txid tx) n ≡ some out)
        × ((txid : Hash) (n : ℕ)
            → ((i : ℕ) (tx : Transaction)
                → get_elem? block.txdata i ≡ some tx
                → x.compute_txid tx ≢ txid)
            → contents c' txid n ≡ contents c txid n)
  unfolding update_unspent_cache
  update_unspent_cache_lem c db height block total reads unique short counted =
      let txs = block.txdata in
      let (entries, run) =
        map_all-ok (new_entry x checks T.tx) (new_entry-ok x checks T.tx total) txs in
      (
        extend c entries,
        rw (reads, update_unspent_cache, run),
        extend-AllCounted x checks T.tx c txs entries run counted short,
        λ i tx n o out. extend_new x checks T.tx c txs entries run i tx n o out unique,
        extend_old x checks T.tx c txs entries run,
      )
