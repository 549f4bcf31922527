-- ===== src/DiskUtxo/Update.antt =====
-- `update_unspent_cache` writes the outputs of a block to the cache on disk.
use rusty_bitcoin_explorer.Common.{
  ℕ, suc, ◌^◌, ◌<◌, ◌≡◌, ◌≢◌, refl, sym, ap, ◌∙◌, Bool, some, List, [], ◌∷◌, ◌++◌, length,
  get_elem?, get_elem?-lt, arith,
}
use rusty_bitcoin_explorer.Common.Map
use rusty_bitcoin_explorer.Common.Map.{bytes_key, get-collect, get-collect_absent, Agrees-of}
use rusty_bitcoin_explorer.Error.{ok}
use rusty_bitcoin_explorer.External.{External, Hash, Block, Transaction, TxOut}
use rusty_bitcoin_explorer.Reader.{Read, ReadExact}
use rusty_bitcoin_explorer.Xor.{Seek}
use rusty_bitcoin_explorer.Xor.Laws.{xor_read}
use rusty_bitcoin_explorer.BlkFile.{FileSystem}
use rusty_bitcoin_explorer.Api.{BitcoinDb, get_block}
use rusty_bitcoin_explorer.Utxo.Update.{UniqueIds}
use rusty_bitcoin_explorer.DiskUtxo.{Bytes, RocksDb, Works, Codec, txout_key, update_unspent_cache}
use rusty_bitcoin_explorer.DiskUtxo.Batch.{Entry, Puts, entry_of, put_txs-TxsBatch}

-- The bytes of an id, all ids having as many, spell it, and so do those of a u32.
pub record SpellsKeys (x : External) (e : Codec) : Type 0 where
  pub same_length : (a b : Hash) → length (x.txid_bytes a) ≡ length (x.txid_bytes b)
  pub ids : (a b : Hash) → x.txid_bytes a ≡ x.txid_bytes b → a ≡ b
  pub numbers : (m n : ℕ) → m < 2 ^ 32 → n < 2 ^ 32 → e.ne_bytes m ≡ e.ne_bytes n → m ≡ n

append_injective :
    (as_ bs cs ds : Bytes) → length as_ ≡ length bs → as_ ++ cs ≡ bs ++ ds → (as_ ≡ bs) × (cs ≡ ds)
append_injective [] [] cs ds h eq = (refl, eq)
append_injective [] (b ∷ bs) cs ds h eq = absurd (omega (arith, h))
append_injective (a ∷ as_) [] cs ds h eq = absurd (omega (arith, h))
append_injective (a ∷ as_) (b ∷ bs) cs ds h eq =
    let (same, rest) = append_injective as_ bs cs ds (omega (arith, h)) (cc eq) in
    (cc (eq, same), rest)

pub txout_key_injective :
    (x : External) (e : Codec) (a b : Hash) (m n : ℕ)
    → SpellsKeys x e
    → m < 2 ^ 32
    → n < 2 ^ 32
    → txout_key x e a m ≡ txout_key x e b n
    → (a ≡ b) × (m ≡ n)
unfolding txout_key
txout_key_injective x e a b m n inj hm hn eq =
    let (same, rest) =
      append_injective (x.txid_bytes a) (x.txid_bytes b) (e.ne_bytes m) (e.ne_bytes n)
        (inj.same_length a b) eq in
    (inj.ids a b same, inj.numbers m n hm hn rest)

-- No other output of the block has the key of an output.
one_output :
    (x : External) (e : Codec) (checks : Bool) (txs : List Transaction) (entry : Entry)
    (txid : Hash) (i : ℕ) (tx : Transaction) (n : ℕ) (o : TxOut)
    → SpellsKeys x e
    → UniqueIds x txs
    → ((i : ℕ) (tx : Transaction) → get_elem? txs i ≡ some tx → suc (length tx.output) < 2 ^ 32)
    → (q : Puts x e checks txs entry) → get_elem? txs i ≡ some tx
    → get_elem? tx.output n ≡ some o
    → x.compute_txid tx ≡ txid
    → entry.0 ≡ txout_key x e txid n
    → q.out ≡ o
one_output x e checks txs entry txid i tx n o inj unique short q at at_n is same =
    let q_fits = short q.place q.tx q.at_place in
    let fits = short i tx at in
    let q_below = get_elem?-lt q.tx.output q.number q.at_number in
    let below = get_elem?-lt tx.output n at_n in
    let (id, number) =
      txout_key_injective x e (x.compute_txid q.tx) txid q.number n inj (omega arith) (omega arith)
        (sym (ap (λ (z : Entry). z.0) q.is_entry) ∙ same) in
    let one = unique q.place i q.tx tx q.at_place at (id ∙ sym is) in
    let outs : get_elem? q.tx.output q.number ≡ get_elem? tx.output n =
      ap (λ (z : Transaction). get_elem? z.output q.number) one ∙ ap (get_elem? tx.output) number in
    cc (sym q.at_number ∙ outs ∙ at_n)

module _ {F D : Type 0} (db : RocksDb D) (x : External) (e : Codec) (checks : Bool)
    (fs : FileSystem F) (r : Read F) (k : Seek F) (exact : ReadExact (xor_read r)) where
  -- A block whose transactions have different ids is read, and a database that works has the encoding
  -- of each of its outputs then, under the key of its transaction and its number, without an overflow
  -- of the number; what is under other keys is as before.
  pub update_unspent_cache_disk_lem :
      (d : D) (db' : BitcoinDb) (height : ℕ) (block : Block)
      → Works db
      → SpellsKeys x e
      → get_block x checks fs r k exact ok db' height ≡ ok block
      → UniqueIds x block.txdata
      → ((i : ℕ) (tx : Transaction)
          → get_elem? block.txdata i ≡ some tx
          → suc (length tx.output) < 2 ^ 32)
      → (d' : D) × (update_unspent_cache db x e checks fs r k exact d db' height
          ≡ ok (some block, d'))
        × ((i : ℕ) (tx : Transaction) (n : ℕ) (o : TxOut)
            → get_elem? block.txdata i ≡ some tx
            → get_elem? tx.output n ≡ some o
            → Map.get (db.entries d') (txout_key x e (x.compute_txid tx) n)
              ≡ some (e.encode_txout o))
        × ((key : Bytes)
            → ((i : ℕ) (tx : Transaction) (n : ℕ) (o : TxOut)
                → get_elem? block.txdata i ≡ some tx
                → get_elem? tx.output n ≡ some o
                → txout_key x e (x.compute_txid tx) n ≢ key)
            → Map.get (db.entries d') key ≡ Map.get (db.entries d) key)
  unfolding update_unspent_cache
  update_unspent_cache_disk_lem d db' height block w inj reads unique short =
      let txs = block.txdata in
      let p = put_txs-TxsBatch x e checks txs short in
      let (d', writes, puts) = w.puts p.batch d in
      (
        d',
        rw (update_unspent_cache, reads, p.runs, writes),
        λ i tx n o at at_n.
            let (j, found) = p.has i tx n o at at_n in
            let entry = entry_of x e checks (x.compute_txid tx) n o in
            puts entry.0
            ∙ get-collect (λ (q : Entry). q.0) (λ (q : Entry). q.1) p.batch (db.entries d) j entry
                (Agrees-of (λ (q : Entry). q.0) (λ (q : Entry). q.1) p.batch entry.0 entry.1
                  (λ l other at_l same.
                    let q = p.only l other at_l in
                    let out =
                      one_output x e checks txs other (x.compute_txid tx) i tx n o inj unique short
                        q at at_n refl same in
                    ap (λ (z : Entry). z.1) q.is_entry ∙ ap e.encode_txout out))
                found,
        λ key absent.
            puts key
            ∙ get-collect_absent (λ (q : Entry). q.0) (λ (q : Entry). q.1) p.batch (db.entries d)
                key
                (λ j entry at same.
                  let q = p.only j entry at in
                  absent q.place q.tx q.number q.out q.at_place q.at_number
                    (sym (ap (λ (z : Entry). z.0) q.is_entry) ∙ same)),
      )
