-- ===== src/Connected/Inputs.antt =====
-- What the inputs of one transaction are connected to.
use rusty_bitcoin_explorer.Common.{
  ℕ, ◌≡◌, ◌↔◌, ◌<◌, ◌≤◌, ◌+◌, ◌^◌, inl, inr, refl, sym, ap, ◌∙◌, Bool, true, false, Option, none,
  some, List, [], ◌∷◌, ◌++◌, map, length, drop, get_elem?, get_elem?-lt, get_elem?-none,
  empty_of_length, length-map, leb, ◌==◌, arith, Option-cases,
}
use rusty_bitcoin_explorer.Common.Words.{as_u32}
use rusty_bitcoin_explorer.Error.{Outcome, ok, >>=-eq-ok}
use rusty_bitcoin_explorer.External.{External, Transaction, TxIn, TxOut, decoded}
use rusty_bitcoin_explorer.Reader.{Read, ReadExact}
use rusty_bitcoin_explorer.Xor.{Seek}
use rusty_bitcoin_explorer.Xor.Laws.{xor_read}
use rusty_bitcoin_explorer.BlkFile.{FileSystem, BlkFile, header_size}
use rusty_bitcoin_explorer.BlkFile.Read.{Holds, read_transaction_lem}
use rusty_bitcoin_explorer.BlockIndex.{BlockIndex}
use rusty_bitcoin_explorer.TxIndex.{TxDb, TransactionPosition, tx_key}
use rusty_bitcoin_explorer.TxIndex.Lookup.{IsWritablePosition, write_position, get_tx_position_lem}
use rusty_bitcoin_explorer.Block.{map_all}
use rusty_bitcoin_explorer.Connected.{swap_remove, output_at, filter_all, all_found}
use rusty_bitcoin_explorer.Connected.Lists.{present, filter_all-present, length-map_all}
use rusty_bitcoin_explorer.Connected.Connect.{connect_input, connect_tx_inputs}

module _ {A B : Type 0} where
  present-filter_all :
      (f : A → Outcome (Option B)) (as_ : List A) (bs : List B)
      → filter_all f as_ ≡ ok bs
      → (os : List (Option B)) × (map_all f as_ ≡ ok os) × (bs ≡ present os)
  unfolding filter_all map_all
  present-filter_all f [] bs e = ([], refl, cc)
  present-filter_all f (a ∷ as_) bs e =
      let (o, first, e') = >>=-eq-ok (f a) _ e in
      let (rest, later, e'') = >>=-eq-ok (filter_all f as_) _ e' in
      let (os, runs, same) = present-filter_all f as_ rest later in
      (o ∷ os, rw (first, runs), cc (e'', same))

module _ {B : Type 0} where
  length-present : (os : List (Option B)) → length (present os) ≤ length os
  length-present [] = omega arith
  length-present (none ∷ os) = omega (arith, length-present os)
  length-present (some b ∷ os) = omega (arith, length-present os)

  -- Nothing is missing where the number of values is that of the places.
  present_full :
      (os : List (Option B)) → length (present os) ≡ length os → os ≡ map some (present os)
  present_full [] h = refl
  present_full (none ∷ os) h = absurd (omega (arith, length-present os))
  present_full (some b ∷ os) h = ap (◌∷◌ (some b)) (present_full os (omega arith))

  present-map-some : (bs : List B) → present (map some bs) ≡ bs
  present-map-some [] = refl
  present-map-some (b ∷ bs) = ap (◌∷◌ b) (present-map-some bs)

output_at_lem :
    (n : ℕ) (tx : Transaction)
    → length tx.output < 2 ^ 32
    → output_at n tx ≡ ok (get_elem? tx.output n)
unfolding swap_remove
output_at_lem n tx h = elim (Option-cases (get_elem? tx.output n)) [
  | inl beyond ↦
      let over = get_elem?-none tx.output n beyond in
      let test : leb (as_u32 (length tx.output)) n ≡ true = ground arith in rw (test, beyond)
  | inr (out, at) ↦
      let below = get_elem?-lt tx.output n at in
      let test : leb (as_u32 (length tx.output)) n ≡ false = ground arith in
      rw (test, at, swap_remove)
]

module _ {F : Type 0} (x : External) (checks : Bool) (fs : FileSystem F) (r : Read F) (k : Seek F)
    (exact : ReadExact (xor_read r)) where
  -- An input is connected to the output that it spends: where the index places the transaction in a
  -- block file that holds it there, the result is its output of the input's number, or nothing beyond
  -- the last.
  pub connect_input_lem :
      (t : TxDb) (i : BlockIndex) (b : BlkFile) (tx_in : TxIn) (p : TransactionPosition)
      (tx : Transaction) (plain raw rest : List ℕ)
      → x.is_null tx_in.previous_output ≡ false
      → (p.txid == t.genesis_txid) ≡ false
      → tx_in.previous_output.txid ≡ p.txid
      → IsWritablePosition p
      → t.db (tx_key x checks p.txid) ≡ ok (some (write_position p))
      → Holds fs r k b p.n_file plain
      → drop (p.n_data_pos + p.n_tx_offset + header_size) plain ≡ raw ++ rest
      → x.decode_transaction (raw ++ rest) ≡ decoded tx (length raw)
      → length tx.output < 2 ^ 32
      → connect_input x checks fs r k exact t i b tx_in
        ≡ ok (get_elem? tx.output tx_in.previous_output.vout)
  unfolding connect_input
  connect_input_lem t i b tx_in p tx plain raw rest regular other spends w stored h at hd short =
      rw
        (
          regular,
          spends,
          other,
          get_tx_position_lem x checks t p w stored,
          read_transaction_lem x checks fs r k exact b p.n_file plain p.n_data_pos p.n_tx_offset raw
              rest tx h at hd,
        )
        (output_at_lem tx_in.previous_output.vout tx short)

  all_found-eq-ok :
      (expected : ℕ) (outs found : List TxOut)
      → all_found expected outs ≡ ok found
      → (length outs ≡ expected) × (outs ≡ found)
  all_found-eq-ok expected outs found h = ground arith

  all_found_lem :
      (expected : ℕ) (outs : List TxOut)
      → length outs ≡ expected
      → all_found expected outs ≡ ok outs
  all_found_lem expected outs h = ground arith

  -- The inputs of a transaction that is no coinbase are connected to `outs` exactly when each input
  -- has an output and these are `outs`, in order. Those of a coinbase are connected exactly when none
  -- has an output, and to nothing.
  pub connect_tx_inputs_iff :
      (is : List TxIn) (t : TxDb) (i : BlockIndex) (b : BlkFile) (outs : List TxOut)
      → ((connect_tx_inputs x checks fs r k exact is false t i b ≡ ok outs)
          ↔ (map_all (connect_input x checks fs r k exact t i b) is ≡ ok (map some outs)))
        × ((connect_tx_inputs x checks fs r k exact is true t i b ≡ ok outs) ↔ (
            (os : List (Option TxOut)) × (map_all (connect_input x checks fs r k exact t i b) is
              ≡ ok os)
            × (present os ≡ [])
            × (outs ≡ [])))
  unfolding connect_tx_inputs
  connect_tx_inputs_iff is t i b outs =
      let f = connect_input x checks fs r k exact t i b in
      (
        (
          λ e.
              let (found, ran, checked) = >>=-eq-ok (filter_all f is) _ e in
              let (os, runs, same) = present-filter_all f is found ran in
              let (count, are) = all_found-eq-ok _ found outs checked in
              let full =
                present_full os
                  (omega (arith, ap length same, count, length-map_all f is os runs)) in
              rw runs (ap ok (full ∙ ap (map some) (sym same ∙ are))),
          λ runs.
              rw (filter_all-present f is (map some outs) runs, present-map-some outs)
                (all_found_lem (length is) outs
                  (sym (length-map outs some) ∙ length-map_all f is (map some outs) runs)),
        ),
        (
          λ e.
              let (found, ran, checked) = >>=-eq-ok (filter_all f is) _ e in
              let (os, runs, same) = present-filter_all f is found ran in
              let (count, are) = all_found-eq-ok 0 found outs checked in
              let nothing = empty_of_length found count in
              (os, runs, sym same ∙ nothing, sym are ∙ nothing),
          λ (os, runs, none_there, nothing).
              rw (filter_all-present f is os runs, none_there, nothing),
        ),
      )
