-- ===== src/Block/Convert.antt =====
-- The conversions: they do not fail, and the compact format is a projection of the full one.
use rusty_bitcoin_explorer.Common.{
  ◌≡◌, refl, ap, ◌∙◌, Bool, true, false, List, [], ◌∷◌, map, if◌then◌else◌,
}
use rusty_bitcoin_explorer.Error.{Outcome, ok, >>=-eq-ok}
use rusty_bitcoin_explorer.External.{External, Block, Transaction, TxOut, bitcoin}
use rusty_bitcoin_explorer.Script.{evaluate_script}
use rusty_bitcoin_explorer.Block.{
  CompactBlockHeader, CompactTxOut, CompactTransaction, CompactBlock, FullBlockHeader, FullTxOut,
  FullTransaction, FullBlock, map_all, compact_header, full_header, compact_tx_in, compact_tx_out,
  full_tx_out, compact_transaction, full_transaction, compact_block, full_block,
}

module _ {A B C : Type 0} where
  -- Where `g` follows `f`, so does the whole list.
  pub map_all-follows :
      (f : A → Outcome B) (g : A → Outcome C) (h : B → C)
      → ((a : A) (b : B) → f a ≡ ok b → g a ≡ ok (h b))
      → (as_ : List A) (bs : List B) → map_all f as_ ≡ ok bs
      → map_all g as_ ≡ ok (map h bs)
  unfolding map_all
  map_all-follows f g h follows [] bs e = let none_left : [] ≡ bs = cc e in rw (← none_left) refl
  map_all-follows f g h follows (a ∷ as_) bs e =
      let (b, first, e') = >>=-eq-ok (f a) _ e in
      let (rest, later, e'') = >>=-eq-ok (map_all f as_) (λ (l : List B). ok (b ∷ l)) e' in
      let all : b ∷ rest ≡ bs = cc e'' in
      rw (follows a b first, map_all-follows f g h follows as_ rest later)
        (ap (λ l. ok (map h l)) all)

abbrev pub compact_of_out : FullTxOut → CompactTxOut
compact_of_out o = record { value = o.value; addresses = o.addresses }

abbrev pub compact_of_tx : FullTransaction → CompactTransaction
compact_of_tx t = record {
  txid = t.txid;
  input = map compact_tx_in t.input;
  output = map compact_of_out t.output;
}

abbrev pub compact_of_header : FullBlockHeader → CompactBlockHeader
compact_of_header h = record { block_hash = h.block_hash; time = h.time }

abbrev pub compact_of_block : FullBlock → CompactBlock
compact_of_block b = record {
  header = compact_of_header b.header;
  txdata = map compact_of_tx b.txdata;
}

map-if_none :
    {A B : Type 0}
    → (g : A → B) (b : Bool) (as_ : List A)
    → (if b then [] else map g as_) ≡ map g (if b then [] else as_)
map-if_none g true as_ = refl
map-if_none g false as_ = refl

module _ (x : External) where
  compact_of_full_out :
      (o : TxOut) (f : FullTxOut)
      → full_tx_out x o ≡ ok f
      → compact_tx_out x o ≡ ok (compact_of_out f)
  unfolding full_tx_out compact_tx_out
  compact_of_full_out o f e =
      let (info, evaluated, made) = >>=-eq-ok (evaluate_script x o.script_pubkey bitcoin) _ e in
      let same : record {
        value = o.value;
        script_pubkey = o.script_pubkey;
        script_type = info.pattern;
        addresses = info.addresses;
      }
          ≡ f =
        cc made in
      rw evaluated (ap (λ (g : FullTxOut). ok (compact_of_out g)) same)

  compact_of_full_tx :
      (t : Transaction) (f : FullTransaction)
      → full_transaction x t ≡ ok f
      → compact_transaction x t ≡ ok (compact_of_tx f)
  unfolding full_transaction compact_transaction
  compact_of_full_tx t f e =
      let (outs, converted, made) = >>=-eq-ok (map_all (full_tx_out x) t.output) _ e in
      rw
        (map_all-follows (full_tx_out x) (compact_tx_out x) compact_of_out compact_of_full_out
          t.output outs converted)
        let inputs = map-if_none compact_tx_in (x.is_coinbase t) t.input in
          let same : record {
            version = t.version;
            lock_time = t.lock_time;
            input = if x.is_coinbase t then [] else t.input;
            txid = x.compute_txid t;
            output = outs;
          }
              ≡ f =
            cc made in
          ap
            (λ i.
              ok (record { txid = x.compute_txid t; input = i; output = map compact_of_out outs }))
            inputs
          ∙ ap (λ (g : FullTransaction). ok (compact_of_tx g)) same

  -- The compact format of a block is the full format less some fields: where the conversion to the
  -- full format returns, the conversion to the compact one returns its projection.
  pub compact_block-full_block :
      (b : Block) (f : FullBlock)
      → full_block x b ≡ ok f
      → compact_block x b ≡ ok (compact_of_block f)
  unfolding full_block compact_block full_header compact_header
  compact_block-full_block b f e =
      let (txs, converted, made) = >>=-eq-ok (map_all (full_transaction x) b.txdata) _ e in
      rw
        (map_all-follows (full_transaction x) (compact_transaction x) compact_of_tx
          compact_of_full_tx b.txdata txs converted)
        let same : record { header = full_header b.header (x.block_hash b.header); txdata = txs }
              ≡ f =
            cc made in
          ap (λ (g : FullBlock). ok (compact_of_block g)) same
