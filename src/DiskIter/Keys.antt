-- ===== src/DiskIter/Keys.antt =====
-- The keys of a block, one for each input that spends an output.
use rusty_bitcoin_explorer.Common.{
  ℕ, zero, suc, ◌+◌, ◌≡◌, refl, sym, ap, ◌∙◌, inl, inr, some, List, [], ◌∷◌, ◌++◌, get_elem?, arith,
  Bool-cases, if◌then◌else◌, All, All-append_left, All-append_right,
}
use rusty_bitcoin_explorer.External.{External, Transaction, TxIn}
use rusty_bitcoin_explorer.Connected.{all_inputs}
use rusty_bitcoin_explorer.Utxo.Inputs.{NotNull}
use rusty_bitcoin_explorer.DiskUtxo.{Bytes, Codec, txout_key, input_keys, block_keys}

module _ (x : External) (e : Codec) where
  abbrev pub key_of : TxIn → Bytes
  key_of input = txout_key x e input.previous_output.txid input.previous_output.vout

  input_keys-append :
      (is js : List TxIn) → input_keys x e (is ++ js) ≡ input_keys x e is ++ input_keys x e js
  unfolding input_keys
  input_keys-append [] js = refl
  input_keys-append (i ∷ is) js =
      let rest = input_keys-append is js in
      elim (Bool-cases (x.is_null i.previous_output)) [
        | inl null ↦ rw null rest
        | inr spent ↦ rw spent (ap (◌∷◌ (key_of i)) rest)
      ]

  pub block_keys-all_inputs :
      (txs : List Transaction) → block_keys x e txs ≡ input_keys x e (all_inputs txs)
  unfolding block_keys all_inputs input_keys
  block_keys-all_inputs [] = refl
  block_keys-all_inputs (tx ∷ txs) =
      ap (◌++◌ (input_keys x e tx.input)) (block_keys-all_inputs txs)
      ∙ sym (input_keys-append tx.input (all_inputs txs))

  -- The inputs before place `n` that spend an output.
  abbrev pub rank : List TxIn → ℕ → ℕ
  rank [] n = 0
  rank (i ∷ is) zero = 0
  rank (i ∷ is) (suc n) = (if x.is_null i.previous_output then 0 else 1) + rank is n

  pub record KeyAt (is : List TxIn) (m : ℕ) (key : Bytes) : Type 0 where
    pub place : ℕ
    pub input : TxIn
    pub at : get_elem? is place ≡ some input
    pub spent : NotNull x input
    pub is_key : key_of input ≡ key
    pub counts : rank is place ≡ m

  pub input_keys-KeyAt :
      (is : List TxIn) (m : ℕ) (key : Bytes)
      → get_elem? (input_keys x e is) m ≡ some key
      → KeyAt is m key
  unfolding input_keys
  input_keys-KeyAt [] m key at = cc at
  input_keys-KeyAt (i ∷ is) m key at = elim (Bool-cases (x.is_null i.previous_output)) [
    | inl null ↦
        let k = input_keys-KeyAt is m key (rw null at at) in
        record {
          place = suc k.place;
          input = k.input;
          at = k.at;
          spent = k.spent;
          is_key = k.is_key;
          counts = rw null (omega (arith, k.counts));
        }
    | inr spent ↦ by_place m (rw spent at at) spent (λ n at'. input_keys-KeyAt is n key at')
  ]
    where
      by_place :
          (m : ℕ)
          → get_elem? (key_of i ∷ input_keys x e is) m ≡ some key
          → NotNull x i
          → ((n : ℕ) → get_elem? (input_keys x e is) n ≡ some key → KeyAt is n key)
          → KeyAt (i ∷ is) m key
      by_place zero at' spent later = record {
        place = 0;
        input = i;
        at = refl;
        spent = spent;
        is_key = cc at';
        counts = refl;
      }
      by_place (suc m) at' spent later =
          let k = later m at' in
          record {
            place = suc k.place;
            input = k.input;
            at = k.at;
            spent = k.spent;
            is_key = k.is_key;
            counts = rw spent (omega (arith, k.counts));
          }

  -- What holds of all inputs of a block holds of those of each transaction.
  pub All-all_inputs :
      (P : TxIn → Type 0) (txs : List Transaction)
      → All P (all_inputs txs)
      → All (λ (tx : Transaction). All P tx.input) txs
  unfolding all_inputs
  All-all_inputs P [] h = tt
  All-all_inputs P (tx ∷ txs) h = (
    All-append_left P tx.input (all_inputs txs) h,
    All-all_inputs P txs (All-append_right P tx.input (all_inputs txs) h),
  )
