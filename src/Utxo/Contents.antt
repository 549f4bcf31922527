-- ===== src/Utxo/Contents.antt =====
-- The cache as a set of unspent outputs: an output is found under its transaction and its number.
use rusty_bitcoin_explorer.Common.{
  ℕ, ◌≡◌, inl, inr, refl, sym, ◌∙◌, Bool, true, false, Option, none, some, ◌==◌, ◌&&◌, arith,
  Option-cases, Bool-cases, if◌then◌else◌,
}
use rusty_bitcoin_explorer.Common.Map
use rusty_bitcoin_explorer.Common.Map.{nat_key, get-insert, get-remove}
use rusty_bitcoin_explorer.Error.{ok}
use rusty_bitcoin_explorer.External.{Hash}
use rusty_bitcoin_explorer.Utxo.{VecMap, Cache, is_empty, spend}
use rusty_bitcoin_explorer.Utxo.Slots.{IsCounted, slot, is_empty-slot, remove_lem}

module _ {T : Type 0} where
  abbrev pub output_of : Option (VecMap T) → ℕ → Option T
  output_of none n = none
  output_of (some v) n = slot v.inner n

  -- Output `n` of the transaction, if the cache has it.
  abbrev pub contents : Cache T → Hash → ℕ → Option T
  contents c txid n = output_of (Map.get c txid) n

  -- Every entry counts its outputs.
  abbrev pub AllCounted : Cache T → Type 0
  AllCounted c = (txid : Hash) (v : VecMap T) → Map.get c txid ≡ some v → IsCounted v

  -- The contents less one output.
  abbrev pub without : (Hash → ℕ → Option T) → Hash → ℕ → Hash → ℕ → Option T
  without u txid n j m = if txid == j && n == m then none else u j m

  AllCounted-remove : (c : Cache T) (txid : Hash) → AllCounted c → AllCounted (Map.remove c txid)
  AllCounted-remove c txid h j v e = elim (Bool-cases (txid == j)) [
    | inl same ↦ cc (rw (get-remove, same) at e)
    | inr differs ↦ h j v (rw (get-remove, differs) at e)
  ]

  AllCounted-insert :
      (c : Cache T) (txid : Hash) (v : VecMap T)
      → AllCounted c
      → IsCounted v
      → AllCounted (Map.insert c txid v)
  AllCounted-insert c txid v h hv j w e = elim (Bool-cases (txid == j)) [
    | inl same ↦
        let is : some v ≡ some w = rw (get-insert, same) at e in
        let eq : v ≡ w = cc is in rw (← eq) hv
    | inr differs ↦ h j w (rw (get-insert, differs) at e)
  ]

  -- The entry of one transaction decides: the others are as before.
  contents-without :
      (c c' : Cache T) (txid : Hash) (n : ℕ)
      → ((j : Hash) → (txid == j) ≡ false → Map.get c' j ≡ Map.get c j)
      → ((m : ℕ)
          → output_of (Map.get c' txid) m ≡ (if n == m then none else output_of (Map.get c txid) m))
      → (j : Hash) (m : ℕ) → contents c' j m ≡ without (contents c) txid n j m
  contents-without c c' txid n others here j m = elim (Bool-cases (txid == j)) [
    | inl same ↦ let e : txid ≡ j = ground arith in rw same (rw (← e) (here m))
    | inr differs ↦ rw (differs, others j differs)
  ]

  -- Where every entry counts its outputs, to spend an output returns it, or nothing where the cache
  -- does not have it, without a panic. It takes just that output out of the cache, though an entry
  -- that becomes empty is dropped whole, and every entry still counts its outputs.
  pub spend_lem :
      (checks : Bool) (c : Cache T) (txid : Hash) (n : ℕ)
      → AllCounted c
      → (c' : Cache T) × (spend checks c txid n ≡ ok (contents c txid n, c'))
        × AllCounted c'
        × ((j : Hash) (m : ℕ) → contents c' j m ≡ without (contents c) txid n j m)
  unfolding spend
  spend_lem checks c txid n h = elim (Option-cases (Map.get c txid)) [
    | inl missing ↦ (
      c,
      rw (missing, spend),
      h,
      contents-without c c txid n (λ j differs. refl) (λ m. rw missing (ground arith)),
    )
    | inr (v, found) ↦
        let (v', removed, counted, slots) = remove_lem checks v n (h txid v found) in
        let self : (txid == txid) ≡ true = ground arith in
        elim (Bool-cases (is_empty v')) [
          | inl empty ↦ (
            Map.remove c txid,
            rw (found, spend, removed, empty),
            AllCounted-remove c txid h,
            contents-without c (Map.remove c txid) txid n (λ j differs. rw (get-remove, differs))
                (λ m.
                  rw (get-remove, self, found) (sym (is_empty-slot v' m counted empty) ∙ slots m)),
          )
          | inr taken ↦ (
            Map.insert c txid v',
            rw (found, spend, removed, taken),
            AllCounted-insert c txid v' h counted,
            contents-without c (Map.insert c txid v') txid n (λ j differs. rw (get-insert, differs))
                (λ m. rw (get-insert, self, found) (slots m)),
          )
        ]
  ]
