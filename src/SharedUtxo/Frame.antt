-- ===== src/SharedUtxo/Frame.antt =====
-- What the steps of one thread keep for the others.
use rusty_bitcoin_explorer.Common.{
  ℕ, ◌≡◌, ◌<◌, ◌⊎◌, inl, inr, sym, ◌∙◌, false, none, some, ◌==◌, arith, Bool-cases, if◌then◌else◌,
}
use rusty_bitcoin_explorer.Common.Map
use rusty_bitcoin_explorer.Common.Map.{nat_key, get-insert, get-remove}
use rusty_bitcoin_explorer.External.{Hash}
use rusty_bitcoin_explorer.Utxo.{VecMap}
use rusty_bitcoin_explorer.Utxo.Slots.{IsCounted, slot}
use rusty_bitcoin_explorer.SharedUtxo.{
  Shared, Phase, idle, holding, dropping, System, put, add_entry, drop_entry, write_arc, IsFresh,
}

module _ {T : Type 0} where
  abbrev pub IsGone : Shared T → ℕ → Type 0
  IsGone sh a = (n : ℕ) → slot (sh.arcs a).inner n ≡ none

  -- The entry of the transaction is this `Arc`, or it was removed after the `Arc` was emptied.
  pub record IsLinked (sh : Shared T) (txid : Hash) (a : ℕ) : Type 0 where
    pub made : a < sh.next_arc
    pub owned : sh.owner a ≡ txid
    pub entry :
        (Map.get sh.unspent txid ≡ some a) ⊎ ((Map.get sh.unspent txid ≡ none) × IsGone sh a)

  abbrev pub IsSafe : Shared T → Phase → Type 0
  IsSafe sh idle = Unit
  IsSafe sh (holding txid n a) = IsLinked sh txid a
  IsSafe sh (dropping txid a) = IsLinked sh txid a × IsGone sh a

  -- The invariant.
  pub record IsConsistent (s : System T) : Type 0 where
    pub counted : (a : ℕ) → IsCounted (s.shared.arcs a)
    pub owned :
        (txid : Hash) (a : ℕ)
        → Map.get s.shared.unspent txid ≡ some a
        → (a < s.shared.next_arc) × (s.shared.owner a ≡ txid)
    pub safe : (i : ℕ) → IsSafe s.shared (s.threads i)

  -- Whatever keeps the links and what is gone keeps the threads safe.
  pub IsSafe-of :
      (sh sh' : Shared T)
      → ((txid : Hash) (a : ℕ) → IsLinked sh txid a → IsLinked sh' txid a)
      → ((txid : Hash) (a : ℕ) → IsLinked sh txid a → IsGone sh a → IsGone sh' a)
      → (p : Phase) → IsSafe sh p
      → IsSafe sh' p
  IsSafe-of sh sh' links gone idle h = tt
  IsSafe-of sh sh' links gone (holding txid n a) h = links txid a h
  IsSafe-of sh sh' links gone (dropping txid a) (h, g) = (links txid a h, gone txid a h g)

  pub put-IsSafe :
      (sh : Shared T) (threads : ℕ → Phase) (i : ℕ) (p : Phase)
      → IsSafe sh p
      → ((j : ℕ) → IsSafe sh (threads j))
      → (j : ℕ) → IsSafe sh (put i p threads j)
  put-IsSafe sh threads i p here others j = elim (Bool-cases (i == j)) [
    | inl same ↦ rw same here
    | inr differs ↦ rw differs (others j)
  ]

  -- A removal from a map.
  module _ (sh : Shared T) (a : ℕ) (v : VecMap T) (n : ℕ)
      (slots : (j : ℕ) → slot v.inner j ≡ (if n == j then none else slot (sh.arcs a).inner j)) where
    pub write_arc-IsGone : (b : ℕ) → IsGone sh b → IsGone (write_arc sh a v) b
    unfolding write_arc
    write_arc-IsGone b g m = elim (Bool-cases (a == b)) [
      | inl same ↦
          let eq : a ≡ b = ground arith in
          let before : slot (sh.arcs a).inner m ≡ none = rw eq (g m) in
          rw same (slots m ∙ ground arith)
      | inr differs ↦ rw differs (g m)
    ]

    pub write_arc-IsLinked :
        (txid : Hash) (b : ℕ) → IsLinked sh txid b → IsLinked (write_arc sh a v) txid b
    unfolding write_arc
    write_arc-IsLinked txid b l = record {
      made = l.made;
      owned = l.owned;
      entry = elim l.entry [
        | inl there ↦ inl there
        | inr (missing, g) ↦ inr (missing, write_arc-IsGone b g)
      ];
    }

  -- The removal of an entry whose `Arc` is empty.
  pub drop_entry-IsLinked :
      (sh : Shared T) (txid : Hash) (a : ℕ)
      → IsLinked sh txid a
      → IsGone sh a
      → (txid' : Hash) (b : ℕ) → IsLinked sh txid' b
      → IsLinked (drop_entry sh txid) txid' b
  unfolding drop_entry
  drop_entry-IsLinked sh txid a l g txid' b m = record {
    made = m.made;
    owned = m.owned;
    entry = elim (Bool-cases (txid == txid')) [
      | inl same ↦
          let eq : txid ≡ txid' = ground arith in
          let gone : IsGone sh b = elim m.entry [
            | inr (missing, h) ↦ h
            | inl there ↦ elim l.entry [
              | inr (missing, h) ↦ absurd (cc (eq, missing, there))
              | inl here ↦ let one : a ≡ b = cc (eq, here, there) in rw (← one) g
            ]
          ] in
          inr (rw (get-remove, same), gone)
      | inr differs ↦ elim m.entry [
        | inl there ↦ inl (rw (get-remove, differs) there)
        | inr (missing, h) ↦ inr (rw (get-remove, differs) missing, h)
      ]
    ];
  }

  -- A new entry.
  module _ (sh : Shared T) (txid : Hash) (v : VecMap T) (fresh : IsFresh sh txid) where
    add_entry-IsGone : (b : ℕ) → b < sh.next_arc → IsGone sh b → IsGone (add_entry sh txid v) b
    unfolding add_entry
    add_entry-IsGone b below g m =
        let differs : (sh.next_arc == b) ≡ false = ground arith in rw differs (g m)

    pub add_entry-IsLinked :
        (txid' : Hash) (b : ℕ) → IsLinked sh txid' b → IsLinked (add_entry sh txid v) txid' b
    unfolding add_entry
    add_entry-IsLinked txid' b l =
        let made = l.made in
        let differs : (sh.next_arc == b) ≡ false = ground arith in
        let other : (txid == txid') ≡ false = elim (Bool-cases (txid == txid')) [
          | inr apart ↦ apart
          | inl same ↦
              let eq : txid ≡ txid' = ground arith in absurd (fresh b l.made (l.owned ∙ sym eq))
        ] in
        record {
          made = omega arith;
          owned = rw differs l.owned;
          entry = elim l.entry [
            | inl there ↦ inl (rw (get-insert, other) there)
            | inr (missing, g) ↦ inr (rw (get-insert, other) missing, add_entry-IsGone b l.made g)
          ];
        }

    pub add_entry_gone :
        (txid' : Hash) (b : ℕ) → IsLinked sh txid' b → IsGone sh b → IsGone (add_entry sh txid v) b
    add_entry_gone txid' b l g = add_entry-IsGone b l.made g
