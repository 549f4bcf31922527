-- ===== src/SharedUtxo/Effect.antt =====
-- The shared cache as a set of unspent outputs, and what each step does to the set.
use rusty_bitcoin_explorer.Common.{
  ℕ, ◌≡◌, ◌<◌, inl, inr, refl, sym, ap, ◌∙◌, true, false, Option, none, some, ◌==◌, ◌&&◌, arith,
  Bool-cases, Option-cases, if◌then◌else◌,
}
use mathlib.Core.Path.{fun_ext}
use rusty_bitcoin_explorer.Common.Map
use rusty_bitcoin_explorer.Common.Map.{nat_key, get-insert, get-remove}
use rusty_bitcoin_explorer.External.{Hash}
use rusty_bitcoin_explorer.Utxo.{VecMap}
use rusty_bitcoin_explorer.Utxo.Slots.{slot}
use rusty_bitcoin_explorer.Utxo.Contents.{without}
use rusty_bitcoin_explorer.SharedUtxo.{
  Shared, Event, quiet, spent, added, add_entry, drop_entry, write_arc,
}
use rusty_bitcoin_explorer.SharedUtxo.Frame.{IsGone, IsLinked}

module _ {T : Type 0} where
  abbrev pub through : Shared T → Option ℕ → ℕ → Option T
  through sh none n = none
  through sh (some a) n = slot (sh.arcs a).inner n

  -- Output `n` of the transaction, if the shared cache has it.
  abbrev pub unspent_of : Shared T → Hash → ℕ → Option T
  unspent_of sh txid n = through sh (Map.get sh.unspent txid) n

  -- The outputs with those of an entry.
  abbrev pub with_entry : (Hash → ℕ → Option T) → Hash → VecMap T → Hash → ℕ → Option T
  with_entry u txid v j m = if txid == j then slot v.inner m else u j m

  -- What an event does to the set of unspent outputs, at once.
  abbrev pub HasEffect : (Hash → ℕ → Option T) → Event T → (Hash → ℕ → Option T) → Type 0
  HasEffect u quiet u' = u' ≡ u
  HasEffect u (spent txid n out) u' = (out ≡ u txid n) × (u' ≡ without u txid n)
  HasEffect u (added txid v) u' = u' ≡ with_entry u txid v

  pub gone-without :
      (u : Hash → ℕ → Option T) (txid : Hash) (n : ℕ) → u txid n ≡ none → u ≡ without u txid n
  gone-without u txid n h = fun_ext (λ j. fun_ext (λ m. elim (Bool-cases (txid == j && n == m)) [
    | inl same ↦
        let one : txid ≡ j = ground arith in
        let two : n ≡ m = ground arith in
        rw same (ap (λ i. u i m) (sym one) ∙ ap (u txid) (sym two) ∙ h)
    | inr differs ↦ rw differs
  ]))

  pub linked-unspent_of :
      (sh : Shared T) (txid : Hash) (a n : ℕ)
      → IsLinked sh txid a
      → slot (sh.arcs a).inner n ≡ unspent_of sh txid n
  linked-unspent_of sh txid a n l = elim l.entry [
    | inl there ↦ rw there
    | inr (missing, g) ↦ rw missing (g n)
  ]

  -- An output is taken through the `Arc` of its transaction.
  pub write_arc-unspent_of :
      (sh : Shared T) (txid : Hash) (a n : ℕ) (v : VecMap T)
      → IsLinked sh txid a
      → ((j : Hash) (b : ℕ) → Map.get sh.unspent j ≡ some b → (b < sh.next_arc) × (sh.owner b ≡ j))
      → ((j : ℕ) → slot v.inner j ≡ (if n == j then none else slot (sh.arcs a).inner j))
      → (j : Hash) (m : ℕ) → unspent_of (write_arc sh a v) j m ≡ without (unspent_of sh) txid n j m
  unfolding write_arc
  write_arc-unspent_of sh txid a n v l owned slots j m =
      elim (Option-cases (Map.get sh.unspent j)) [
        | inl missing ↦ rw missing (ground arith)
        | inr (b, there) ↦ elim (Bool-cases (a == b)) [
          | inl same ↦
              let eq : a ≡ b = ground arith in
              let id : txid ≡ j = sym l.owned ∙ ap sh.owner eq ∙ (owned j b there).1 in
              let test : (txid == j) ≡ true = ground arith in
              rw (there, same, test) (slots m ∙ rw eq refl)
          | inr differs ↦
              let test : (txid == j) ≡ false = elim (Bool-cases (txid == j)) [
                | inr apart ↦ apart
                | inl same ↦
                    let id : txid ≡ j = ground arith in
                    elim l.entry [
                      | inl here ↦ let one : a ≡ b = cc (id, here, there) in absurd (ground arith)
                      | inr (missing, g) ↦ absurd (cc (id, missing, there))
                    ]
              ] in
              rw (there, differs, test)
        ]
      ]

  pub drop_entry-unspent_of :
      (sh : Shared T) (txid : Hash) (a : ℕ)
      → IsLinked sh txid a
      → IsGone sh a
      → (j : Hash) (m : ℕ) → unspent_of (drop_entry sh txid) j m ≡ unspent_of sh j m
  unfolding drop_entry
  drop_entry-unspent_of sh txid a l g j m = elim (Bool-cases (txid == j)) [
    | inr differs ↦ rw (get-remove, differs)
    | inl same ↦
        let id : txid ≡ j = ground arith in
        let none_left : unspent_of sh txid m ≡ none = sym (linked-unspent_of sh txid a m l) ∙ g m in
        rw (get-remove, same) (sym none_left ∙ ap (λ i. unspent_of sh i m) id)
  ]

  pub add_entry-unspent_of :
      (sh : Shared T) (txid : Hash) (v : VecMap T)
      → ((j : Hash) (b : ℕ) → Map.get sh.unspent j ≡ some b → (b < sh.next_arc) × (sh.owner b ≡ j))
      → (j : Hash) (m : ℕ)
      → unspent_of (add_entry sh txid v) j m ≡ with_entry (unspent_of sh) txid v j m
  unfolding add_entry
  add_entry-unspent_of sh txid v owned j m = elim (Bool-cases (txid == j)) [
    | inl same ↦
        let self : (sh.next_arc == sh.next_arc) ≡ true = ground arith in rw (get-insert, same, self)
    | inr differs ↦ elim (Option-cases (Map.get sh.unspent j)) [
      | inl missing ↦ rw (get-insert, differs, missing)
      | inr (b, there) ↦
          let below = (owned j b there).0 in
          let test : (sh.next_arc == b) ≡ false = ground arith in
          rw (get-insert, differs, there, test)
    ]
  ]
