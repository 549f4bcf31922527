-- ===== src/BlockIndex/Chain.antt =====
-- What `load_block_index` returns: the chain from the genesis block to the highest valid record.
use rusty_bitcoin_explorer.Common.{
  ℕ, zero, suc, ◌≡◌, refl, sym, ap, ◌∙◌, inl, inr, some, List, [], ◌∷◌, ◌++◌, append-nil,
  append_assoc, reverse, length, get_elem?, get_elem?-lt, get_elem?-snoc, reverse-cons,
  length-reverse, arith, Bool-cases, Option-cases,
}
use rusty_bitcoin_explorer.Common.Words.{pos, eq_ℤ, eq_ℤ_iff}
use rusty_bitcoin_explorer.Common.Map
use rusty_bitcoin_explorer.Common.Map.{Map, nat_key, get-insert, get-remove}
use rusty_bitcoin_explorer.Error.{ok}
use rusty_bitcoin_explorer.External.{External, Hash}
use rusty_bitcoin_explorer.BlockIndex.{BlockIndexRecord, Records, build_chain, hash_of}

module _ (x : External) (P : BlockIndexRecord → Type 0) where
  -- A chain of `n` records from the block `hash` down to height 0.
  abbrev pub Descends : ℕ → Hash → List BlockIndexRecord → Type 0
  Descends zero hash [] = Unit
  Descends zero hash (b ∷ bs) = ⊥
  Descends (suc n) hash [] = ⊥
  Descends (suc n) hash (b ∷ bs) =
      (hash_of x b ≡ hash)
      × (b.n_height ≡ pos n)
      × P b
      × Descends n b.block_header.prev_blockhash bs

  -- Each record stands under the hash of its header, and has the property.
  abbrev pub IsIndexed : Records → Type 0
  IsIndexed m = (k : Hash) (b : BlockIndexRecord) → Map.get m k ≡ some b → (hash_of x b ≡ k) × P b

  IsIndexed-remove : (m : Records) (k : Hash) → IsIndexed m → IsIndexed (Map.remove m k)
  IsIndexed-remove m k h j b e = ground (arith, get-remove m k j, h j b)

  pub build_chain-Descends :
      (n : ℕ) (hash : Hash) (m : Records) (acc out : List BlockIndexRecord)
      → IsIndexed m
      → build_chain n hash m acc ≡ ok out
      → (chain : List BlockIndexRecord) × (out ≡ acc ++ chain) × Descends n hash chain
  unfolding build_chain
  build_chain-Descends zero hash m acc out h e = ([], cc (append-nil acc), tt)
  build_chain-Descends (suc n) hash m acc out h e = elim (Option-cases (Map.get m hash)) [
    | inl missing ↦ cc (rw (missing, build_chain) at e)
    | inr (b, found) ↦ elim (Bool-cases (eq_ℤ (pos n) b.n_height)) [
      | inr differs ↦ cc (rw (found, differs, build_chain) at e)
      | inl same ↦
          let (chain, split, rest) =
            build_chain-Descends n b.block_header.prev_blockhash (Map.remove m hash) (acc ++ b ∷ [])
              out (IsIndexed-remove m hash h) (rw (found, same, build_chain) at e) in
          let (hashed, holds) = h hash b found in
          (
            b ∷ chain,
            split ∙ append_assoc acc (b ∷ []) chain,
            (hashed, sym ((eq_ℤ_iff (pos n) b.n_height).0 same), holds, rest),
          )
    ]
  ]

  pub length-Descends :
      (n : ℕ) (hash : Hash) (chain : List BlockIndexRecord)
      → Descends n hash chain
      → length chain ≡ n
  length-Descends zero hash [] d = refl
  length-Descends zero hash (b ∷ bs) d = absurd d
  length-Descends (suc n) hash [] d = absurd d
  length-Descends (suc n) hash (b ∷ bs) d = ap suc (length-Descends n _ bs d.3)

  -- Read from the other end, the record at each place has that height.
  pub height-Descends :
      (n : ℕ) (hash : Hash) (chain : List BlockIndexRecord) (i : ℕ) (b : BlockIndexRecord)
      → Descends n hash chain
      → get_elem? (reverse chain) i ≡ some b
      → (b.n_height ≡ pos i) × P b
  height-Descends zero hash [] i b d e = cc e
  height-Descends zero hash (c ∷ cs) i b d e = absurd d
  height-Descends (suc n) hash [] i b d e = absurd d
  height-Descends (suc n) hash (c ∷ cs) i b d e =
      elim (get_elem?-snoc (reverse cs) c i (rw reverse-cons at e)) [
        | inl below ↦ height-Descends n c.block_header.prev_blockhash cs i b d.3 below
        | inr (top, same) ↦
            let at : i ≡ n = top ∙ length-reverse cs ∙ length-Descends n _ cs d.3 in
            rw (same, at) (d.1, d.2)
      ]

  -- The record on top is the block that the chain was asked for.
  pub top-Descends :
      (n : ℕ) (hash : Hash) (chain : List BlockIndexRecord) (b : BlockIndexRecord)
      → Descends (suc n) hash chain
      → get_elem? (reverse chain) n ≡ some b
      → hash_of x b ≡ hash
  top-Descends n hash [] b d e = absurd d
  top-Descends n hash (c ∷ cs) b d e =
      elim (get_elem?-snoc (reverse cs) c n (rw reverse-cons at e)) [
        | inl below ↦ absurd (
            omega (
              arith,
              get_elem?-lt (reverse cs) n below,
              length-reverse {0} cs,
              length-Descends n _ cs d.3,
            ))
        | inr (top, same) ↦ rw same d.0
      ]

  last-Descends :
      (n : ℕ) (hash : Hash) (chain : List BlockIndexRecord) (i : ℕ) (b : BlockIndexRecord)
      → Descends n hash chain
      → suc i ≡ length (reverse chain)
      → get_elem? (reverse chain) i ≡ some b
      → hash_of x b ≡ hash
  last-Descends zero hash chain i b d top e =
      absurd (omega (arith, length-reverse {0} chain, length-Descends zero hash chain d))
  last-Descends (suc n) hash chain i b d top e =
      let at : i ≡ n =
        omega (arith, length-reverse {0} chain, length-Descends (suc n) hash chain d) in
      top-Descends n hash chain b d (rw at at e)

  -- Each record's `prev_blockhash` is the hash of the record below it.
  pub link-Descends :
      (n : ℕ) (hash : Hash) (chain : List BlockIndexRecord) (i : ℕ) (a b : BlockIndexRecord)
      → Descends n hash chain
      → get_elem? (reverse chain) i ≡ some a
      → get_elem? (reverse chain) (suc i) ≡ some b
      → b.block_header.prev_blockhash ≡ hash_of x a
  link-Descends zero hash [] i a b d ea eb = cc ea
  link-Descends zero hash (c ∷ cs) i a b d ea eb = absurd d
  link-Descends (suc n) hash [] i a b d ea eb = absurd d
  link-Descends (suc n) hash (c ∷ cs) i a b d ea eb =
      elim (get_elem?-snoc (reverse cs) c (suc i) (rw reverse-cons at eb)) [
        | inl eb' ↦ elim (get_elem?-snoc (reverse cs) c i (rw reverse-cons at ea)) [
          | inl ea' ↦ link-Descends n _ cs i a b d.3 ea' eb'
          | inr (top, same) ↦ absurd (omega (arith, get_elem?-lt (reverse cs) (suc i) eb'))
        ]
        | inr (top, same) ↦ elim (get_elem?-snoc (reverse cs) c i (rw reverse-cons at ea)) [
          | inl ea' ↦ rw same (sym (last-Descends n _ cs i a d.3 top ea'))
          | inr (top', same') ↦ absurd (omega arith)
        ]
      ]
