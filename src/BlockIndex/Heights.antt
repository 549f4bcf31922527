-- ===== src/BlockIndex/Heights.antt =====
-- `BlockIndex::new`: the reverse index from hashes to heights.
use rusty_bitcoin_explorer.Common.{
  ℕ, suc, ◌≡◌, refl, sym, ap, ◌∙◌, inl, inr, Bool, some, List, [], ◌∷◌, reverse, get_elem?,
}
use rusty_bitcoin_explorer.Common.Words.{ℤ, pos}
use rusty_bitcoin_explorer.Common.Map
use rusty_bitcoin_explorer.Common.Map.{nat_key, Agrees, get-collect, get-collect_cases}
use rusty_bitcoin_explorer.Error.{ok, >>=-eq-ok}
use rusty_bitcoin_explorer.External.{External, Hash}
use rusty_bitcoin_explorer.BlockIndex.{
  BlockIndexRecord, Records, hash_of, rounds, index_heights, BlockIndex, new, load_block_index,
  nothing_loaded,
}
use rusty_bitcoin_explorer.BlockIndex.Chain.{build_chain-Descends, height-Descends}
use rusty_bitcoin_explorer.BlockIndex.Load.{
  load_block_index-IsChain, longest_chain_cases, scan_records-IsIndexed, load_cases,
  nothing-IsIndexed,
}
use rusty_bitcoin_explorer.BlockIndex.Complete.{IsRecorded, IsIndexed-IsRecorded}

get_nil : (hash : Hash) (z : ℤ) → Map.get [] hash ≡ some z → ⊥
unfolding Map.get
get_nil hash z h = cc h

module _ (x : External) where
  -- Two recorded blocks of one hash are one record.
  Agrees-of_recorded :
      (m₀ : Records) (b : BlockIndexRecord) (rs : List BlockIndexRecord)
      → IsRecorded x m₀ b
      → ((i : ℕ) (c : BlockIndexRecord) → get_elem? rs i ≡ some c → IsRecorded x m₀ c)
      → Agrees (hash_of x) (λ c. c.n_height) (hash_of x b) b.n_height rs
  Agrees-of_recorded m₀ b [] rb all = tt
  Agrees-of_recorded m₀ b (c ∷ cs) rb all = (
    λ same.
        let one : c ≡ b = cc (rb, all 0 c refl, ap (Map.get m₀) same) in
        ap (λ (r : BlockIndexRecord). r.n_height) one,
    Agrees-of_recorded m₀ b cs rb (λ i. all (suc i)),
  )

module _ (x : External) (checks : Bool) where
  -- All that a load returns is recorded in one map.
  load-IsRecorded :
      (entries : List (List ℕ × List ℕ)) (rs : List BlockIndexRecord)
      → load_block_index x checks (ok entries) ≡ ok rs
      → (m₀ : Records) × ((i : ℕ) (c : BlockIndexRecord)
          → get_elem? rs i ≡ some c
          → IsRecorded x m₀ c)
  load-IsRecorded entries rs e =
      let (l, scanned, longest) = load_cases x checks entries rs e in
      let indexed =
        scan_records-IsIndexed x checks entries nothing_loaded l scanned
          (nothing-IsIndexed x checks) in
      let m₀ = l.block_index_by_block_hash in
      elim (longest_chain_cases x checks l rs longest) [
        | inl (_, nothing) ↦ (m₀, λ i c f. cc (rw nothing at f))
        | inr (hash, height, out, found, run, same) ↦
            let (chain, split, d) =
              build_chain-Descends x (IsRecorded x m₀) (rounds height) hash m₀ [] out
                (IsIndexed-IsRecorded x m₀ indexed) run in
            (
              m₀,
              λ i c f.
                  (height-Descends x (IsRecorded x m₀) (rounds height) hash chain i c d
                    (rw (same ∙ ap reverse split) at f)).1,
            )
      ]

  -- In a block index that was built, the hash of the record at place `i` is mapped to height `i`.
  pub hash_to_height-new :
      (entries : List (List ℕ × List ℕ)) (index : BlockIndex) (i : ℕ) (b : BlockIndexRecord)
      → new x checks (ok entries) ≡ ok index
      → get_elem? index.records i ≡ some b
      → Map.get index.hash_to_height (hash_of x b) ≡ some (pos i)
  unfolding new index_heights
  hash_to_height-new entries index i b e at =
      let (rs, loaded, made) =
        >>=-eq-ok (load_block_index x checks (ok entries))
          (λ rs. ok (record { records = rs; hash_to_height = index_heights x rs })) e in
      let (m₀, recorded) = load-IsRecorded entries rs loaded in
      let chain = load_block_index-IsChain x checks entries rs loaded in
      let same : record { records = rs; hash_to_height = index_heights x rs } ≡ index = cc made in
      let at' : get_elem? rs i ≡ some b =
        ap (λ (n : BlockIndex). get_elem? n.records i) same ∙ at in
      let agrees = Agrees-of_recorded x m₀ b rs (recorded i b at') recorded in
      ap (λ (n : BlockIndex). Map.get n.hash_to_height (hash_of x b)) (sym same)
      ∙ get-collect (hash_of x) (λ c. c.n_height) rs [] i b agrees at'
      ∙ ap some (chain.at_height i b at').0

  -- What a block index that was built maps to a height is the hash of the record at that place.
  pub hash_to_height-new_inverse :
      (entries : List (List ℕ × List ℕ)) (index : BlockIndex) (hash : Hash) (z : ℤ)
      → new x checks (ok entries) ≡ ok index
      → Map.get index.hash_to_height hash ≡ some z
      → (i : ℕ) × (b : BlockIndexRecord) × (get_elem? index.records i ≡ some b)
        × (hash_of x b ≡ hash)
        × (z ≡ pos i)
  unfolding new index_heights
  hash_to_height-new_inverse entries index hash z e found =
      let (rs, loaded, made) =
        >>=-eq-ok (load_block_index x checks (ok entries))
          (λ rs. ok (record { records = rs; hash_to_height = index_heights x rs })) e in
      let chain = load_block_index-IsChain x checks entries rs loaded in
      let same : record { records = rs; hash_to_height = index_heights x rs } ≡ index = cc made in
      let found' = ap (λ (n : BlockIndex). Map.get n.hash_to_height hash) same ∙ found in
      elim (get-collect_cases (hash_of x) (λ c. c.n_height) rs [] hash z found') [
        | inl (i, b, at, hashed, height) ↦ (
          i,
          b,
          ap (λ (n : BlockIndex). get_elem? n.records i) (sym same) ∙ at,
          hashed,
          sym height ∙ (chain.at_height i b at).0,
        )
        | inr nowhere ↦ absurd (get_nil hash z nowhere)
      ]
