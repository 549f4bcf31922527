-- ===== src/BlockIndex/Complete.antt =====
-- The chain is found where it is there, and the reverse index gives its heights back.
use rusty_bitcoin_explorer.Common.{
  ℕ, zero, suc, ◌+◌, ◌^◌, ◌<◌, ◌≡◌, sym, ap, ◌∙◌, ◌↔◌, inl, inr, Bool, some, List, [], ◌∷◌, ◌++◌,
  append_assoc, append-nil, reverse, arith, ◌==◌, Bool-cases, ==_iff,
}
use rusty_bitcoin_explorer.Common.Words.{pos, eq_ℤ_iff}
use rusty_bitcoin_explorer.Common.Map
use rusty_bitcoin_explorer.Common.Map.{Map, nat_key, get-remove}
use rusty_bitcoin_explorer.Error.{ok, add_u64}
use rusty_bitcoin_explorer.External.{External, Hash}
use rusty_bitcoin_explorer.BlockIndex.{
  BlockIndexRecord, Records, Loaded, build_chain, hash_of, longest_chain, with_capacity,
}
use rusty_bitcoin_explorer.BlockIndex.Chain.{Descends, IsIndexed, build_chain-Descends}
use rusty_bitcoin_explorer.BlockIndex.Load.{IsValidRecord, longest_chain_cases}

module _ (x : External) (m₀ : Records) where
  -- The database's record of the block with that hash.
  abbrev pub IsRecorded : BlockIndexRecord → Type 0
  IsRecorded b = Map.get m₀ (hash_of x b) ≡ some b

  -- Below height `n` nothing has been removed.
  abbrev Keeps : ℕ → Records → Type 0
  Keeps n m =
      (b : BlockIndexRecord) (i : ℕ)
      → i < n
      → b.n_height ≡ pos i
      → IsRecorded b
      → Map.get m (hash_of x b) ≡ some b

  Keeps-remove :
      (n : ℕ) (m : Records) (c : BlockIndexRecord)
      → c.n_height ≡ pos n
      → IsRecorded c
      → Keeps (suc n) m
      → Keeps n (Map.remove m (hash_of x c))
  Keeps-remove n m c hc rc keep b i lt hb rb = elim (Bool-cases (hash_of x c == hash_of x b)) [
    | inr differs ↦ rw (get-remove, differs) (keep b i (omega arith) hb rb)
    | inl same ↦
        let e : hash_of x c ≡ hash_of x b = (==_iff _ _).0 same in
        let records : c ≡ b = cc (rc, rb, ap (Map.get m₀) e) in
        absurd (ground (arith, ap (λ (r : BlockIndexRecord). r.n_height) records))
  ]

  build_chain_complete :
      (n : ℕ) (hash : Hash) (m : Records) (acc chain : List BlockIndexRecord)
      → Keeps n m
      → Descends x IsRecorded n hash chain
      → build_chain n hash m acc ≡ ok (acc ++ chain)
  unfolding build_chain
  build_chain_complete zero hash m acc [] keep d = ap ok (sym (append-nil acc))
  build_chain_complete zero hash m acc (c ∷ cs) keep d = absurd d
  build_chain_complete (suc n) hash m acc [] keep d = absurd d
  build_chain_complete (suc n) hash m acc (c ∷ cs) keep (hashed, height, recorded, rest) =
      let found = keep c n (omega arith) height recorded in
      let same = (eq_ℤ_iff (pos n) c.n_height).1 (sym height) in
      rw (← hashed) (
        rw (found, same, build_chain)
          (build_chain_complete n c.block_header.prev_blockhash (Map.remove m (hash_of x c))
              (acc ++ c ∷ []) cs (Keeps-remove n m c height recorded keep) rest
            ∙ ap ok (append_assoc acc (c ∷ []) cs)))

  pub IsIndexed-IsRecorded : IsIndexed x IsValidRecord m₀ → IsIndexed x IsRecorded m₀
  IsIndexed-IsRecorded h k b e = let same = (h k b e).0 in (same, rw same e)

module _ (x : External) (checks : Bool) (l : Loaded) (hash : Hash) (n : ℕ)
    (rs : List BlockIndexRecord) (indexed : IsIndexed x IsValidRecord l.block_index_by_block_hash)
    (top : l.max_height_block_hash ≡ some (hash, pos n)) where
  abbrev RecordedChain : Type 0
  RecordedChain =
      (chain : List BlockIndexRecord) × Descends x (IsRecorded x l.block_index_by_block_hash)
        (suc n) hash chain
      × (rs ≡ reverse chain)

  recorded_of_longest : longest_chain checks l ≡ ok rs → RecordedChain
  recorded_of_longest e = elim (longest_chain_cases x checks l rs e) [
    | inl (nothing, _) ↦ cc
    | inr (hash', height, out, found, run, same) ↦
        let e₁ : hash' ≡ hash = cc in
        let e₂ : height ≡ pos n = cc in
        let (chain, split, d) =
          build_chain-Descends x (IsRecorded x l.block_index_by_block_hash) (suc n) hash
            l.block_index_by_block_hash [] out
            (IsIndexed-IsRecorded x l.block_index_by_block_hash indexed) (rw (e₁, e₂) at run) in
        (chain, d, same ∙ ap reverse split)
  ]

  longest_of_recorded : n < 2 ^ 31 → RecordedChain → longest_chain checks l ≡ ok rs
  unfolding longest_chain
  longest_of_recorded small (chain, d, same) =
      let capacity : add_u64 checks n 1 ≡ ok (n + 1) = ground arith in
      let room : with_capacity (n + 1) ≡ ok tt = ground arith in
      let built =
        build_chain_complete x l.block_index_by_block_hash (suc n) hash l.block_index_by_block_hash
          [] chain (λ b i lt hb recorded. recorded) d in
      rw (top, capacity, room, built, longest_chain) (ap ok (sym same))

-- With the highest valid record at a height that an i32 holds, what is returned is exactly the chain
-- of recorded blocks from that record down to height 0: it is returned where it is there, and
-- anything that is returned is one.
pub longest_chain_iff :
    (x : External) (checks : Bool) (l : Loaded) (hash : Hash) (n : ℕ) (rs : List BlockIndexRecord)
    → IsIndexed x IsValidRecord l.block_index_by_block_hash
    → l.max_height_block_hash ≡ some (hash, pos n)
    → n < 2 ^ 31
    → (longest_chain checks l ≡ ok rs) ↔ (
        (chain : List BlockIndexRecord) × Descends x
          (IsRecorded x l.block_index_by_block_hash)
          (suc n)
          hash
          chain
        × (rs ≡ reverse chain))
longest_chain_iff x checks l hash n rs indexed top small = (
  recorded_of_longest x checks l hash n rs indexed top,
  longest_of_recorded x checks l hash n rs indexed top small,
)
