-- ===== src/BlockIndex/Load.antt =====
-- The loop over the database: what it collects, and the chain that is built from it.
use rusty_bitcoin_explorer.Common.{
  ℕ, suc, ◌<◌, ◌≡◌, ap, ◌∙◌, ◌⊎◌, inl, inr, Bool, true, false, Option, none, some, List, [], ◌∷◌,
  reverse, length, get_elem?, length-reverse, arith, Bool-cases, Option-cases,
}
use rusty_bitcoin_explorer.Common.Words.{ℤ, pos, ltb_ℤ, as_usize}
use rusty_bitcoin_explorer.Common.Map
use rusty_bitcoin_explorer.Common.Map.{nat_key, get-insert, get-remove}
use rusty_bitcoin_explorer.Error
use rusty_bitcoin_explorer.Error.{Outcome, ok, err, panic, >>=-eq-ok, add_u64}
use rusty_bitcoin_explorer.External.{External, Hash}
use rusty_bitcoin_explorer.BlockIndex.{
  BlockIndexRecord, Loaded, is_valid, is_block_index_record, decode, raise_max, add_record,
  scan_records, build_chain, hash_of, longest_chain, load_block_index, nothing_loaded, rounds,
  with_capacity,
}
use rusty_bitcoin_explorer.BlockIndex.Chain.{
  Descends, IsIndexed, build_chain-Descends, length-Descends, height-Descends, link-Descends,
}

-- The greatest height so far is at least `h`.
abbrev pub AtLeast : Option (Hash × ℤ) → ℤ → Type 0
AtLeast none h = ⊥
AtLeast (some (hash, height)) h = ltb_ℤ height h ≡ false

raise_max-AtLeast_self : (o : Option (Hash × ℤ)) (k : Hash) (h : ℤ) → AtLeast (raise_max o k h) h
unfolding raise_max
raise_max-AtLeast_self o k h = ground arith

raise_max-AtLeast :
    (o : Option (Hash × ℤ)) (k : Hash) (g h : ℤ) → AtLeast o h → AtLeast (raise_max o k g) h
unfolding raise_max
raise_max-AtLeast none k g h p = absurd p
raise_max-AtLeast (some m) k g h p = ground arith

abbrev pub IsValidRecord : BlockIndexRecord → Type 0
IsValidRecord b = is_valid b ≡ true

module _ (x : External) where
  add_record-AtLeast_self :
      (l : Loaded) (b : BlockIndexRecord)
      → is_valid b ≡ true
      → AtLeast (add_record x l b).max_height_block_hash b.n_height
  unfolding add_record
  add_record-AtLeast_self l b v =
      rw v (raise_max-AtLeast_self l.max_height_block_hash (hash_of x b) b.n_height)

  add_record-AtLeast :
      (l : Loaded) (b : BlockIndexRecord) (h : ℤ)
      → AtLeast l.max_height_block_hash h
      → AtLeast (add_record x l b).max_height_block_hash h
  unfolding add_record
  add_record-AtLeast l b h p = elim (Bool-cases (is_valid b)) [
    | inl v ↦ rw v (raise_max-AtLeast l.max_height_block_hash (hash_of x b) b.n_height h p)
    | inr v ↦ rw v p
  ]

  add_record-IsIndexed :
      (l : Loaded) (b : BlockIndexRecord)
      → IsIndexed x IsValidRecord l.block_index_by_block_hash
      → IsIndexed x IsValidRecord (add_record x l b).block_index_by_block_hash
  unfolding add_record
  add_record-IsIndexed l b h k c e = elim (Bool-cases (is_valid b)) [
    | inl v ↦
        ground (arith, get-insert l.block_index_by_block_hash (hash_of x b) k b, h k c, rw v at e)
    | inr v ↦ h k c (rw v at e)
  ]

module _ (x : External) (checks : Bool) where
  -- The database holds the record, and it is valid.
  abbrev pub IsStored : List (List ℕ × List ℕ) → BlockIndexRecord → Type 0
  IsStored [] b = ⊥
  IsStored ((k, v) ∷ entries) b =
      ((is_block_index_record k ≡ true) × (decode x checks v ≡ ok b) × (is_valid b ≡ true))
      ⊎ IsStored entries b

  scan_nil : (l l' : Loaded) → scan_records x checks l [] ≡ ok l' → l ≡ l'
  unfolding scan_records
  scan_nil l l' e = cc

  -- A successful scan of one more entry: it was no record, or a record that decodes.
  scan_cons :
      (k v : List ℕ) (entries : List (List ℕ × List ℕ)) (l l' : Loaded)
      → scan_records x checks l ((k, v) ∷ entries) ≡ ok l'
      → ((is_block_index_record k ≡ false) × (scan_records x checks l entries ≡ ok l'))
        ⊎ ((b : BlockIndexRecord) × (decode x checks v ≡ ok b)
            × (scan_records x checks (add_record x l b) entries ≡ ok l'))
  unfolding scan_records
  scan_cons k v entries l l' e = elim (Bool-cases (is_block_index_record k)) [
    | inr skip ↦ inl (skip, rw (skip, scan_records) at e)
    | inl block ↦ inr (
        >>=-eq-ok (decode x checks v) (λ b. scan_records x checks (add_record x l b) entries)
          (rw (block, scan_records) at e))
  ]

  pub scan_records-IsIndexed :
      (entries : List (List ℕ × List ℕ)) (l l' : Loaded)
      → scan_records x checks l entries ≡ ok l'
      → IsIndexed x IsValidRecord l.block_index_by_block_hash
      → IsIndexed x IsValidRecord l'.block_index_by_block_hash
  scan_records-IsIndexed [] l l' e h = rw (← scan_nil l l' e) h
  scan_records-IsIndexed ((k, v) ∷ entries) l l' e h = elim (scan_cons k v entries l l' e) [
    | inl (skip, e') ↦ scan_records-IsIndexed entries l l' e' h
    | inr (b, d, e') ↦
        scan_records-IsIndexed entries (add_record x l b) l' e' (add_record-IsIndexed x l b h)
  ]

  scan_records-AtLeast :
      (entries : List (List ℕ × List ℕ)) (l l' : Loaded) (h : ℤ)
      → scan_records x checks l entries ≡ ok l'
      → AtLeast l.max_height_block_hash h
      → AtLeast l'.max_height_block_hash h
  scan_records-AtLeast [] l l' h e p = rw (← scan_nil l l' e) p
  scan_records-AtLeast ((k, v) ∷ entries) l l' h e p = elim (scan_cons k v entries l l' e) [
    | inl (skip, e') ↦ scan_records-AtLeast entries l l' h e' p
    | inr (b, d, e') ↦
        scan_records-AtLeast entries (add_record x l b) l' h e' (add_record-AtLeast x l b h p)
  ]

  scan_records-IsStored :
      (entries : List (List ℕ × List ℕ)) (l l' : Loaded) (b : BlockIndexRecord)
      → scan_records x checks l entries ≡ ok l'
      → IsStored entries b
      → AtLeast l'.max_height_block_hash b.n_height
  scan_records-IsStored [] l l' b e p = absurd p
  scan_records-IsStored ((k, v) ∷ entries) l l' b e p = elim (scan_cons k v entries l l' e) [
    | inl (skip, e') ↦ elim p [
      | inl (block, d, valid) ↦ cc
      | inr later ↦ scan_records-IsStored entries l l' b e' later
    ]
    | inr (c, d', e') ↦ elim p [
      | inl (block, d, valid) ↦
          let same : c ≡ b = cc in
          scan_records-AtLeast entries (add_record x l c) l' b.n_height e'
            (rw same (add_record-AtLeast_self x l b valid))
      | inr later ↦ scan_records-IsStored entries (add_record x l c) l' b e' later
    ]
  ]

  -- A successful load is a scan, and then nothing or a chain from the greatest height.
  pub longest_chain_cases :
      (l : Loaded) (rs : List BlockIndexRecord)
      → longest_chain checks l ≡ ok rs
      → ((l.max_height_block_hash ≡ none) × (rs ≡ []))
        ⊎ ((hash : Hash) × (height : ℤ) × (chain : List BlockIndexRecord) × (l.max_height_block_hash
              ≡ some (hash, height))
            × (build_chain (rounds height) hash l.block_index_by_block_hash [] ≡ ok chain)
            × (rs ≡ reverse chain))
  unfolding longest_chain
  longest_chain_cases l rs e = elim (Option-cases l.max_height_block_hash) [
    | inl nothing ↦ inl (nothing, cc (rw (nothing, longest_chain) at e))
    | inr ((hash, height), found) ↦
        let finish = λ (out : List BlockIndexRecord). ok (reverse out) in
        let build = build_chain (rounds height) hash l.block_index_by_block_hash [] in
        let (capacity, _, fits) =
          >>=-eq-ok (add_u64 checks (as_usize height) 1)
            (λ n. Error.◌>>◌ (with_capacity n) (Error.◌>>=◌ build finish))
            (rw (found, longest_chain) at e) in
        let (_, _, built) =
          >>=-eq-ok (with_capacity capacity) (λ _. Error.◌>>=◌ build finish) fits in
        let (chain, run, done) = >>=-eq-ok build finish built in
        inr (hash, height, chain, found, run, cc done)
  ]

  pub load_cases :
      (entries : List (List ℕ × List ℕ)) (rs : List BlockIndexRecord)
      → load_block_index x checks (ok entries) ≡ ok rs
      → (l : Loaded) × (scan_records x checks nothing_loaded entries ≡ ok l)
        × (longest_chain checks l ≡ ok rs)
  unfolding load_block_index
  load_cases entries rs e =
      >>=-eq-ok (scan_records x checks nothing_loaded entries) (longest_chain checks) e

-- A chain of valid records from height 0, each one's `prev_blockhash` the hash of the one below.
pub record IsChain (x : External) (rs : List BlockIndexRecord) : Type 0 where
  pub at_height :
      (i : ℕ) (b : BlockIndexRecord)
      → get_elem? rs i ≡ some b
      → (b.n_height ≡ pos i) × (is_valid b ≡ true)
  pub linked :
      (i : ℕ) (a b : BlockIndexRecord)
      → get_elem? rs i ≡ some a
      → get_elem? rs (suc i) ≡ some b
      → b.block_header.prev_blockhash ≡ hash_of x a

module _ (x : External) (checks : Bool) where
  Descends-IsChain :
      (n : ℕ) (hash : Hash) (chain : List BlockIndexRecord)
      → Descends x IsValidRecord n hash chain
      → IsChain x (reverse chain)
  Descends-IsChain n hash chain d = record {
    at_height = λ i b. height-Descends x IsValidRecord n hash chain i b d;
    linked = λ i a b. link-Descends x IsValidRecord n hash chain i a b d;
  }

  pub nothing-IsIndexed : IsIndexed x IsValidRecord []
  unfolding Map.get
  nothing-IsIndexed k b e = cc e

  longest_chain-Descends :
      (l : Loaded) (rs : List BlockIndexRecord)
      → IsIndexed x IsValidRecord l.block_index_by_block_hash
      → longest_chain checks l ≡ ok rs
      → ((l.max_height_block_hash ≡ none) × (rs ≡ []))
        ⊎ ((hash : Hash) × (height : ℤ) × (chain : List BlockIndexRecord) × (l.max_height_block_hash
              ≡ some (hash, height))
            × Descends x IsValidRecord (rounds height) hash chain
            × (rs ≡ reverse chain))
  longest_chain-Descends l rs h e = elim (longest_chain_cases x checks l rs e) [
    | inl none_found ↦ inl none_found
    | inr (hash, height, out, found, run, same) ↦
        let (chain, split, d) =
          build_chain-Descends x IsValidRecord (rounds height) hash l.block_index_by_block_hash []
            out h run in
        inr (hash, height, chain, found, d, same ∙ ap reverse split)
  ]

  -- Whatever the database holds, a load that succeeds returns a chain of valid records: the record
  -- at place `i` has height `i`, and its `prev_blockhash` is the hash of the record before it.
  pub load_block_index-IsChain :
      (entries : List (List ℕ × List ℕ)) (rs : List BlockIndexRecord)
      → load_block_index x checks (ok entries) ≡ ok rs
      → IsChain x rs
  load_block_index-IsChain entries rs e =
      let (l, scanned, longest) = load_cases x checks entries rs e in
      let indexed =
        scan_records-IsIndexed x checks entries nothing_loaded l scanned nothing-IsIndexed in
      elim (longest_chain-Descends l rs indexed longest) [
        | inl (_, nothing) ↦ rw nothing (Descends-IsChain 0 0 [] tt)
        | inr (hash, height, chain, found, d, same) ↦
            rw same (Descends-IsChain (rounds height) hash chain d)
      ]

  reaches : (height : ℤ) (h : ℕ) → ltb_ℤ height (pos h) ≡ false → h < rounds height
  reaches height h p = ground arith

  -- The chain reaches every valid record of the database: a successful load returns more records
  -- than the height of any of them.
  pub load_block_index-IsStored :
      (entries : List (List ℕ × List ℕ)) (rs : List BlockIndexRecord) (b : BlockIndexRecord) (h : ℕ)
      → load_block_index x checks (ok entries) ≡ ok rs
      → IsStored x checks entries b
      → b.n_height ≡ pos h
      → h < length rs
  load_block_index-IsStored entries rs b h e stored height_b =
      let (l, scanned, longest) = load_cases x checks entries rs e in
      let indexed =
        scan_records-IsIndexed x checks entries nothing_loaded l scanned nothing-IsIndexed in
      let below = scan_records-IsStored x checks entries nothing_loaded l b scanned stored in
      elim (longest_chain-Descends l rs indexed longest) [
        | inl (nothing, _) ↦ absurd (rw nothing at below)
        | inr (hash, height, chain, found, d, same) ↦
            let long : length rs ≡ rounds height =
              ap length same
              ∙ length-reverse chain
              ∙ length-Descends x IsValidRecord (rounds height) hash chain d in
            rw long (reaches height h (rw height_b at (rw found at below)))
      ]
