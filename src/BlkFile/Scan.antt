-- ===== src/BlkFile/Scan.antt =====
-- The scan of the blocks folder finds the block files.
use rusty_bitcoin_explorer.Common.{
  ℕ, zero, suc, ◌≡◌, ◌≢◌, ◌↔◌, ◌⊎◌, inl, inr, refl, sym, ap, ◌∙◌, true, some, List, [], ◌∷◌,
  get_elem?, Bool-cases, Option-cases,
}
use rusty_bitcoin_explorer.Common.Words.{ℤ, eq_ℤ, eq_ℤ_iff}
use rusty_bitcoin_explorer.Common.Map
use rusty_bitcoin_explorer.Common.Map.{Map, int_key, get-insert}
use rusty_bitcoin_explorer.Error.{Outcome, ok, err, empty_block_files}
use rusty_bitcoin_explorer.BlkFile.{
  FilePath, DirEntry, FileSystem, resolve_path, index_of_path, add_path, scan_entries, not_empty,
  scan_blocks_dir,
}

module _ {F : Type 0} (fs : FileSystem F) where
  -- The entries of a folder are there, and lead to the paths.
  abbrev pub Lead : List (Outcome DirEntry) → List FilePath → Type 0
  Lead [] [] = Unit
  Lead [] (p ∷ ps) = ⊥
  Lead (e ∷ es) [] = ⊥
  Lead (e ∷ es) (p ∷ ps) =
      ((entry : DirEntry) × (e ≡ ok entry) × (resolve_path fs entry ≡ ok p)) × Lead es ps

  -- A file with the number `i` in its name.
  pub record IsBlkFile (i : ℤ) (path : FilePath) : Type 0 where
    pub is_file : fs.is_file path ≡ true
    pub numbered : index_of_path fs path ≡ some i

  abbrev add_paths : Map ℤ FilePath → List FilePath → Map ℤ FilePath
  add_paths m [] = m
  add_paths m (p ∷ ps) = add_paths (add_path fs m p) ps

  scan_entries-add_paths :
      (m : Map ℤ FilePath) (es : List (Outcome DirEntry)) (ps : List FilePath)
      → Lead es ps
      → scan_entries fs m es ≡ ok (add_paths m ps)
  unfolding scan_entries
  scan_entries-add_paths m [] [] h = refl
  scan_entries-add_paths m [] (p ∷ ps) h = absurd h
  scan_entries-add_paths m (e ∷ es) [] h = absurd h
  scan_entries-add_paths m (e ∷ es) (p ∷ ps) ((entry, there, leads), h) =
      rw (there, leads) (scan_entries-add_paths (add_path fs m p) es ps h)

  -- What a path does to the index.
  data Adds (m : Map ℤ FilePath) (path : FilePath) : Type 0 where
    skipped : add_path fs m path ≡ m → ((i : ℤ) → IsBlkFile i path → ⊥) → Adds m path
    added : (i : ℤ) → IsBlkFile i path → add_path fs m path ≡ Map.insert m i path → Adds m path

  add_path_cases : (m : Map ℤ FilePath) (path : FilePath) → Adds m path
  unfolding add_path
  add_path_cases m path = elim (Bool-cases (fs.is_file path)) [
    | inr other ↦ skipped (rw other refl) (λ i b. cc (b.is_file, other))
    | inl file ↦ elim (Option-cases (index_of_path fs path)) [
      | inl unnumbered ↦
          skipped (rw (file, unnumbered) refl) (λ i b. cc (sym unnumbered ∙ b.numbered))
      | inr (i, is) ↦ added i (record { is_file = file; numbered = is }) (rw (file, is) refl)
    ]
  ]

  same_number : (i j : ℤ) (path : FilePath) → IsBlkFile i path → IsBlkFile j path → i ≡ j
  same_number i j path a b = let one : some i ≡ some j = sym a.numbered ∙ b.numbered in cc one

  -- The file with number `i` is found once it was added, if it is the only one.
  finds_kept :
      (m : Map ℤ FilePath) (ps : List FilePath) (i : ℤ) (path : FilePath)
      → ((n : ℕ) (p : FilePath) → get_elem? ps n ≡ some p → IsBlkFile i p → p ≡ path)
      → Map.get m i ≡ some path
      → Map.get (add_paths m ps) i ≡ some path
  finds_kept m [] i path only there = there
  finds_kept m (p ∷ ps) i path only there =
      finds_kept (add_path fs m p) ps i path (λ n. only (suc n)) (by_case (add_path_cases m p))
    where
      by_case : Adds m p → Map.get (add_path fs m p) i ≡ some path
      by_case (skipped same unnumbered) = rw same there
      by_case (added j b same) =
          ap (λ m'. Map.get m' i) same ∙ get-insert m j i p ∙ elim (Bool-cases (eq_ℤ j i)) [
            | inl eq ↦
                let numbers : j ≡ i = (eq_ℤ_iff j i).0 eq in
                rw eq (ap some (only 0 p refl (rw (← numbers) b)))
            | inr differs ↦ rw differs there
          ]

  finds :
      (m : Map ℤ FilePath) (ps : List FilePath) (n : ℕ) (i : ℤ) (path : FilePath)
      → get_elem? ps n ≡ some path
      → IsBlkFile i path
      → ((k : ℕ) (p : FilePath) → get_elem? ps k ≡ some p → IsBlkFile i p → p ≡ path)
      → Map.get (add_paths m ps) i ≡ some path
  finds m [] n i path at b only = cc at
  finds m (p ∷ ps) (suc n) i path at b only =
      finds (add_path fs m p) ps n i path at b (λ k. only (suc k))
  finds m (p ∷ ps) zero i path at b only =
      let is : p ≡ path = cc at in
      finds_kept (add_path fs m p) ps i path (λ k. only (suc k)) (by_case is (add_path_cases m p))
    where
      by_case : p ≡ path → Adds m p → Map.get (add_path fs m p) i ≡ some path
      by_case is (skipped same unnumbered) = absurd (unnumbered i (rw is b))
      by_case is (added j b' same) =
          let numbers = same_number j i p b' (rw is b) in
          ap (λ m'. Map.get m' i) same
          ∙ get-insert m j i p
          ∙ rw ((eq_ℤ_iff j i).1 numbers) (ap some is)

  -- What is in the index is a block file of the folder.
  comes_from :
      (m : Map ℤ FilePath) (ps : List FilePath) (i : ℤ) (path : FilePath)
      → Map.get (add_paths m ps) i ≡ some path
      → (Map.get m i ≡ some path) ⊎ ((n : ℕ) × (get_elem? ps n ≡ some path) × IsBlkFile i path)
  comes_from m [] i path there = inl there
  comes_from m (p ∷ ps) i path there = elim (comes_from (add_path fs m p) ps i path there) [
    | inr (n, at, b) ↦ inr (suc n, at, b)
    | inl before ↦ by_case (add_path_cases m p) before
  ]
    where
      by_case :
          Adds m p
          → Map.get (add_path fs m p) i ≡ some path
          → (Map.get m i ≡ some path)
            ⊎ ((n : ℕ) × (get_elem? (p ∷ ps) n ≡ some path) × IsBlkFile i path)
      by_case (skipped same unnumbered) before = inl (rw same at before)
      by_case (added j b same) before = elim (Bool-cases (eq_ℤ j i)) [
        | inl eq ↦
            let numbers : j ≡ i = (eq_ℤ_iff j i).0 eq in
            let one : some p ≡ some path = rw (same, get-insert, eq) at before in
            let is : p ≡ path = cc one in inr (0, one, rw (← is, ← numbers) b)
        | inr differs ↦ inl (rw (same, get-insert, differs) at before)
      ]

  filled :
      (m : Map ℤ FilePath) (i : ℤ) (path : FilePath)
      → Map.get m i ≡ some path
      → not_empty fs m ≡ ok m
  unfolding Map.get
  filled [] i path there = cc there
  filled (f ∷ m) i path there = refl

  -- In a folder whose entries can be read, a block file that has its number alone is found under it,
  -- and every path in the index is that of a block file of the folder with that number.
  pub scan_blocks_dir_lem :
      (dir : FilePath) (es : List (Outcome DirEntry)) (ps : List FilePath) (n : ℕ) (i : ℤ)
      (path : FilePath)
      → fs.read_dir dir ≡ ok es
      → Lead es ps
      → get_elem? ps n ≡ some path
      → IsBlkFile i path
      → ((k : ℕ) (p : FilePath) → get_elem? ps k ≡ some p → IsBlkFile i p → p ≡ path)
      → (files : Map ℤ FilePath) × (scan_blocks_dir fs dir ≡ ok files)
        × (Map.get files i ≡ some path)
        × ((j : ℤ) (p : FilePath)
            → Map.get files j ≡ some p
            → (k : ℕ) × (get_elem? ps k ≡ some p) × IsBlkFile j p)
  unfolding scan_blocks_dir Map.get
  scan_blocks_dir_lem dir es ps n i path lists leads at b only =
      let files = add_paths [] ps in
      let found = finds [] ps n i path at b only in
      (
        files,
        rw (lists, scan_entries-add_paths [] es ps leads) (filled files i path found),
        found,
        λ j p there. elim (comes_from [] ps j p there) [ inl before ↦ cc before | inr it ↦ it ],
      )

  add_path_filled :
      (m : Map ℤ FilePath) (p : FilePath)
      → m ≢ [] ⊎ ((i : ℤ) × IsBlkFile i p)
      → add_path fs m p ≢ []
  unfolding Map.insert
  add_path_filled m p h empty = by_case (add_path_cases m p) h
    where
      by_case : Adds m p → m ≢ [] ⊎ ((i : ℤ) × IsBlkFile i p) → ⊥
      by_case (skipped same unnumbered) (inl filled_) = filled_ (sym same ∙ empty)
      by_case (skipped same unnumbered) (inr (i, b)) = unnumbered i b
      by_case (added j b same) h =
          let both : (j, p) ∷ Map.remove m j ≡ [] = sym same ∙ empty in cc both

  add_paths_filled :
      (m : Map ℤ FilePath) (ps : List FilePath)
      → m ≢ [] ⊎ ((n : ℕ) × (i : ℤ) × (p : FilePath) × (get_elem? ps n ≡ some p) × IsBlkFile i p)
      → add_paths m ps ≢ []
  add_paths_filled m [] (inl filled_) = filled_
  add_paths_filled m [] (inr (n, i, p, at, b)) = λ empty. cc at
  add_paths_filled m (p ∷ ps) (inl filled_) =
      add_paths_filled (add_path fs m p) ps (inl (add_path_filled m p (inl filled_)))
  add_paths_filled m (p ∷ ps) (inr (zero, i, q, at, b)) =
      let is : p ≡ q = cc at in
      add_paths_filled (add_path fs m p) ps (inl (add_path_filled m p (inr (i, rw is b))))
  add_paths_filled m (p ∷ ps) (inr (suc n, i, q, at, b)) =
      add_paths_filled (add_path fs m p) ps (inr (n, i, q, at, b))

  not_empty_filled : (m : Map ℤ FilePath) → m ≢ [] → not_empty fs m ≢ err empty_block_files
  not_empty_filled [] h = λ e. h refl
  not_empty_filled (f ∷ m) h = λ e. cc e

  none_added :
      (ps : List FilePath)
      → ((n : ℕ) (i : ℤ) (p : FilePath) → get_elem? ps n ≡ some p → IsBlkFile i p → ⊥)
      → add_paths [] ps ≡ []
  none_added [] h = refl
  none_added (p ∷ ps) h =
      ap (λ m. add_paths m ps) (by_case (add_path_cases [] p)) ∙ none_added ps (λ n. h (suc n))
    where
      by_case : Adds [] p → add_path fs [] p ≡ []
      by_case (skipped same unnumbered) = same
      by_case (added j b same) = absurd (h 0 j p refl b)

  -- A folder whose entries can be read is refused with `EmptyBlockFiles` exactly when none of them
  -- leads to a block file.
  pub scan_blocks_dir_empty_iff :
      (dir : FilePath) (es : List (Outcome DirEntry)) (ps : List FilePath)
      → fs.read_dir dir ≡ ok es
      → Lead es ps
      → ((scan_blocks_dir fs dir ≡ err empty_block_files)
          ↔ ((n : ℕ) (i : ℤ) (p : FilePath) → get_elem? ps n ≡ some p → ¬ IsBlkFile i p))
  unfolding scan_blocks_dir
  scan_blocks_dir_empty_iff dir es ps lists leads =
      let scans = scan_entries-add_paths [] es ps leads in
      (
        λ refused n i p at b.
            not_empty_filled (add_paths [] ps) (add_paths_filled [] ps (inr (n, i, p, at, b)))
              (rw (lists, scans) at refused),
        λ absent. rw (lists, scans, none_added ps absent) refl,
      )
