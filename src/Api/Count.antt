-- ===== src/Api/Count.antt =====
-- `get_block_count` counts the blocks that were downloaded without a gap.
use rusty_bitcoin_explorer.Common.{
  ℕ, zero, suc, ◌+◌, ◌≡◌, ◌≢◌, ◌≤◌, ◌<◌, ◌⊎◌, inl, inr, refl, false, some, List, length, get_elem?,
  get_elem?_below, get_elem?_beyond, ◌==◌, arith, Bool-cases,
}
use rusty_bitcoin_explorer.Error.{ok, err, block_index_record_not_found}
use rusty_bitcoin_explorer.BlockIndex.{BlockIndexRecord}
use rusty_bitcoin_explorer.Api.{BitcoinDb, count_blocks, get_block_count, get_header}

-- Record `i` has transactions.
abbrev pub Downloaded : List BlockIndexRecord → ℕ → Type 0
Downloaded records i = (b : BlockIndexRecord) × (get_elem? records i ≡ some b) × (b.n_tx ≢ 0)

-- All records from `h` up to `c` have transactions, and `c` is the first that has none, or the end.
pub record CountsTo (records : List BlockIndexRecord) (h c : ℕ) : Type 0 where
  pub from : h ≤ c
  pub within : c ≤ length records
  pub downloaded : (i : ℕ) → h ≤ i → i < c → Downloaded records i
  pub stops :
      (c ≡ length records)
      ⊎ ((b : BlockIndexRecord) × (get_elem? records c ≡ some b) × (b.n_tx ≡ 0))

has_txs : (b : BlockIndexRecord) → (b.n_tx == 0) ≡ false → b.n_tx ≢ 0
has_txs b h = ground arith

-- One record more at the front.
Downloaded-step :
    (records : List BlockIndexRecord) (h c : ℕ)
    → Downloaded records h
    → ((i : ℕ) → h + 1 ≤ i → i < c → Downloaded records i)
    → (i : ℕ) → h ≤ i
    → i < c
    → Downloaded records i
Downloaded-step records h c first later i above below = elim (Bool-cases (i == h)) [
  | inl same ↦ let here : i ≡ h = ground arith in rw here first
  | inr differs ↦ later i (ground arith) below
]

count_blocks-CountsTo :
    (records : List BlockIndexRecord) (h left : ℕ)
    → h + left ≡ length records
    → (c : ℕ) × (count_blocks records h left ≡ ok c) × CountsTo records h c
unfolding count_blocks
count_blocks-CountsTo records h zero all = (
  h,
  refl,
  record {
    from = omega arith;
    within = omega arith;
    downloaded = λ i above below. absurd (omega arith);
    stops = inl (omega arith);
  },
)
count_blocks-CountsTo records h (suc left) all =
    let (b, at) = get_elem?_below records h (omega arith) in
    elim (Bool-cases (b.n_tx == 0)) [
      | inl none_there ↦ (
        h,
        rw (at, none_there, count_blocks),
        record {
          from = omega arith;
          within = omega arith;
          downloaded = λ i above below. absurd (omega arith);
          stops = inr (b, at, ground arith);
        },
      )
      | inr some_there ↦
          let (c, runs, counts) = count_blocks-CountsTo records (h + 1) left (omega arith) in
          (
            c,
            rw (at, some_there, count_blocks) runs,
            record {
              from = omega (arith, counts.from);
              within = counts.within;
              downloaded =
                  Downloaded-step records h c (b, at, has_txs b some_there) counts.downloaded;
              stops = counts.stops;
            },
          )
    ]

-- The count always returns. Every block below it has a header with transactions, so it was
-- downloaded, and the next height has no record, or a record with no transaction.
pub get_block_count_lem :
    (db : BitcoinDb)
    → (c : ℕ) × (get_block_count db ≡ ok c)
      × ((h : ℕ) → h < c → (b : BlockIndexRecord) × (get_header db h ≡ ok b) × (b.n_tx ≢ 0))
      × ((get_header db c ≡ err (block_index_record_not_found c))
          ⊎ ((b : BlockIndexRecord) × (get_header db c ≡ ok b) × (b.n_tx ≡ 0)))
unfolding get_block_count get_header
get_block_count_lem db =
    let rs = db.block_index.records in
    let (c, runs, counts) = count_blocks-CountsTo rs 0 (length rs) (omega arith) in
    (
      c,
      runs,
      λ h below. let (b, at, txs) = counts.downloaded h (omega arith) below in (b, rw at, txs),
      elim counts.stops [
        | inl end ↦ inl (rw (get_elem?_beyond rs c (omega arith)))
        | inr (b, at, none_there) ↦ inr (b, rw at, none_there)
      ],
    )
