-- ===== src/ConnectedIter/Invariant.antt =====
-- The invariant of the two stages.
use rusty_bitcoin_explorer.Common.{
  ℕ, suc, ◌≡◌, ◌≤◌, ◌<◌, ◌⊎◌, inl, inr, true, Option, some, drop, get_elem?, ◌==◌, ◌&&◌, arith,
  Bool-cases,
}
use rusty_bitcoin_explorer.Error.{Error, Outcome, ok, err}
use rusty_bitcoin_explorer.External.{External, Hash, Block, Transaction, TxIn}
use rusty_bitcoin_explorer.Connected.{ConnectedBlock, all_inputs}
use rusty_bitcoin_explorer.Utxo.Inputs.{NotNull}
use rusty_bitcoin_explorer.Utxo.Contents.{without}
use rusty_bitcoin_explorer.SharedUtxo.{Shared, Phase, System, put}
use rusty_bitcoin_explorer.SharedUtxo.Frame.{IsConsistent}
use rusty_bitcoin_explorer.SharedUtxo.Effect.{unspent_of}
use rusty_bitcoin_explorer.ConnectedIter.{
  Task, unreadable, fetched, Worker, waiting, with_arc, emptied, Pipeline,
}
use rusty_bitcoin_explorer.ConnectedIter.Chain.{Source, IsChain, expected, finish, remaining}

module _ {T : ConnectedBlock} where
  -- Where the thread of a worker stands towards the shared cache.
  abbrev pub phase : Worker T → Phase
  phase (with_arc blk tx input a is txs) =
      Phase.holding input.previous_output.txid input.previous_output.vout a
  phase (emptied blk tx out txid a is txs) = Phase.dropping txid a
  phase _ = Phase.idle

  abbrev pub system : Shared T.tx.Out → (ℕ → Worker T) → System T.tx.Out
  system sh workers = record { shared = sh; threads = λ j. phase (workers j) }

  -- A step of one thread, seen from its worker.
  pub IsConsistent-put :
      (sh : Shared T.tx.Out) (workers : ℕ → Worker T) (j : ℕ) (w : Worker T)
      → IsConsistent (record { shared = sh; threads = put j (phase w) (λ i. phase (workers i)) })
      → IsConsistent (system sh (put j w workers))
  IsConsistent-put sh workers j w c = record {
    counted = c.counted;
    owned = c.owned;
    safe = λ i. elim (Bool-cases (j == i)) [
      | inl same ↦ rw same (rw same at (c.safe i))
      | inr differs ↦ rw differs (rw differs at (c.safe i))
    ];
  }

  -- A worker that was idle, and is.
  pub IsConsistent-idle :
      (sh : Shared T.tx.Out) (workers : ℕ → Worker T) (j : ℕ) (w : Worker T)
      → phase w ≡ Phase.idle
      → IsConsistent (system sh workers)
      → IsConsistent (system sh (put j w workers))
  IsConsistent-idle sh workers j w idle c = record {
    counted = c.counted;
    owned = c.owned;
    safe = λ i. elim (Bool-cases (j == i)) [
      | inl same ↦ rw (same, idle) tt
      | inr differs ↦ rw differs (c.safe i)
    ];
  }

module _ (x : External) (T : ConnectedBlock) (reads : ℕ → Outcome Block)
    (spends : TxIn → T.tx.Out) where
  -- A thread with an `Arc` has it for an input that spends an output.
  abbrev pub HoldsInput : Worker T → Type 0
  HoldsInput (with_arc blk tx input a is txs) = NotNull x input
  HoldsInput _ = Unit

  -- The worker at height `j` has taken the outputs of its first `pos` inputs, and comes to the block
  -- that is expected.
  pub record IsOnCourse (tasks : ℕ → Task) (j pos : ℕ) (w : Worker T) : Type 0 where
    pub block : Block
    pub got : tasks j ≡ fetched block
    pub comes : finish x T reads spends w ≡ expected x T reads spends block
    pub left : remaining x T reads spends w ≡ drop pos (all_inputs block.txdata)
    pub input : HoldsInput w

  -- What an input spends, and was not taken, is in the cache once its transaction was added.
  abbrev pub Available : (Hash → ℕ → Option T.tx.Out) → (ℕ → ℕ) → (ℕ → Task) → Type 0
  Available u pos tasks =
      (j : ℕ) (block : Block) (k : ℕ) (input : TxIn) (src : Source x T reads spends j input)
      → reads j ≡ ok block
      → get_elem? (all_inputs block.txdata) k ≡ some input
      → NotNull x input
      → pos j ≤ k
      → tasks src.height ≡ fetched src.block
      → u input.previous_output.txid input.previous_output.vout ≡ some (spends input)

  pub record IsInvariant (p : Pipeline T) : Type 0 where
    pub pos : ℕ → ℕ
    pub consistent : IsConsistent (system p.shared p.workers)
    pub readable : (h : ℕ) (block : Block) → p.tasks h ≡ fetched block → reads h ≡ ok block
    pub missing : (h : ℕ) → p.tasks h ≡ unreadable → (e : Error) × (reads h ≡ err e)
    pub owners :
        (a : ℕ)
        → a < p.shared.next_arc
        → (h : ℕ) × (block : Block) × (i : ℕ) × (tx : Transaction) × (p.tasks h ≡ fetched block)
          × (get_elem? block.txdata i ≡ some tx)
          × (p.shared.owner a ≡ x.compute_txid tx)
    pub reached : (h : ℕ) → h < p.started → (block : Block) × (p.tasks h ≡ fetched block)
    pub worker :
        (j : ℕ)
        → ((p.started ≤ j) × (p.workers j ≡ waiting) × (pos j ≡ 0))
          ⊎ ((j < p.started) × IsOnCourse p.tasks j (pos j) (p.workers j))
    pub available : Available (unspent_of p.shared) pos p.tasks
    pub delivered :
        (k : ℕ) (blk : T.Blk)
        → get_elem? p.given k ≡ some blk
        → (block : Block) × (reads k ≡ ok block) × (expected x T reads spends block ≡ ok blk)

  pub Available-later :
      (u : Hash → ℕ → Option T.tx.Out) (pos : ℕ → ℕ) (tasks : ℕ → Task) (j pos' : ℕ)
      → pos j ≤ pos'
      → Available u pos tasks
      → Available u (put j pos' pos) tasks
  Available-later u pos tasks j pos' later h i block k input src reads_i at spent after got =
      h i block k input src reads_i at spent
        (elim (Bool-cases (j == i)) [
          | inl same ↦
              let eq : j ≡ i = ground arith in
              let bound : pos' ≤ k = rw same at after in
              let low : pos i ≤ pos' = rw (← eq) later in omega arith
          | inr differs ↦ rw differs at after
        ])
        got

  -- An output that was taken is that of no other input.
  pub Available-taken :
      (u : Hash → ℕ → Option T.tx.Out) (pos : ℕ → ℕ) (tasks : ℕ → Task) (j : ℕ) (block : Block)
      (input : TxIn)
      → IsChain x T reads spends
      → reads j ≡ ok block
      → get_elem? (all_inputs block.txdata) (pos j) ≡ some input
      → NotNull x input
      → Available u pos tasks
      → Available
          (without u input.previous_output.txid input.previous_output.vout)
          (put j (suc (pos j)) pos)
          tasks
  Available-taken u pos tasks j block input chain reads_j here spent h i block' k other src reads_i
        at spent' after got =
      let txid = input.previous_output.txid in
      let n = input.previous_output.vout in
      let txid' = other.previous_output.txid in
      let n' = other.previous_output.vout in
      elim (Bool-cases (txid == txid' && n == n')) [
        | inl same ↦
            let same_txid : txid ≡ txid' = ground arith in
            let same_n : n ≡ n' = ground arith in
            let (eq, place) =
              chain.once j i block block' (pos j) k input other reads_j reads_i here at spent spent'
                same_txid same_n in
            let test : (j == i) ≡ true = ground arith in
            let bound : suc (pos j) ≤ k = rw test at after in absurd (omega (arith, place))
        | inr differs ↦ rw differs (
            Available-later u pos tasks j (suc (pos j)) (omega arith) h i block' k other src reads_i
              at spent' after got)
      ]
