-- ===== src/ConnectedIter/Progress.antt =====
-- The two stages do not block each other.
use rusty_bitcoin_explorer.Common.{
  ℕ, ◌≡◌, ◌≢◌, ◌==◌, ◌≤◌, ◌<◌, inl, inr, refl, sym, ap, ◌∙◌, Bool, true, ◌⊎◌, length, arith, leb,
  Bool-cases,
}
use rusty_bitcoin_explorer.Error.{Outcome, ok, err}
use rusty_bitcoin_explorer.External.{External, Block, TxIn}
use rusty_bitcoin_explorer.Connected.{ConnectedBlock}
use rusty_bitcoin_explorer.Connected.Lists.{map_all-ok}
use rusty_bitcoin_explorer.Api.Errors.{IsResult, value, error}
use rusty_bitcoin_explorer.SharedUtxo.{Shared, put}
use rusty_bitcoin_explorer.Utxo.{new_entry}
use rusty_bitcoin_explorer.Utxo.Update.{new_entry-ok}
use rusty_bitcoin_explorer.ConnectedIter.{
  Task, todo, unreadable, fetched, Worker, waiting, between, inside, with_arc, emptied, done,
  failed, Pipeline, is_active, advance, Step, updates, misses, starts, works, gives, Reach,
}
use rusty_bitcoin_explorer.ConnectedIter.Chain.{IsChain, finish}
use rusty_bitcoin_explorer.ConnectedIter.Invariant.{IsInvariant}
use rusty_bitcoin_explorer.ConnectedIter.Advance.{advance-Moves}
use rusty_bitcoin_explorer.ConnectedIter.Work.{not_off_course}
use rusty_bitcoin_explorer.ConnectedIter.Deliver.{never_failed}
use rusty_bitcoin_explorer.ConnectedIter.Fetches.{Reach-IsInvariant}

module _ (x : External) (checks : Bool) (T : ConnectedBlock) (reads : ℕ → Outcome Block) (end : ℕ)
    (spends : TxIn → T.tx.Out) (chain : IsChain x T reads spends) (p : Pipeline T)
    (inv : IsInvariant x T reads spends p) where
  abbrev CanStep : Type 0
  CanStep = (q : Pipeline T) × Step x checks T reads end p q

  put-here : {A : Type 0} (h : ℕ) (a : A) (f : ℕ → A) → put h a f h ≡ a
  put-here h a f = let same : (h == h) ≡ true = ground arith in rw same refl

  -- A step that does the task of the first stage for a height.
  abbrev Does : ℕ → Type 0
  Does h = (q : Pipeline T) × Step x checks T reads end p q × (q.tasks h ≢ todo)

  do_task : (h : ℕ) → h < end → p.tasks h ≡ todo → IsResult (reads h) → Does h
  do_task h below is (value block reads_h) =
      let (entries, runs) =
        map_all-ok (new_entry x checks T.tx) (new_entry-ok x checks T.tx chain.total)
          block.txdata in
      (
        _,
        updates p h block entries below is reads_h runs,
        λ again. let both : fetched block ≡ todo = sym (put-here h _ p.tasks) ∙ again in cc both,
      )
  do_task h below is (error e fails) = (
    _,
    misses p h e below is fails,
    λ again. let both : unreadable ≡ todo = sym (put-here h _ p.tasks) ∙ again in cc both,
  )

  fetch_next : (h : ℕ) (block : Block) → h < end → reads h ≡ ok block → p.started ≡ h → CanStep
  fetch_next h block below reads_h is_next = by_task (p.tasks h) refl
    where
      by_task : (t : Task) → p.tasks h ≡ t → CanStep
      by_task todo is = let (q, step, left) = do_task h below is (value block reads_h) in (q, step)
      by_task unreadable is =
          let (e, fails) = inv.missing h is in
          let both : ok block ≡ err e = sym reads_h ∙ fails in cc both
      by_task (fetched b) is = (_, starts p b (ap p.tasks is_next ∙ is))

  -- The next step of a thread does not panic.
  runs_on :
      (j : ℕ)
      → is_active (p.workers j) ≡ true
      → (sh : Shared T.tx.Out) × (w : Worker T) × (advance x checks T p.shared (p.workers j)
          ≡ ok (sh, w))
  runs_on j active = elim (inv.worker j) [
    | inl (later, rests, zero_pos) ↦ cc (rw rests at active)
    | inr (begun, c) ↦
        let m =
          advance-Moves x checks T reads spends chain p inv j begun (p.workers j) refl active c in
        (m.sh', m.w', m.runs)
  ]

  go_on : (j : ℕ) → is_active (p.workers j) ≡ true → CanStep
  go_on j active = let (sh, w, runs) = runs_on j active in (_, works p j sh w active runs)

  give_next :
      ((h : ℕ) → h ≤ length p.given → (block : Block) × (reads h ≡ ok block))
      → length p.given < end
      → CanStep
  unfolding finish
  give_next readable below = by_worker (p.workers n) refl
    where
      n : ℕ
      n = length p.given

      by_worker : (w : Worker T) → p.workers n ≡ w → CanStep
      by_worker (done blk) is = (_, gives p blk is)
      by_worker failed is = absurd (never_failed x checks T reads spends p chain inv n is)
      by_worker waiting is = elim (inv.worker n) [
        | inl (later, rests, zero_pos) ↦
            let (block, reads_h) = readable p.started later in
            fetch_next p.started block (omega arith) reads_h refl
        | inr (begun, c) ↦ absurd (
            not_off_course x checks T reads spends chain p.tasks n (inv.pos n) (p.workers n) c
              (rw is refl))
      ]
      by_worker (between blk txs) is = go_on n (ap is_active is)
      by_worker (inside blk tx is' txs) is = go_on n (ap is_active is)
      by_worker (with_arc blk tx input a is' txs) is = go_on n (ap is_active is)
      by_worker (emptied blk tx out txid a is' txs) is = go_on n (ap is_active is)

-- On a chain, where reading a block gives the block or an error, the stages neither deadlock nor
-- panic, in whatever state they are: the iterator has given the blocks of all heights below `good`,
-- which can be read, or some thread can go on or the next block can be given; each thread of the second
-- stage that is in its task can take its next step; and each task of the first stage that is left can
-- be done, whether its block can be read or not.
pub Reach-Step :
    (x : External) (checks : Bool) (T : ConnectedBlock) (reads : ℕ → Outcome Block) (end good : ℕ)
    (spends : TxIn → T.tx.Out) (p : Pipeline T)
    → IsChain x T reads spends
    → Reach x checks T reads end p
    → ((h : ℕ) → h < end → IsResult (reads h))
    → good ≤ end
    → ((h : ℕ) → h < good → (block : Block) × (reads h ≡ ok block))
    → ((good ≤ length p.given) ⊎ ((q : Pipeline T) × Step x checks T reads end p q))
      × ((j : ℕ)
          → is_active (p.workers j) ≡ true
          → (sh : Shared T.tx.Out) × (w : Worker T) × (advance x checks T p.shared (p.workers j)
              ≡ ok (sh, w)))
      × ((h : ℕ)
          → h < end
          → p.tasks h ≡ todo
          → (q : Pipeline T) × Step x checks T reads end p q × (q.tasks h ≢ todo))
Reach-Step x checks T reads end good spends p chain r results within readable =
    let inv = Reach-IsInvariant x checks T reads end spends p chain r in
    (
      elim (Bool-cases (leb good (length p.given))) [
        | inl all_given ↦ inl (ground arith)
        | inr below ↦ inr (
            let left : length p.given < good = ground arith in
            give_next x checks T reads end spends chain p inv (λ h low. readable h (omega arith))
              (omega arith))
      ],
      runs_on x checks T reads end spends chain p inv,
      λ h low is. do_task x checks T reads end spends chain p inv h low is (results h low),
    )
