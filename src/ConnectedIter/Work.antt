-- ===== src/ConnectedIter/Work.antt =====
-- The next step of a thread in the middle of its task.
use rusty_bitcoin_explorer.Common.{
  ℕ, suc, ◌≡◌, ◌≢◌, ◌≤◌, ◌<◌, inl, inr, refl, sym, ap, ◌∙◌, Bool, some, List, [], ◌∷◌, ◌++◌, drop,
  get_elem?_of_drop, drop_further, arith, Bool-cases, Option-cases,
}
use mathlib.Core.Path.{subst}
use rusty_bitcoin_explorer.Common.Map
use rusty_bitcoin_explorer.Common.Map.{nat_key}
use rusty_bitcoin_explorer.Error.{Outcome, ok, panic}
use rusty_bitcoin_explorer.External.{External, Block, Transaction, TxIn}
use rusty_bitcoin_explorer.Connected.{ConnectedBlock, all_inputs}
use rusty_bitcoin_explorer.Utxo.{is_empty}
use rusty_bitcoin_explorer.Utxo.Slots.{slot, remove_lem}
use rusty_bitcoin_explorer.Utxo.Contents.{without}
use rusty_bitcoin_explorer.Utxo.Inputs.{NotNull}
use rusty_bitcoin_explorer.SharedUtxo
use rusty_bitcoin_explorer.SharedUtxo.{
  Shared, Phase, System, put, write_arc, drop_entry, after_take,
}
use rusty_bitcoin_explorer.SharedUtxo.Frame.{IsConsistent}
use rusty_bitcoin_explorer.SharedUtxo.Effect.{unspent_of}
use rusty_bitcoin_explorer.SharedUtxo.Run.{Step-HasEffect}
use rusty_bitcoin_explorer.ConnectedIter.{
  Task, fetched, Worker, inside, with_arc, emptied, Pipeline, advance,
}
use rusty_bitcoin_explorer.ConnectedIter.Chain.{
  IsChain, finish_txs, finish_inputs, finish, remaining,
}
use rusty_bitcoin_explorer.ConnectedIter.Invariant.{
  phase, system, IsConsistent-put, IsConsistent-idle, IsOnCourse, Available, IsInvariant,
  Available-later, Available-taken,
}

module _ (x : External) (checks : Bool) (T : ConnectedBlock) (reads : ℕ → Outcome Block)
    (spends : TxIn → T.tx.Out) where
  pub expected-ok :
      IsChain x T reads spends
      → (blk : T.Blk) (txs : List Transaction)
      → (out : T.Blk) × (finish_txs x T reads spends blk txs ≡ ok out)
  unfolding finish_txs
  expected-ok chain blk [] = (blk, refl)
  expected-ok chain blk (tx ∷ txs) =
      let (blank, begins) = chain.begins tx in
      rw begins
        (expected-ok chain (T.add_tx blk (finish_inputs x T reads spends blank tx.input)) txs)

  -- A worker that panics or gave up is not on course.
  pub not_off_course :
      IsChain x T reads spends
      → (tasks : ℕ → Task) (j pos : ℕ) (w : Worker T) → IsOnCourse x T reads spends tasks j pos w
      → finish x T reads spends w ≢ panic
  not_off_course chain tasks j pos w c stops =
      let (out, comes) =
        expected-ok chain (T.from c.block.header (x.block_hash c.block.header)) c.block.txdata in
      let both : panic ≡ ok out = sym stops ∙ c.comes ∙ comes in cc both

  -- A step of the worker at height `j`, and what it leaves.
  pub record Moves (p : Pipeline T) (pos : ℕ → ℕ) (j : ℕ) (w : Worker T) : Type 0 where
    pub sh' : Shared T.tx.Out
    pub w' : Worker T
    pub pos' : ℕ
    pub runs : advance x checks T p.shared w ≡ ok (sh', w')
    pub course : IsOnCourse x T reads spends p.tasks j pos' w'
    pub consistent : IsConsistent (system sh' (put j w' p.workers))
    pub same_arcs : sh'.next_arc ≡ p.shared.next_arc
    pub same_owner : sh'.owner ≡ p.shared.owner
    pub available : Available x T reads spends (unspent_of sh') (put j pos' pos) p.tasks

  module _ (chain : IsChain x T reads spends) (p : Pipeline T)
      (inv : IsInvariant x T reads spends p) (j : ℕ) (begun : j < p.started) where
    -- A step that leaves the cache, and takes nothing or passes an input.
    pub quiet :
        (w w' : Worker T) (pos' : ℕ)
        → advance x checks T p.shared w ≡ ok (p.shared, w')
        → inv.pos j ≤ pos'
        → phase w' ≡ Phase.idle
        → IsOnCourse x T reads spends p.tasks j pos' w'
        → Moves p inv.pos j w
    quiet w w' pos' runs later idle course = record {
      sh' = p.shared;
      w' = w';
      pos' = pos';
      runs = runs;
      course = course;
      consistent = IsConsistent-idle p.shared p.workers j w' idle inv.consistent;
      same_arcs = refl;
      same_owner = refl;
      available =
          Available-later x T reads spends (unspent_of p.shared) inv.pos p.tasks j pos' later
            inv.available;
    }

    -- The next input of a worker is there to be taken.
    is_there :
        (block : Block) (input : TxIn) (rest : List TxIn)
        → p.tasks j ≡ fetched block
        → drop (inv.pos j) (all_inputs block.txdata) ≡ input ∷ rest
        → NotNull x input
        → unspent_of p.shared input.previous_output.txid input.previous_output.vout
          ≡ some (spends input)
    is_there block input rest got left spent =
        let at = get_elem?_of_drop (all_inputs block.txdata) rest (inv.pos j) input left in
        let reads_j = inv.readable j block got in
        let src = chain.source j block (inv.pos j) input reads_j at spent in
        let earlier = src.earlier in
        let (block', reached) = inv.reached src.height (omega arith) in
        let again = inv.readable src.height block' reached in
        let one : ok block' ≡ ok src.block = sym again ∙ src.readable in
        let same : block' ≡ src.block = cc one in
        inv.available j block (inv.pos j) input src reads_j at spent (omega arith)
          (reached ∙ ap fetched same)

    pub looks_up :
        (blk : T.Blk) (tx : T.tx.Tx) (input : TxIn) (is : List TxIn) (txs : List Transaction)
        → p.workers j ≡ inside blk tx (input ∷ is) txs
        → IsOnCourse x T reads spends p.tasks j (inv.pos j) (inside blk tx (input ∷ is) txs)
        → NotNull x input
        → Moves p inv.pos j (inside blk tx (input ∷ is) txs)
    unfolding advance finish remaining
    looks_up blk tx input is txs here c spent =
        let txid = input.previous_output.txid in
        let n = input.previous_output.vout in
        let there = is_there c.block input (is ++ all_inputs txs) c.got (sym c.left) spent in
        elim (Option-cases (Map.get p.shared.unspent txid)) [
          | inl missing ↦ cc (rw missing at there)
          | inr (a, entry) ↦
              let w' : Worker T = with_arc blk tx input a is txs in
              let idle : phase (p.workers j) ≡ Phase.idle = ap phase here in
              let (c', effect) =
                Step-HasEffect checks (system p.shared p.workers) _ _ inv.consistent
                  (SharedUtxo.found (system p.shared p.workers) j txid n a idle entry) in
              record {
                sh' = p.shared;
                w' = w';
                pos' = inv.pos j;
                runs = rw (spent, entry) refl;
                course = record {
                  block = c.block;
                  got = c.got;
                  comes = c.comes;
                  left = c.left;
                  input = spent;
                };
                consistent = IsConsistent-put p.shared p.workers j w' c';
                same_arcs = refl;
                same_owner = refl;
                available =
                    Available-later x T reads spends (unspent_of p.shared) inv.pos p.tasks j
                      (inv.pos j) (omega arith) inv.available;
              }
        ]

    pub takes :
        (blk : T.Blk) (tx : T.tx.Tx) (input : TxIn) (a : ℕ) (is : List TxIn)
        (txs : List Transaction)
        → p.workers j ≡ with_arc blk tx input a is txs
        → IsOnCourse x T reads spends p.tasks j (inv.pos j) (with_arc blk tx input a is txs)
        → Moves p inv.pos j (with_arc blk tx input a is txs)
    unfolding advance finish finish_inputs remaining after_take
    takes blk tx input a is txs here c =
        let txid = input.previous_output.txid in
        let n = input.previous_output.vout in
        let sh = p.shared in
        let inputs = all_inputs c.block.txdata in
        let rest = is ++ all_inputs txs in
        let there = is_there c.block input rest c.got (sym c.left) c.input in
        let (v, removes, counted, slots) =
          remove_lem checks (sh.arcs a) n (inv.consistent.counted a) in
        let held : phase (p.workers j) ≡ Phase.holding txid n a = ap phase here in
        let (c', (got, left_over)) =
          Step-HasEffect checks (system sh p.workers) _ _ inv.consistent (
            SharedUtxo.taken (system sh p.workers) j txid n a (slot (sh.arcs a).inner n) v held
              removes) in
        let out : slot (sh.arcs a).inner n ≡ some (spends input) = got ∙ there in
        let at = get_elem?_of_drop inputs rest (inv.pos j) input (sym c.left) in
        let left' : unspent_of (write_arc sh a v) ≡ without (unspent_of sh) txid n = left_over in
        let available =
          subst (λ u. Available x T reads spends u (put j (suc (inv.pos j)) inv.pos) p.tasks)
            (sym left')
            (Available-taken x T reads spends (unspent_of sh) inv.pos p.tasks j c.block input chain
              (inv.readable j c.block c.got) at c.input inv.available) in
        let taken_one =
          λ (w' : Worker T)
              (runs : advance x checks T sh (with_arc blk tx input a is txs)
                ≡ ok (write_arc sh a v, w'))
              (course : IsOnCourse x T reads spends p.tasks j (suc (inv.pos j)) w')
              (consistent : IsConsistent (system (write_arc sh a v) (put j w' p.workers))).
            let moves : Moves p inv.pos j (with_arc blk tx input a is txs) = record {
              sh' = write_arc sh a v;
              w' = w';
              pos' = suc (inv.pos j);
              runs = runs;
              course = course;
              consistent = consistent;
              same_arcs = refl;
              same_owner = refl;
              available = available;
            } in
            moves in
        let left = sym (drop_further inputs rest (inv.pos j) input (sym c.left)) in
        let comes = rw c.input at c.comes in
        elim (Bool-cases (is_empty v)) [
          | inl empty ↦
              let w' : Worker T = emptied blk tx (some (spends input)) txid a is txs in
              taken_one w' (rw (removes, out, empty) refl)
                (record { block = c.block; got = c.got; comes = comes; left = left; input = tt })
                (IsConsistent-put (write_arc sh a v) p.workers j w' (rw empty at c'))
          | inr outputs_left ↦
              let w' : Worker T = inside blk (T.tx.add_input tx (spends input)) is txs in
              taken_one w' (rw (removes, out, outputs_left) refl)
                (record { block = c.block; got = c.got; comes = comes; left = left; input = tt })
                (IsConsistent-put (write_arc sh a v) p.workers j w' (rw outputs_left at c'))
        ]
