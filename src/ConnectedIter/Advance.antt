-- ===== src/ConnectedIter/Advance.antt =====
-- A thread in the middle of its task can always go on, and stays on course.
use rusty_bitcoin_explorer.Common.{
  ℕ, suc, ◌≡◌, ◌<◌, inl, inr, refl, sym, ap, Bool, true, none, some, List, [], ◌∷◌, ◌++◌,
  drop_further, arith, Bool-cases,
}
use mathlib.Core.Path.{subst}
use rusty_bitcoin_explorer.Error.{Outcome}
use rusty_bitcoin_explorer.External.{External, Hash, Block, Transaction, TxIn}
use rusty_bitcoin_explorer.Connected.{ConnectedBlock, all_inputs}
use rusty_bitcoin_explorer.SharedUtxo
use rusty_bitcoin_explorer.SharedUtxo.{Phase, put, drop_entry}
use rusty_bitcoin_explorer.SharedUtxo.Effect.{unspent_of}
use rusty_bitcoin_explorer.SharedUtxo.Run.{Step-HasEffect}
use rusty_bitcoin_explorer.ConnectedIter.{
  Worker, waiting, between, inside, with_arc, emptied, done, failed, Pipeline, is_active, advance,
}
use rusty_bitcoin_explorer.ConnectedIter.Chain.{
  IsChain, finish_txs, finish_inputs, finish, remaining,
}
use rusty_bitcoin_explorer.ConnectedIter.Invariant.{
  phase, system, IsConsistent-put, IsOnCourse, Available, IsInvariant, Available-later,
}
use rusty_bitcoin_explorer.ConnectedIter.Work.{not_off_course, Moves, quiet, looks_up, takes}

module _ (x : External) (checks : Bool) (T : ConnectedBlock) (reads : ℕ → Outcome Block)
    (spends : TxIn → T.tx.Out) (chain : IsChain x T reads spends) (p : Pipeline T)
    (inv : IsInvariant x T reads spends p) (j : ℕ) (begun : j < p.started) where
  drops :
      (blk : T.Blk) (tx : T.tx.Tx) (out : T.tx.Out) (txid : Hash) (a : ℕ) (is : List TxIn)
      (txs : List Transaction)
      → p.workers j ≡ emptied blk tx (some out) txid a is txs
      → IsOnCourse x T reads spends p.tasks j (inv.pos j) (emptied blk tx (some out) txid a is txs)
      → Moves x checks T reads spends p inv.pos j (emptied blk tx (some out) txid a is txs)
  unfolding advance finish remaining drop_entry
  drops blk tx out txid a is txs here c =
      let sh = p.shared in
      let w' : Worker T = inside blk (T.tx.add_input tx out) is txs in
      let held : phase (p.workers j) ≡ Phase.dropping txid a = ap phase here in
      let (c', effect) =
        Step-HasEffect checks (system sh p.workers) _ _ inv.consistent
          (SharedUtxo.dropped (system sh p.workers) j txid a held) in
      let same : unspent_of (drop_entry sh txid) ≡ unspent_of sh = effect in
      record {
        sh' = drop_entry sh txid;
        w' = w';
        pos' = inv.pos j;
        runs = refl;
        course = record {
          block = c.block;
          got = c.got;
          comes = c.comes;
          left = c.left;
          input = tt;
        };
        consistent = IsConsistent-put (drop_entry sh txid) p.workers j w' c';
        same_arcs = refl;
        same_owner = refl;
        available =
            subst (λ u. Available x T reads spends u (put j (inv.pos j) inv.pos) p.tasks) (sym same)
              (Available-later x T reads spends (unspent_of sh) inv.pos p.tasks j (inv.pos j)
                (omega arith) inv.available);
      }

  passes :
      (blk : T.Blk) (tx : T.tx.Tx) (input : TxIn) (is : List TxIn) (txs : List Transaction)
      → IsOnCourse x T reads spends p.tasks j (inv.pos j) (inside blk tx (input ∷ is) txs)
      → x.is_null input.previous_output ≡ true
      → Moves x checks T reads spends p inv.pos j (inside blk tx (input ∷ is) txs)
  unfolding advance finish finish_inputs remaining
  passes blk tx input is txs c null =
      let inputs = all_inputs c.block.txdata in
      quiet x checks T reads spends chain p inv j begun (inside blk tx (input ∷ is) txs)
        (inside blk tx is txs) (suc (inv.pos j)) (rw null refl) (omega arith) refl
        (record {
          block = c.block;
          got = c.got;
          comes = rw null at c.comes;
          left = sym (drop_further inputs (is ++ all_inputs txs) (inv.pos j) input (sym c.left));
          input = tt;
        })

  pub advance-Moves :
      (w : Worker T)
      → p.workers j ≡ w
      → is_active w ≡ true
      → IsOnCourse x T reads spends p.tasks j (inv.pos j) w
      → Moves x checks T reads spends p inv.pos j w
  unfolding advance finish finish_txs finish_inputs remaining all_inputs
  advance-Moves waiting here active c = cc active
  advance-Moves (done blk) here active c = cc active
  advance-Moves failed here active c = cc active
  advance-Moves (between blk []) here active c =
      quiet x checks T reads spends chain p inv j begun (between blk []) (done blk) (inv.pos j) refl
        (omega arith) refl
        (record { block = c.block; got = c.got; comes = c.comes; left = c.left; input = tt })
  advance-Moves (between blk (tx ∷ txs)) here active c =
      let (blank, begins) = chain.begins tx in
      quiet x checks T reads spends chain p inv j begun (between blk (tx ∷ txs))
        (inside blk blank tx.input txs) (inv.pos j) (rw begins refl) (omega arith) refl
        (record {
          block = c.block;
          got = c.got;
          comes = rw begins at c.comes;
          left = c.left;
          input = tt;
        })
  advance-Moves (inside blk tx [] txs) here active c =
      quiet x checks T reads spends chain p inv j begun (inside blk tx [] txs)
        (between (T.add_tx blk tx) txs) (inv.pos j) refl (omega arith) refl
        (record { block = c.block; got = c.got; comes = c.comes; left = c.left; input = tt })
  advance-Moves (inside blk tx (input ∷ is) txs) here active c =
      elim (Bool-cases (x.is_null input.previous_output)) [
        | inl null ↦ passes blk tx input is txs c null
        | inr spent ↦
            looks_up x checks T reads spends chain p inv j begun blk tx input is txs here c spent
      ]
  advance-Moves (with_arc blk tx input a is txs) here active c =
      takes x checks T reads spends chain p inv j begun blk tx input a is txs here c
  advance-Moves (emptied blk tx none txid a is txs) here active c = absurd (
      not_off_course x checks T reads spends chain p.tasks j (inv.pos j)
        (emptied blk tx none txid a is txs) c refl)
  advance-Moves (emptied blk tx (some out) txid a is txs) here active c =
      drops blk tx out txid a is txs here c
