-- ===== src/ConnectedIter/Cost.antt =====
-- What a worker of `ConnectedBlockIter` has before it.
use rusty_bitcoin_explorer.Common.{
  ℕ, zero, suc, ◌+◌, ◌*◌, ◌≡◌, ◌≤◌, ◌<◌, inl, inr, refl, Bool, true, false, Option, none, some,
  List, [], ◌∷◌, length, ◌==◌, arith, Bool-cases,
}
use rusty_bitcoin_explorer.Common.Map
use rusty_bitcoin_explorer.Common.Map.{nat_key}
use rusty_bitcoin_explorer.Error.{Outcome, ok, >>=-eq-ok}
use rusty_bitcoin_explorer.External.{External, Block, Transaction, TxIn}
use rusty_bitcoin_explorer.Connected.{ConnectedBlock}
use rusty_bitcoin_explorer.Utxo.{is_empty, remove}
use rusty_bitcoin_explorer.SharedUtxo.{Shared, write_arc, drop_entry}
use rusty_bitcoin_explorer.ConnectedIter.{
  Task, todo, Worker, waiting, between, inside, with_arc, emptied, done, failed, settle, look_up,
  is_active, advance,
}

-- The sum of the values of a function below a bound.
abbrev pub total : ℕ → (ℕ → ℕ) → ℕ
total zero f = 0
total (suc n) f = f n + total n f

total-same : (n : ℕ) (f g : ℕ → ℕ) → ((i : ℕ) → i < n → f i ≡ g i) → total n f ≡ total n g
total-same zero f g same = refl
total-same (suc n) f g same =
    let last = same n (omega arith) in
    let rest = total-same n f g (λ i h. same i (omega arith)) in omega arith

-- A smaller value at one place.
pub total-put :
    (n j v : ℕ) (f g : ℕ → ℕ)
    → j < n
    → f j + v ≤ g j
    → ((i : ℕ) → (j == i) ≡ false → f i ≡ g i)
    → total n f + v ≤ total n g
total-put zero j v f g below less same = absurd (omega arith)
total-put (suc n) j v f g below less same = elim (Bool-cases (j == n)) [
  | inl last ↦
      let eq : j ≡ n = ground arith in
      let here_ : f n + v ≤ g n = rw (← eq) less in
      let rest = total-same n f g (λ i h. same i (ground arith)) in omega arith
  | inr differs ↦
      let rest = total-put n j v f g (ground arith) less same in
      let last = same n differs in omega arith
]

pub total-add : (n : ℕ) (f g : ℕ → ℕ) → total n (λ i. f i + g i) ≡ total n f + total n g
total-add zero f g = refl
total-add (suc n) f g = let rest = total-add n f g in omega arith

pub total-const : (n c : ℕ) → total n (λ i. c) ≡ c * n
total-const zero c = omega arith
total-const (suc n) c = let rest = total-const n c in ground arith

-- The steps that the transactions of a block take, at most.
abbrev pub cost_txs : List Transaction → ℕ
cost_txs [] = 0
cost_txs (tx ∷ txs) = 2 + 3 * length tx.input + cost_txs txs

abbrev pub cost_read : Outcome Block → ℕ
cost_read (ok block) = cost_txs block.txdata
cost_read _ = 0

-- The steps that a worker has before it, at most.
abbrev pub cost : {T : ConnectedBlock} → ℕ → Worker T → ℕ
cost c waiting = 2 + c
cost c failed = 0
cost c (done blk) = 0
cost c (between blk txs) = 1 + cost_txs txs
cost c (inside blk tx is txs) = 2 + 3 * length is + cost_txs txs
cost c (with_arc blk tx input a is txs) = 4 + 3 * length is + cost_txs txs
cost c (emptied blk tx out txid a is txs) = 3 + 3 * length is + cost_txs txs

cost-settle :
    (T : ConnectedBlock) (c : ℕ) (blk : T.Blk) (tx : T.tx.Tx) (out : Option T.tx.Out)
    (is : List TxIn) (txs : List Transaction)
    → cost {T = T} c (settle blk tx out is txs) ≤ 2 + 3 * length is + cost_txs txs
cost-settle T c blk tx none is txs = omega arith
cost-settle T c blk tx (some out) is txs = omega arith

cost-look_up :
    (T : ConnectedBlock) (c : ℕ) (blk : T.Blk) (tx : T.tx.Tx) (input : TxIn) (found : Option ℕ)
    (is : List TxIn) (txs : List Transaction)
    → cost {T = T} c (look_up blk tx input found is txs) ≤ 4 + 3 * length is + cost_txs txs
cost-look_up T c blk tx input none is txs = omega arith
cost-look_up T c blk tx input (some a) is txs = omega arith

abbrev pub task_cost : Task → ℕ
task_cost todo = 1
task_cost _ = 0

module _ (x : External) (checks : Bool) (T : ConnectedBlock) where
  comes_to :
      (c bound : ℕ) (sh sh' : Shared T.tx.Out) (w w' : Worker T)
      → cost c w < bound
      → ◌≡◌ {A = Outcome (Shared T.tx.Out × Worker T)} (ok (sh, w)) (ok (sh', w'))
      → cost c w' < bound
  comes_to c bound sh sh' w w' less runs = let same : w ≡ w' = cc runs in rw (← same) less

  -- A thread that goes on has less before it.
  pub cost-advance :
      (c : ℕ) (sh sh' : Shared T.tx.Out) (w w' : Worker T)
      → is_active w ≡ true
      → advance x checks T sh w ≡ ok (sh', w')
      → cost c w' < cost c w
  unfolding advance
  cost-advance c sh sh' waiting w' active runs = cc active
  cost-advance c sh sh' (done blk) w' active runs = cc active
  cost-advance c sh sh' failed w' active runs = cc active
  cost-advance c sh sh' (between blk []) w' active runs =
      comes_to c _ sh sh' (done blk) w' (omega arith) runs
  cost-advance c sh sh' (between blk (tx ∷ txs)) w' active runs =
      let (blank, begins, goes) = >>=-eq-ok (T.tx.from tx) _ runs in
      comes_to c _ sh sh' (inside blk blank tx.input txs) w' (omega arith) goes
  cost-advance c sh sh' (inside blk tx [] txs) w' active runs =
      comes_to c _ sh sh' (between (T.add_tx blk tx) txs) w' (omega arith) runs
  cost-advance c sh sh' (inside blk tx (input ∷ is) txs) w' active runs =
      elim (Bool-cases (x.is_null input.previous_output)) [
        | inl null ↦ comes_to c _ sh sh' (inside blk tx is txs) w' (omega arith) (rw null at runs)
        | inr spent ↦
            let found = Map.get sh.unspent input.previous_output.txid in
            let low = cost-look_up T c blk tx input found is txs in
            comes_to c _ sh sh' (look_up blk tx input found is txs) w' (omega arith)
              (rw spent at runs)
      ]
  cost-advance c sh sh' (with_arc blk tx input a is txs) w' active runs =
      let (taken, removes, goes) =
        >>=-eq-ok (remove checks (sh.arcs a) input.previous_output.vout) _ runs in
      let txid = input.previous_output.txid in
      elim (Bool-cases (is_empty taken.1)) [
        | inl empty ↦
            comes_to c _ (write_arc sh a taken.1) sh' (emptied blk tx taken.0 txid a is txs) w'
              (omega arith) (rw empty at goes)
        | inr outputs_left ↦
            let low = cost-settle T c blk tx taken.0 is txs in
            comes_to c _ (write_arc sh a taken.1) sh' (settle blk tx taken.0 is txs) w'
              (omega arith) (rw outputs_left at goes)
      ]
  cost-advance c sh sh' (emptied blk tx out txid a is txs) w' active runs =
      let low = cost-settle T c blk tx out is txs in
      comes_to c _ (drop_entry sh txid) sh' (settle blk tx out is txs) w' (omega arith) runs
