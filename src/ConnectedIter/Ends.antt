-- ===== src/ConnectedIter/Ends.antt =====
-- The two stages come to an end.
use rusty_bitcoin_explorer.Common.{
  ℕ, suc, ◌+◌, ◌*◌, ◌-◌, ◌≡◌, ◌≤◌, ◌<◌, inl, inr, refl, sym, ◌∙◌, Bool, true, false, [], ◌∷◌, ◌++◌,
  length, ◌==◌, arith, Bool-cases, length-append, ltb,
}
use rusty_bitcoin_explorer.Common.Map.{nat_key}
use rusty_bitcoin_explorer.Error.{Outcome, ok}
use rusty_bitcoin_explorer.External.{External, Block}
use rusty_bitcoin_explorer.Connected.{ConnectedBlock}
use rusty_bitcoin_explorer.SharedUtxo.{Shared, put}
use rusty_bitcoin_explorer.ConnectedIter.{
  Task, todo, unreadable, fetched, Worker, waiting, done, begin, Pipeline, is_active, advance,
  add_entries, Step, updates, misses, starts, works, gives, Reach, here, next, new,
}
use rusty_bitcoin_explorer.ConnectedIter.Cost.{
  total, total-put, total-add, total-const, cost_read, cost, task_cost, cost-advance,
}

module _ (x : External) (checks : Bool) (T : ConnectedBlock) where
  module _ (reads : ℕ → Outcome Block) (end : ℕ) where
    -- What was read lies below the end, and what was handed out was read.
    record IsWithin (p : Pipeline T) : Type 0 where
      below : (h : ℕ) (block : Block) → p.tasks h ≡ fetched block → h < end
      readable : (h : ℕ) (block : Block) → p.tasks h ≡ fetched block → reads h ≡ ok block
      rests : (j : ℕ) → p.started ≤ j → p.workers j ≡ waiting
      started_below : p.started ≤ end
      given_below : length p.given ≤ p.started

    -- The steps that are left, at most.
    abbrev measure : Pipeline T → ℕ
    measure p =
        total end (λ h. task_cost (p.tasks h))
        + total end (λ j. cost (cost_read (reads j)) (p.workers j))
        + (end - length p.given)

    abbrev Less : Pipeline T → Pipeline T → Type 0
    Less q p = IsWithin q × (measure q < measure p)

    tasks-Less :
        (p : Pipeline T) (sh : Shared T.tx.Out) (h : ℕ) (t : Task)
        → h < end
        → p.tasks h ≡ todo
        → ((block : Block) → t ≡ fetched block → reads h ≡ ok block)
        → task_cost t ≡ 0
        → IsWithin p
        → Less (record p { shared = sh; tasks = put h t p.tasks }) p
    tasks-Less p sh h t low open_ loaded free w = (
      record {
        below = λ i block at. elim (Bool-cases (h == i)) [
          | inl same ↦ ground arith
          | inr differs ↦ w.below i block (rw differs at at)
        ];
        readable = λ i block at. elim (Bool-cases (h == i)) [
          | inl same ↦ let eq : h ≡ i = ground arith in rw (← eq) (loaded block (rw same at at))
          | inr differs ↦ w.readable i block (rw differs at at)
        ];
        rests = w.rests;
        started_below = w.started_below;
        given_below = w.given_below;
      },
      let self : (h == h) ≡ true = ground arith in
          let saved : task_cost (put h t p.tasks h) + 1 ≤ task_cost (p.tasks h) =
            rw (self, open_, free) (omega arith) in
          let less =
            total-put end h 1 (λ i. task_cost (put h t p.tasks i)) (λ i. task_cost (p.tasks i)) low
              saved (λ i differs. rw differs refl) in
          omega arith,
    )

    starts-Less :
        (p : Pipeline T) (block : Block)
        → p.tasks p.started ≡ fetched block
        → IsWithin p
        → Less
            (record p {
              workers = put p.started (begin x checks T block) p.workers;
              started = suc p.started;
            })
            p
    unfolding begin
    starts-Less p block got w =
        let spent = w.readable p.started block got in
        let low = w.below p.started block got in
        let self : (p.started == p.started) ≡ true = ground arith in
        let first = w.rests p.started (omega arith) in
        let saved : cost (cost_read (reads p.started))
                (put p.started (begin x checks T block) p.workers p.started)
              + 1
            ≤ cost (cost_read (reads p.started)) (p.workers p.started) =
          rw (self, first, spent) (omega arith) in
        let less =
          total-put end p.started 1
            (λ j. cost (cost_read (reads j)) (put p.started (begin x checks T block) p.workers j))
            (λ j. cost (cost_read (reads j)) (p.workers j)) low saved
            (λ i differs. rw differs refl) in
        (
          record {
            below = w.below;
            readable = w.readable;
            rests = λ j after.
                let differs : (p.started == j) ≡ false = ground arith in
                rw differs (w.rests j (omega arith));
            started_below = omega arith;
            given_below = omega (arith, w.given_below);
          },
          omega arith,
        )

    works-Less :
        (p : Pipeline T) (j : ℕ) (sh : Shared T.tx.Out) (w : Worker T)
        → is_active (p.workers j) ≡ true
        → advance x checks T p.shared (p.workers j) ≡ ok (sh, w)
        → IsWithin p
        → Less (record p { shared = sh; workers = put j w p.workers }) p
    works-Less p j sh w' active runs w = elim (Bool-cases (ltb j p.started)) [
      | inr after ↦ let rest = w.rests j (ground arith) in cc (rw rest at active)
      | inl before ↦
          let low : j < end = let bound = w.started_below in ground arith in
          let self : (j == j) ≡ true = ground arith in
          let less_left =
            cost-advance x checks T (cost_read (reads j)) p.shared sh (p.workers j) w' active
              runs in
          let saved : cost (cost_read (reads j)) (put j w' p.workers j) + 1
              ≤ cost (cost_read (reads j)) (p.workers j) =
            rw self (omega arith) in
          let less =
            total-put end j 1 (λ i. cost (cost_read (reads i)) (put j w' p.workers i))
              (λ i. cost (cost_read (reads i)) (p.workers i)) low saved
              (λ i differs. rw differs refl) in
          (
            record {
              below = w.below;
              readable = w.readable;
              rests = λ i after.
                  let differs : (j == i) ≡ false = ground arith in rw differs (w.rests i after);
              started_below = w.started_below;
              given_below = w.given_below;
            },
            omega arith,
          )
    ]

    gives-Less :
        (p : Pipeline T) (blk : T.Blk)
        → p.workers (length p.given) ≡ done blk
        → IsWithin p
        → Less (record p { given = p.given ++ blk ∷ [] }) p
    gives-Less p blk finished w =
        let begun : length p.given < p.started =
          elim (Bool-cases (ltb (length p.given) p.started)) [
            | inl before ↦ ground arith
            | inr after ↦
                let rest = w.rests (length p.given) (ground arith) in
                let both : waiting ≡ done blk = sym rest ∙ finished in cc both
          ] in
        let longer = length-append p.given (blk ∷ []) in
        let bound = w.started_below in
        (
          record {
            below = w.below;
            readable = w.readable;
            rests = w.rests;
            started_below = w.started_below;
            given_below = omega (arith, longer);
          },
          omega (arith, longer),
        )

    Step-Less : {p q : Pipeline T} → IsWithin p → Step x checks T reads end p q → Less q p
    Step-Less w (updates p h block entries low open_ reads_h makes) =
        tasks-Less p (add_entries p.shared entries) h (fetched block) low open_
          (λ b same. let eq : block ≡ b = cc same in rw (← eq) reads_h) refl w
    Step-Less w (misses p h e low open_ fails) =
        tasks-Less p p.shared h unreadable low open_ (λ b same. cc same) refl w
    Step-Less w (starts p block got) = starts-Less p block got w
    Step-Less w (works p j sh w' active runs) = works-Less p j sh w' active runs w
    Step-Less w (gives p blk finished) = gives-Less p blk finished w

    -- The number of steps that were made.
    unfoldable pub steps : {p : Pipeline T} → Reach x checks T reads end p → ℕ
    steps here = 0
    steps (next r s) = suc (steps r)

    new-IsWithin : IsWithin (new T)
    unfolding new
    new-IsWithin = record {
      below = λ h block at. cc at;
      readable = λ h block at. cc at;
      rests = λ j after. refl;
      started_below = omega arith;
      given_below = omega arith;
    }

    measure-new : measure (new T) ≡ 4 * end + total end (λ h. cost_read (reads h))
    unfolding new
    measure-new =
        let ones = total-const end 1 in
        let twos = total-const end 2 in
        let sum = total-add end (λ h. 2) (λ h. cost_read (reads h)) in omega arith

    Reach-IsWithin :
        {p : Pipeline T} (r : Reach x checks T reads end p)
        → IsWithin p × (steps r + measure p ≤ measure (new T))
    unfolding steps
    Reach-IsWithin here = (new-IsWithin, omega arith)
    Reach-IsWithin (next r s) =
        let (w, bound) = Reach-IsWithin r in let (w', less) = Step-Less w s in (w', omega arith)

    -- However the threads interleave, and whatever the blocks are, the iterator comes to an end: it
    -- makes at most 4 steps for each height, and for each transaction that it can read 2, and 3 for each
    -- of its inputs.
    pub steps_bounded :
        {p : Pipeline T} (r : Reach x checks T reads end p)
        → steps r ≤ 4 * end + total end (λ h. cost_read (reads h))
    steps_bounded r = let (w, bound) = Reach-IsWithin r in let first = measure-new in omega arith
