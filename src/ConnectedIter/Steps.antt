-- ===== src/ConnectedIter/Steps.antt =====
-- Every step keeps the invariant.
use rusty_bitcoin_explorer.Common.{
  ℕ, suc, ◌≡◌, ◌<◌, inl, inr, refl, sym, ap, ◌∙◌, Bool, true, [], ◌∷◌, ◌++◌, length, get_elem?-snoc,
  ◌==◌, arith, Bool-cases,
}
use mathlib.Core.Path.{subst}
use rusty_bitcoin_explorer.Error.{Outcome, ok}
use rusty_bitcoin_explorer.External.{External, Hash, Block, TxIn}
use rusty_bitcoin_explorer.Connected.{ConnectedBlock}
use rusty_bitcoin_explorer.SharedUtxo.{Shared, put}
use rusty_bitcoin_explorer.ConnectedIter.{
  Task, todo, fetched, Worker, waiting, done, Pipeline, begin, is_active, advance,
}
use rusty_bitcoin_explorer.ConnectedIter.Chain.{IsChain, finish, remaining}
use rusty_bitcoin_explorer.ConnectedIter.Invariant.{IsConsistent-idle, IsOnCourse, IsInvariant}
use rusty_bitcoin_explorer.ConnectedIter.Work.{Moves}
use rusty_bitcoin_explorer.ConnectedIter.Advance.{advance-Moves}

-- A task that is done stays done when another is.
pub keep :
    (tasks : ℕ → Task) (h i : ℕ) (t : Task) (b : Block)
    → tasks h ≡ todo
    → tasks i ≡ fetched b
    → put h t tasks i ≡ fetched b
keep tasks h i t b open_ got = elim (Bool-cases (h == i)) [
  | inr differs ↦ rw differs got
  | inl same ↦
      let eq : h ≡ i = ground arith in
      let both : todo ≡ fetched b = sym open_ ∙ ap tasks eq ∙ got in cc both
]

module _ (x : External) (checks : Bool) (T : ConnectedBlock) (reads : ℕ → Outcome Block) (end : ℕ)
    (spends : TxIn → T.tx.Out) where
  pub keep-IsOnCourse :
      (tasks : ℕ → Task) (h j pos : ℕ) (t : Task) (w : Worker T)
      → tasks h ≡ todo
      → IsOnCourse x T reads spends tasks j pos w
      → IsOnCourse x T reads spends (put h t tasks) j pos w
  keep-IsOnCourse tasks h j pos t w open_ c = record {
    block = c.block;
    got = keep tasks h j t c.block open_ c.got;
    comes = c.comes;
    left = c.left;
    input = c.input;
  }

  module _ (chain : IsChain x T reads spends) (p : Pipeline T)
      (inv : IsInvariant x T reads spends p) where
    moved :
        (j : ℕ)
        → j < p.started
        → (m : Moves x checks T reads spends p inv.pos j (p.workers j))
        → IsInvariant x T reads spends (record p { shared = m.sh'; workers = put j m.w' p.workers })
    moved j begun m = record {
      pos = put j m.pos' inv.pos;
      consistent = m.consistent;
      readable = inv.readable;
      missing = inv.missing;
      owners = λ a below.
          let (h, block, i, tx, got, at, owner) =
            inv.owners a (subst (λ n. a < n) m.same_arcs below) in
          (h, block, i, tx, got, at, ap (λ (o : ℕ → Hash). o a) m.same_owner ∙ owner);
      reached = inv.reached;
      worker = λ i. elim (Bool-cases (j == i)) [
        | inl same ↦
            let eq : j ≡ i = ground arith in
            rw same (
              inr (
                rw (← eq) begun,
                subst (λ k. IsOnCourse x T reads spends p.tasks k m.pos' m.w') eq m.course,
              ))
        | inr differs ↦ rw differs (inv.worker i)
      ];
      available = m.available;
      delivered = inv.delivered;
    }

    pub works-IsInvariant :
        (j : ℕ) (sh : Shared T.tx.Out) (w : Worker T)
        → is_active (p.workers j) ≡ true
        → advance x checks T p.shared (p.workers j) ≡ ok (sh, w)
        → IsInvariant x T reads spends (record p { shared = sh; workers = put j w p.workers })
    works-IsInvariant j sh w active runs = elim (inv.worker j) [
      | inl (later, rests, zero_pos) ↦ cc (rw rests at active)
      | inr (begun, course) ↦
          let m =
            advance-Moves x checks T reads spends chain p inv j begun (p.workers j) refl active
              course in
          let one : ok (m.sh', m.w') ≡ ok (sh, w) = sym m.runs ∙ runs in
          let same : ◌≡◌ {A = Shared T.tx.Out × Worker T} (m.sh', m.w') (sh, w) = cc one in
          subst
            (λ (q : Shared T.tx.Out × Worker T).
              IsInvariant x T reads spends
                (record p { shared = q.0; workers = put j q.1 p.workers }))
            same (moved j begun m)
    ]

    pub starts-IsInvariant :
        (block : Block)
        → p.tasks p.started ≡ fetched block
        → IsInvariant x T reads spends (record p {
          workers = put p.started (begin x checks T block) p.workers;
          started = suc p.started;
        })
    unfolding begin finish remaining
    starts-IsInvariant block got = record {
      pos = inv.pos;
      consistent =
          IsConsistent-idle p.shared p.workers p.started (begin x checks T block) refl
            inv.consistent;
      readable = inv.readable;
      missing = inv.missing;
      owners = inv.owners;
      reached = λ h below. elim (Bool-cases (p.started == h)) [
        | inl same ↦ let eq : p.started ≡ h = ground arith in (block, rw (← eq) got)
        | inr differs ↦ inv.reached h (ground arith)
      ];
      worker = λ i. elim (Bool-cases (p.started == i)) [
        | inl same ↦
            let eq : p.started ≡ i = ground arith in
            elim (inv.worker i) [
              | inr (before, c) ↦ absurd (omega (arith, eq))
              | inl (later, rests, zero_pos) ↦
                  rw (same, zero_pos)
                    (inr (
                      omega (arith, eq),
                      record {
                        block = block;
                        got = rw (← eq) got;
                        comes = refl;
                        left = refl;
                        input = tt;
                      },
                    ))
            ]
        | inr differs ↦ elim (inv.worker i) [
          | inl (later, rests, zero_pos) ↦ rw differs (inl (ground arith, rests, zero_pos))
          | inr (before, c) ↦ rw differs (inr (omega arith, c))
        ]
      ];
      available = inv.available;
      delivered = inv.delivered;
    }

    pub gives-IsInvariant :
        (blk : T.Blk)
        → p.workers (length p.given) ≡ done blk
        → IsInvariant x T reads spends (record p { given = p.given ++ blk ∷ [] })
    unfolding finish
    gives-IsInvariant blk finished = record {
      pos = inv.pos;
      consistent = inv.consistent;
      readable = inv.readable;
      missing = inv.missing;
      owners = inv.owners;
      reached = inv.reached;
      worker = inv.worker;
      available = inv.available;
      delivered = λ k b at. elim (get_elem?-snoc p.given blk k at) [
        | inl old ↦ inv.delivered k b old
        | inr (last, is) ↦ elim (inv.worker (length p.given)) [
          | inl (later, rests, zero_pos) ↦
              let both : waiting ≡ done blk = sym rests ∙ finished in cc both
          | inr (begun, c) ↦
              let comes = rw finished at c.comes in
              (
                c.block,
                rw last (inv.readable (length p.given) c.block c.got),
                sym comes ∙ ap ok (sym is),
              )
        ]
      ];
    }
