-- ===== src/SharedUtxo/Run.antt =====
-- However the steps of the threads interleave, each input gets its output at one instant.
use rusty_bitcoin_explorer.Common.{
  ℕ, ◌≡◌, ◌<◌, inl, inr, refl, sym, ◌∙◌, Bool, true, false, Option, none, some, List, [], ◌∷◌, ◌==◌,
  arith, Bool-cases, if◌then◌else◌,
}
use mathlib.Core.Path.{fun_ext}
use rusty_bitcoin_explorer.Common.Map
use rusty_bitcoin_explorer.Common.Map.{nat_key, get-insert, get-remove}
use rusty_bitcoin_explorer.Error.{ok}
use rusty_bitcoin_explorer.External.{Hash}
use rusty_bitcoin_explorer.Utxo.{VecMap, is_empty, remove}
use rusty_bitcoin_explorer.Utxo.Slots.{IsCounted, slot, remove_lem, is_empty-slot}
use rusty_bitcoin_explorer.Utxo.Contents.{without}
use rusty_bitcoin_explorer.SharedUtxo.{
  Shared, idle, holding, dropping, System, Event, quiet, spent, added, put, add_entry, drop_entry,
  write_arc, after_take, Step, missed, found, taken, dropped, adds, IsFresh,
}
use rusty_bitcoin_explorer.SharedUtxo.Frame.{
  IsGone, IsLinked, IsSafe, IsConsistent, IsSafe-of, put-IsSafe, write_arc-IsGone,
  write_arc-IsLinked, drop_entry-IsLinked, add_entry-IsLinked, add_entry_gone,
}
use rusty_bitcoin_explorer.SharedUtxo.Effect.{
  unspent_of, with_entry, HasEffect, gone-without, linked-unspent_of, write_arc-unspent_of,
  drop_entry-unspent_of, add_entry-unspent_of,
}

module _ {T : Type 0} where
  -- The result of a removal, whose arguments count their outputs.
  remove_result :
      (checks : Bool) (v v' : VecMap T) (n : ℕ) (out : Option T)
      → IsCounted v
      → remove checks v n ≡ ok (out, v')
      → (out ≡ slot v.inner n)
        × IsCounted v'
        × ((j : ℕ) → slot v'.inner j ≡ (if n == j then none else slot v.inner j))
  remove_result checks v v' n out c e =
      let (w, runs, counted, slots) = remove_lem checks v n c in
      let same : ok (slot v.inner n, w) ≡ ok (out, v') = sym runs ∙ e in
      let first : slot v.inner n ≡ out = cc same in
      let second : w ≡ v' = cc same in (sym first, rw (← second) counted, rw (← second) slots)

  put-IsCounted :
      (arcs : ℕ → VecMap T) (a : ℕ) (v : VecMap T)
      → ((b : ℕ) → IsCounted (arcs b))
      → IsCounted v
      → (b : ℕ) → IsCounted (put a v arcs b)
  put-IsCounted arcs a v h hv b = elim (Bool-cases (a == b)) [
    | inl same ↦ rw same hv
    | inr differs ↦ rw differs (h b)
  ]

  after_take-IsSafe :
      (sh : Shared T) (txid : Hash) (a : ℕ) (v : VecMap T)
      → IsLinked (write_arc sh a v) txid a
      → IsCounted v
      → IsSafe (write_arc sh a v) (after_take txid a v)
  unfolding after_take write_arc
  after_take-IsSafe sh txid a v l c = elim (Bool-cases (is_empty v)) [
    | inr taken_part ↦ rw taken_part tt
    | inl empty ↦
        let self : (a == a) ≡ true = ground arith in
        rw empty (l, λ n. rw self (is_empty-slot v n c empty))
  ]

  taken_lem :
      (checks : Bool) (s : System T) (i : ℕ) (txid : Hash) (n a : ℕ) (out : Option T) (v : VecMap T)
      → IsConsistent s
      → s.threads i ≡ holding txid n a
      → remove checks (s.shared.arcs a) n ≡ ok (out, v)
      → IsConsistent (record {
        shared = write_arc s.shared a v;
        threads = put i (after_take txid a v) s.threads;
      })
        × HasEffect (unspent_of s.shared) (spent txid n out) (unspent_of (write_arc s.shared a v))
  unfolding write_arc
  taken_lem checks s i txid n a out v c here removes =
      let sh = s.shared in
      let linked : IsLinked sh txid a = rw here at (c.safe i) in
      let (is, counted, slots) = remove_result checks (sh.arcs a) v n out (c.counted a) removes in
      let links = write_arc-IsLinked sh a v n slots in
      (
        record {
          counted = put-IsCounted sh.arcs a v c.counted counted;
          owned = c.owned;
          safe =
              put-IsSafe (write_arc sh a v) s.threads i (after_take txid a v)
                (after_take-IsSafe sh txid a v (links txid a linked) counted)
                (λ j.
                  IsSafe-of sh (write_arc sh a v) links
                    (λ t b l g. write_arc-IsGone sh a v n slots b g) (s.threads j) (c.safe j));
        },
        (
          is ∙ linked-unspent_of sh txid a n linked,
          fun_ext (λ j. fun_ext (λ m. write_arc-unspent_of sh txid a n v linked c.owned slots j m)),
        ),
      )

  dropped_lem :
      (s : System T) (i : ℕ) (txid : Hash) (a : ℕ)
      → IsConsistent s
      → s.threads i ≡ dropping txid a
      → IsConsistent (record { shared = drop_entry s.shared txid; threads = put i idle s.threads })
        × (unspent_of (drop_entry s.shared txid) ≡ unspent_of s.shared)
  unfolding drop_entry
  dropped_lem s i txid a c here =
      let sh = s.shared in
      let (linked, gone) : IsLinked sh txid a × IsGone sh a = rw here at (c.safe i) in
      (
        record {
          counted = c.counted;
          owned = λ j b there. elim (Bool-cases (txid == j)) [
            | inl same ↦ cc (rw (get-remove, same) at there)
            | inr differs ↦ c.owned j b (rw (get-remove, differs) at there)
          ];
          safe = put-IsSafe (drop_entry sh txid) s.threads i idle tt (λ j.
              IsSafe-of sh (drop_entry sh txid) (drop_entry-IsLinked sh txid a linked gone)
                (λ t b l g. g) (s.threads j) (c.safe j));
        },
        fun_ext (λ j. fun_ext (λ m. drop_entry-unspent_of sh txid a linked gone j m)),
      )

  add_entry-owned :
      (sh : Shared T) (txid : Hash) (v : VecMap T)
      → ((j : Hash) (b : ℕ) → Map.get sh.unspent j ≡ some b → (b < sh.next_arc) × (sh.owner b ≡ j))
      → (j : Hash) (b : ℕ) → Map.get (add_entry sh txid v).unspent j ≡ some b
      → (b < (add_entry sh txid v).next_arc) × ((add_entry sh txid v).owner b ≡ j)
  unfolding add_entry
  add_entry-owned sh txid v owned j b there = elim (Bool-cases (txid == j)) [
    | inl same ↦
        let id : txid ≡ j = ground arith in
        let is : some sh.next_arc ≡ some b = rw (get-insert, same) at there in
        let new : sh.next_arc ≡ b = cc is in
        let test : (sh.next_arc == b) ≡ true = ground arith in (omega arith, rw test id)
    | inr differs ↦
        let (below, owner) = owned j b (rw (get-insert, differs) at there) in
        let test : (sh.next_arc == b) ≡ false = ground arith in (omega arith, rw test owner)
  ]

  adds_lem :
      (s : System T) (txid : Hash) (v : VecMap T)
      → IsConsistent s
      → IsFresh s.shared txid
      → IsCounted v
      → IsConsistent (record s { shared = add_entry s.shared txid v })
        × (unspent_of (add_entry s.shared txid v) ≡ with_entry (unspent_of s.shared) txid v)
  unfolding add_entry
  adds_lem s txid v c fresh counted =
      let sh = s.shared in
      (
        record {
          counted = put-IsCounted sh.arcs sh.next_arc v c.counted counted;
          owned = add_entry-owned sh txid v c.owned;
          safe = λ j.
              IsSafe-of sh (add_entry sh txid v) (add_entry-IsLinked sh txid v fresh)
                (add_entry_gone sh txid v fresh) (s.threads j) (c.safe j);
        },
        fun_ext (λ j. fun_ext (λ m. add_entry-unspent_of sh txid v c.owned j m)),
      )

  pub Step-HasEffect :
      (checks : Bool) (s s' : System T) (e : Event T)
      → IsConsistent s
      → Step checks s s' e
      → IsConsistent s' × HasEffect (unspent_of s.shared) e (unspent_of s'.shared)
  Step-HasEffect checks _ _ _ c (missed s i txid n starts missing) =
      let nothing : unspent_of s.shared txid n ≡ none = rw missing refl in
      (c, (sym nothing, gone-without (unspent_of s.shared) txid n nothing))
  Step-HasEffect checks _ _ _ c (found s i txid n a starts there) =
      let (made, owned) = c.owned txid a there in
      (
        record {
          counted = c.counted;
          owned = c.owned;
          safe =
              put-IsSafe s.shared s.threads i (holding txid n a)
                (record { made = made; owned = owned; entry = inl there }) c.safe;
        },
        refl,
      )
  Step-HasEffect checks _ _ _ c (taken s i txid n a out v here removes) =
      taken_lem checks s i txid n a out v c here removes
  Step-HasEffect checks _ _ _ c (dropped s i txid a here) = dropped_lem s i txid a c here
  Step-HasEffect checks _ _ _ c (adds s txid v fresh counted) = adds_lem s txid v c fresh counted

  -- Steps in any order, with what they tell.
  pub data Run (checks : Bool) : System T → System T → List (Event T) → Type 0 where
    stays : (s : System T) → Run checks s s []
    goes :
        (s s' s'' : System T) (e : Event T) (es : List (Event T))
        → Step checks s s' e
        → Run checks s' s'' es
        → Run checks s s'' (e ∷ es)

  -- The events, one after another, lead from one set of outputs to another.
  abbrev pub Explains : (Hash → ℕ → Option T) → List (Event T) → (Hash → ℕ → Option T) → Type 0
  Explains u [] u' = u' ≡ u
  Explains u (quiet ∷ es) u' = Explains u es u'
  Explains u (spent txid n out ∷ es) u' = (out ≡ u txid n) × Explains (without u txid n) es u'
  Explains u (added txid v ∷ es) u' = Explains (with_entry u txid v) es u'

  Explains-cons :
      (u u1 u' : Hash → ℕ → Option T) (e : Event T) (es : List (Event T))
      → HasEffect u e u1
      → Explains u1 es u'
      → Explains u (e ∷ es) u'
  Explains-cons u u1 u' quiet es eq h = rw (← eq) h
  Explains-cons u u1 u' (spent txid n out) es (is, eq) h = (is, rw (← eq) h)
  Explains-cons u u1 u' (added txid v) es eq h = rw (← eq) h

  -- However the steps of the threads interleave, and though a thread spends an output in up to three
  -- steps, the run is explained by events at one instant each: an input gets the output that is
  -- unspent then, and takes just that one out of the cache. The entries that are added are those of
  -- transactions that never had one. Every thread that holds an `Arc` goes on to take its output
  -- without a panic.
  pub Run-Explains :
      (checks : Bool) (s s' : System T) (es : List (Event T))
      → IsConsistent s
      → Run checks s s' es
      → Explains (unspent_of s.shared) es (unspent_of s'.shared)
        × ((i : ℕ) (txid : Hash) (n a : ℕ)
            → s'.threads i ≡ holding txid n a
            → (out : Option T) × (v : VecMap T) × (remove checks (s'.shared.arcs a) n
                ≡ ok (out, v)))
  Run-Explains checks _ _ _ c (stays s) = (
    refl,
    λ i txid n a here.
        let (v, runs, _, _) = remove_lem checks (s.shared.arcs a) n (c.counted a) in
        (slot (s.shared.arcs a).inner n, v, runs),
  )
  Run-Explains checks _ _ _ c (goes s s1 s' e es' step run) =
      let (c1, effect) = Step-HasEffect checks s s1 e c step in
      let (explains, takes) = Run-Explains checks s1 s' es' c1 run in
      (
        Explains-cons (unspent_of s.shared) (unspent_of s1.shared) (unspent_of s'.shared) e es'
            effect explains,
        takes,
      )
