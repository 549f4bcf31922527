-- ===== src/Iter/Order.antt =====
-- The iterators give the blocks in order, and stop at the first that cannot be read.
use rusty_bitcoin_explorer.Common.{
  ℕ, zero, suc, ◌+◌, ◌-◌, ◌≡◌, ◌≤◌, ◌⊎◌, inl, inr, refl, sym, ap, ◌∙◌, Bool, Option, none, some,
  List, [], ◌∷◌, All, length, get_elem?, get_elem?-lt, ◌<◌, leb, arith, Bool-cases, Option-cases,
}
use rusty_bitcoin_explorer.Error.{Error, Outcome, ok, err, panic, stuck}
use rusty_bitcoin_explorer.External.{External, Block}
use rusty_bitcoin_explorer.Reader.{Read, ReadExact}
use rusty_bitcoin_explorer.Xor.{Seek}
use rusty_bitcoin_explorer.Xor.Laws.{xor_read}
use rusty_bitcoin_explorer.BlkFile.{FileSystem}
use rusty_bitcoin_explorer.Api.{BitcoinDb, get_block}
use rusty_bitcoin_explorer.Iter.{
  until_failure, ParIterSync, drop_error, BlockIter, range, next, block_iter, iter_heights,
}

abbrev pub given : {B : Type 0} → Option B → List B → List B
given none rest = []
given (some b) rest = b ∷ rest

-- All that `next` gives until it gives nothing, in at most `fuel` calls.
abbrev pub drain : {B : Type 0} → ℕ → BlockIter B → List B
drain zero it = []
drain (suc fuel) it = let (o, it') = next it in given o (drain fuel it')

drain-inner :
    {B : Type 0} (fuel : ℕ) (bs : List B)
    → length bs ≤ fuel
    → drain fuel (record { inner = bs }) ≡ bs
unfolding next
drain-inner zero [] h = refl
drain-inner zero (b ∷ bs) h = absurd (omega arith)
drain-inner (suc fuel) [] h = refl
drain-inner (suc fuel) (b ∷ bs) h = ap (◌∷◌ b) (drain-inner fuel bs (omega arith))

-- A run of `read` over the heights: the results in order, and then its end.
pub record Delivers {B : Type 0} (read : ℕ → Outcome B) (hs : List ℕ) (bs : List B) : Type 0 where
  pub in_order :
      (i : ℕ) (b : B)
      → get_elem? bs i ≡ some b
      → (h : ℕ) × (get_elem? hs i ≡ some h) × (read h ≡ ok b)
  pub stops :
      (length bs ≡ length hs)
      ⊎ ((h : ℕ) × (e : Error) × (get_elem? hs (length bs) ≡ some h) × (read h ≡ err e))

-- The reading ends with a result or an error.
abbrev pub Ends : {B : Type 0} → Outcome B → Type 0
Ends {B} o = ((b : B) × (o ≡ ok b)) ⊎ ((e : Error) × (o ≡ err e))

abbrev result_of : {B : Type 0} → Outcome B → Option B
result_of (ok b) = some b
result_of _ = none

module _ {B : Type 0} (read : ℕ → Outcome B) where
  length-until_failure : (g : ℕ → Option B) (hs : List ℕ) → length (until_failure g hs) ≤ length hs
  length-until_failure g [] = omega arith
  length-until_failure g (h ∷ hs) = elim (Option-cases (g h)) [
    | inl fails ↦ rw (fails, until_failure) (omega arith)
    | inr (b, reads) ↦ rw (reads, until_failure) (omega (arith, length-until_failure g hs))
  ]

  drop_error-result_of : (o : Outcome B) → Ends o → drop_error o ≡ ok (result_of o)
  drop_error-result_of (ok b) e = refl
  drop_error-result_of (err d) e = refl
  drop_error-result_of panic (inl (b, e)) = cc e
  drop_error-result_of panic (inr (d, e)) = cc e
  drop_error-result_of stuck (inl (b, e)) = cc e
  drop_error-result_of stuck (inr (d, e)) = cc e

  All-drop_error :
      (hs : List ℕ)
      → All (λ h. Ends (read h)) hs
      → All (λ h. drop_error (read h) ≡ ok (result_of (read h))) hs
  All-drop_error [] e = tt
  All-drop_error (h ∷ hs) (e, es) = (drop_error-result_of (read h) e, All-drop_error hs es)

  -- One result more at the front.
  Delivers-cons :
      (h : ℕ) (b : B) (hs : List ℕ) (bs : List B)
      → read h ≡ ok b
      → Delivers read hs bs
      → Delivers read (h ∷ hs) (b ∷ bs)
  Delivers-cons h b hs bs reads d = record {
    in_order = in_order_cons;
    stops = elim d.stops [
      | inl all ↦ inl (ap suc all)
      | inr (h', e, at, fails) ↦ inr (h', e, at, fails)
    ];
  }
    where
      in_order_cons :
          (i : ℕ) (c : B)
          → get_elem? (b ∷ bs) i ≡ some c
          → (h' : ℕ) × (get_elem? (h ∷ hs) i ≡ some h') × (read h' ≡ ok c)
      in_order_cons zero c at = let same : b ≡ c = cc at in (h, refl, reads ∙ ap ok same)
      in_order_cons (suc i) c at = d.in_order i c at

  until_failure-Delivers :
      (hs : List ℕ)
      → All (λ h. Ends (read h)) hs
      → Delivers read hs (until_failure (λ h. result_of (read h)) hs)
  until_failure-Delivers [] es = record { in_order = λ i b at. cc at; stops = inl refl }
  until_failure-Delivers (h ∷ hs) (inr (e, fails), es) =
      rw (fails, until_failure)
        (record { in_order = λ i b at. cc at; stops = inr (h, e, refl, fails) })
  until_failure-Delivers (h ∷ hs) (inl (b, reads), es) =
      rw (reads, until_failure)
        (Delivers-cons h b hs (until_failure (λ h. result_of (read h)) hs) reads
          (until_failure-Delivers hs es))

get_elem?-range : (start n i : ℕ) {h : ℕ} → get_elem? (range start n) i ≡ some h → h ≡ start + i
unfolding range
get_elem?-range start zero i e = cc e
get_elem?-range start (suc n) zero {h} e = let same : start ≡ h = cc e in omega arith
get_elem?-range start (suc n) (suc i) e = omega (arith, get_elem?-range (start + 1) n i e)

length-range : (start n : ℕ) → length (range start n) ≡ n
unfolding range
length-range start zero = refl
length-range start (suc n) = ap suc (length-range (start + 1) n)

-- The heights of a range are those from `start` on, below `end`.
pub record DeliversRange {B : Type 0} (read : ℕ → Outcome B) (start end : ℕ) (bs : List B)
    : Type 0 where
  pub in_order :
      (i : ℕ) (b : B) → get_elem? bs i ≡ some b → (start + i < end) × (read (start + i) ≡ ok b)
  pub stops :
      (end ≤ start + length bs)
      ⊎ ((e : Error) × (start + length bs < end) × (read (start + length bs) ≡ err e))

DeliversRange-of :
    {B : Type 0} (read : ℕ → Outcome B) (start end : ℕ) (bs : List B)
    → Delivers read (range start (end - start)) bs
    → DeliversRange read start end bs
DeliversRange-of read start end bs d = record {
  in_order = λ i b at.
      let (h, at_h, reads) = d.in_order i b at in
      let is = get_elem?-range start (end - start) i at_h in
      let below = get_elem?-lt (range start (end - start)) i at_h in
      (omega (arith, length-range start (end - start)), ap read (sym is) ∙ reads);
  stops = elim d.stops [
    | inl all ↦ inl (omega (arith, length-range start (end - start)))
    | inr (h, e, at, fails) ↦
        let is = get_elem?-range start (end - start) (length bs) at in
        let below = get_elem?-lt (range start (end - start)) (length bs) at in
        inr (e, omega (arith, length-range start (end - start)), ap read (sym is) ∙ fails)
  ];
}

module _ {F : Type 0} (x : External) (checks : Bool) (fs : FileSystem F) (r : Read F) (k : Seek F)
    (exact : ReadExact (xor_read r)) (par : ParIterSync) where
  -- Iteration over a list of heights gives their blocks in the order of the list, and ends after the
  -- last, or at the first height whose block cannot be read; no more calls of `next` than there are
  -- heights give all of them.
  pub iter_heights-Delivers :
      {B : Type 0} (into : Block → Outcome B) (db : BitcoinDb) (hs : List ℕ) (fuel : ℕ)
      → All (λ h. Ends (get_block x checks fs r k exact into db h)) hs
      → length hs ≤ fuel
      → Delivers
          (get_block x checks fs r k exact into db)
          hs
          (drain fuel (iter_heights x checks fs r k exact par into db hs))
  unfolding iter_heights
  iter_heights-Delivers {B} into db hs fuel es enough =
      let read = get_block x checks fs r k exact into db in
      let g = λ (h : ℕ). result_of (read h) in
      let order = par.in_order ℕ B (λ h. drop_error (read h)) g hs (All-drop_error read hs es) in
      let all =
        drain-inner fuel (until_failure g hs) (omega (arith, length-until_failure read g hs)) in
      rw (order, all) (until_failure-Delivers read hs es)

  -- Iteration from `start` to `end` gives the blocks of the heights from `start` on, in order and each
  -- once, and ends before `end`, or at the first height whose block cannot be read; no more calls of
  -- `next` than there are heights give all of them.
  pub block_iter-DeliversRange :
      {B : Type 0} (into : Block → Outcome B) (db : BitcoinDb) (start end fuel : ℕ)
      → All (λ h. Ends (get_block x checks fs r k exact into db h)) (range start (end - start))
      → end - start ≤ fuel
      → DeliversRange
          (get_block x checks fs r k exact into db)
          start
          end
          (drain fuel (block_iter x checks fs r k exact par into db start end))
  unfolding block_iter iter_heights
  block_iter-DeliversRange into db start end fuel es enough =
      let read = get_block x checks fs r k exact into db in
      let whole =
        iter_heights-Delivers into db (range start (end - start)) fuel es
          (omega (arith, length-range start (end - start))) in
      let none_left = iter_heights-Delivers into db [] fuel tt (omega arith) in
      elim (Bool-cases (leb end start)) [
        | inr some_left ↦ rw some_left (DeliversRange-of read start end _ whole)
        | inl empty ↦
            let no_height : end - start ≡ 0 = ground arith in
            rw empty (DeliversRange-of read start end _ (rw no_height none_left))
      ]
