-- ===== src/Connected/Lists.antt =====
-- Runs of a fallible function along a list: all results, those that are there, and the queue that the
-- loop over a block takes them from.
use rusty_bitcoin_explorer.Common.{
  suc, ◌≡◌, refl, sym, ap, ◌∙◌, Option, none, some, List, [], ◌∷◌, ◌++◌, append_assoc, append-nil,
  length, get_elem?, zero, ℕ, some, arith,
}
use rusty_bitcoin_explorer.Error.{Outcome, ok, >>=-eq-ok}
use rusty_bitcoin_explorer.External.{TxIn, TxOut}
use rusty_bitcoin_explorer.Block.{map_all}
use rusty_bitcoin_explorer.Connected.{cons_some, filter_all, take_outputs}

-- The values that are there.
abbrev pub present : {A : Type 0} → List (Option A) → List A
present [] = []
present (o ∷ os) = cons_some o (present os)

module _ {A B : Type 0} where
  pub filter_all-present :
      (f : A → Outcome (Option B)) (as_ : List A) (os : List (Option B))
      → map_all f as_ ≡ ok os
      → filter_all f as_ ≡ ok (present os)
  unfolding filter_all map_all
  filter_all-present f [] os e = let nothing : [] ≡ os = cc e in rw (← nothing)
  filter_all-present f (a ∷ as_) os e =
      let (o, first, e') = >>=-eq-ok (f a) _ e in
      let (rest, later, e'') = >>=-eq-ok (map_all f as_) (λ (l : List (Option B)). ok (o ∷ l)) e' in
      let all : o ∷ rest ≡ os = cc e'' in
      rw (first, filter_all-present f as_ rest later) (ap (λ l. ok (present l)) all)

  pub map_all-append :
      (f : A → Outcome B) (xs ys : List A) (bs cs : List B)
      → map_all f xs ≡ ok bs
      → map_all f ys ≡ ok cs
      → map_all f (xs ++ ys) ≡ ok (bs ++ cs)
  unfolding map_all
  map_all-append f [] ys bs cs e h = let nothing : [] ≡ bs = cc e in rw (← nothing) h
  map_all-append f (x ∷ xs) ys bs cs e h =
      let (b, first, e') = >>=-eq-ok (f x) _ e in
      let (rest, later, e'') = >>=-eq-ok (map_all f xs) (λ (l : List B). ok (b ∷ l)) e' in
      let all : b ∷ rest ≡ bs = cc e'' in
      rw (first, map_all-append f xs ys rest cs later h) (ap (λ l. ok (l ++ cs)) all)

  pub length-map_all :
      (f : A → Outcome B) (as_ : List A) (bs : List B)
      → map_all f as_ ≡ ok bs
      → length bs ≡ length as_
  unfolding map_all
  length-map_all f [] bs e = let nothing : [] ≡ bs = cc e in rw (← nothing)
  length-map_all f (a ∷ as_) bs e =
      let (b, first, e') = >>=-eq-ok (f a) _ e in
      let (rest, later, e'') = >>=-eq-ok (map_all f as_) (λ (l : List B). ok (b ∷ l)) e' in
      let all : b ∷ rest ≡ bs = cc e'' in
      ap length (sym all) ∙ ap suc (length-map_all f as_ rest later)

  -- A function that always returns does so along a list.
  pub map_all-ok :
      (f : A → Outcome B)
      → ((a : A) → (b : B) × (f a ≡ ok b))
      → (as_ : List A) → (bs : List B) × (map_all f as_ ≡ ok bs)
  unfolding map_all
  map_all-ok f total [] = ([], refl)
  map_all-ok f total (a ∷ as_) =
      let (b, first) = total a in
      let (bs, rest) = map_all-ok f total as_ in (b ∷ bs, rw (first, rest))

-- The results stand at the places of what they are results of.
module _ {A B : Type 0} (f : A → Outcome B) where
  pub get_elem?-map_all :
      (as_ : List A) (bs : List B) (i : ℕ) (a : A)
      → map_all f as_ ≡ ok bs
      → get_elem? as_ i ≡ some a
      → (b : B) × (get_elem? bs i ≡ some b) × (f a ≡ ok b)
  unfolding map_all
  get_elem?-map_all [] bs i a e at = cc at
  get_elem?-map_all (c ∷ cs) bs zero a e at =
      let (b, first, e') = >>=-eq-ok (f c) _ e in
      let (rest, later, e'') = >>=-eq-ok (map_all f cs) (λ (l : List B). ok (b ∷ l)) e' in
      let all : b ∷ rest ≡ bs = cc e'' in
      let same : c ≡ a = cc at in (b, ap (λ l. get_elem? l 0) (sym all), ap f (sym same) ∙ first)
  get_elem?-map_all (c ∷ cs) bs (suc i) a e at =
      let (b, first, e') = >>=-eq-ok (f c) _ e in
      let (rest, later, e'') = >>=-eq-ok (map_all f cs) (λ (l : List B). ok (b ∷ l)) e' in
      let all : b ∷ rest ≡ bs = cc e'' in
      let (b', there, runs) = get_elem?-map_all cs rest i a later at in
      (b', ap (λ l. get_elem? l (suc i)) (sym all) ∙ there, runs)

  pub get_elem?-map_all_inverse :
      (as_ : List A) (bs : List B) (i : ℕ) (b : B)
      → map_all f as_ ≡ ok bs
      → get_elem? bs i ≡ some b
      → (a : A) × (get_elem? as_ i ≡ some a) × (f a ≡ ok b)
  unfolding map_all
  get_elem?-map_all_inverse [] bs i b e at =
      let nothing : [] ≡ bs = cc e in cc (rw (← nothing) at at)
  get_elem?-map_all_inverse (c ∷ cs) bs zero b e at =
      let (d, first, e') = >>=-eq-ok (f c) _ e in
      let (rest, later, e'') = >>=-eq-ok (map_all f cs) (λ (l : List B). ok (d ∷ l)) e' in
      let all : d ∷ rest ≡ bs = cc e'' in
      let same : d ≡ b = cc (ap (λ l. get_elem? l 0) all ∙ at) in (c, refl, first ∙ ap ok same)
  get_elem?-map_all_inverse (c ∷ cs) bs (suc i) b e at =
      let (d, first, e') = >>=-eq-ok (f c) _ e in
      let (rest, later, e'') = >>=-eq-ok (map_all f cs) (λ (l : List B). ok (d ∷ l)) e' in
      let all : d ∷ rest ≡ bs = cc e'' in
      get_elem?-map_all_inverse cs rest i b later (ap (λ l. get_elem? l (suc i)) all ∙ at)

-- The loop takes the entries of a transaction's inputs off the queue.
pub take_outputs-present :
    (is : List TxIn) (os rest : List (Option TxOut)) (outputs : List TxOut)
    → length os ≡ length is
    → take_outputs is (os ++ rest) outputs ≡ ok (outputs ++ present os, rest)
unfolding take_outputs
take_outputs-present [] [] rest outputs h = rw append-nil
take_outputs-present [] (o ∷ os) rest outputs h = absurd (omega arith)
take_outputs-present (i ∷ is) [] rest outputs h = absurd (omega arith)
take_outputs-present (i ∷ is) (none ∷ os) rest outputs h =
    take_outputs-present is os rest outputs (omega arith)
take_outputs-present (i ∷ is) (some out ∷ os) rest outputs h =
    take_outputs-present is os rest (outputs ++ out ∷ []) (omega arith)
    ∙ ap (λ l. ok (l, rest)) (append_assoc outputs (out ∷ []) (present os))
