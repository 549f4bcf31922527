-- ===== src/Utxo/Inputs.antt =====
-- The inputs of a transaction, spent from the cache and looked up through the transaction index.
use rusty_bitcoin_explorer.Common.{
  ℕ, suc, ◌≡◌, ◌⊎◌, inl, inr, refl, ap, ◌∙◌, Bool, true, false, Option, none, some, List, [], ◌∷◌,
  ◌++◌, length, All, ◌==◌, ◌&&◌, if◌then◌else◌,
}
use mathlib.Core.Path.{fun_ext}
use rusty_bitcoin_explorer.Error.{ok}
use rusty_bitcoin_explorer.External.{External, Hash, TxIn, TxOut}
use rusty_bitcoin_explorer.Reader.{Read, ReadExact}
use rusty_bitcoin_explorer.Xor.{Seek}
use rusty_bitcoin_explorer.Xor.Laws.{xor_read}
use rusty_bitcoin_explorer.BlkFile.{FileSystem, BlkFile}
use rusty_bitcoin_explorer.BlockIndex.{BlockIndex}
use rusty_bitcoin_explorer.TxIndex.{TxDb}
use rusty_bitcoin_explorer.Block.{map_all}
use rusty_bitcoin_explorer.Connected.{ConnectedTx, add_inputs}
use rusty_bitcoin_explorer.Connected.Lists.{present}
use rusty_bitcoin_explorer.Connected.Connect.{connect_input}
use rusty_bitcoin_explorer.Utxo.{Cache, spend_inputs}
use rusty_bitcoin_explorer.Utxo.Contents.{contents, AllCounted, without, spend_lem}

module _ (x : External) where
  abbrev pub IsNull : TxIn → Type 0
  IsNull i = x.is_null i.previous_output ≡ true

  abbrev pub NotNull : TxIn → Type 0
  NotNull i = x.is_null i.previous_output ≡ false

  -- The inputs spend different outputs, unless one spends none.
  abbrev pub Apart : TxIn → TxIn → Type 0
  Apart i j =
      IsNull j
      ⊎ ((i.previous_output.txid == j.previous_output.txid
            && i.previous_output.vout == j.previous_output.vout)
          ≡ false)

  abbrev pub Distinct : List TxIn → Type 0
  Distinct [] = Unit
  Distinct (i ∷ is) = (IsNull i ⊎ All (Apart i) is) × Distinct is

  -- The unspent outputs after an input, and after a list of inputs.
  abbrev pub after : {A : Type 0} → TxIn → (Hash → ℕ → Option A) → Hash → ℕ → Option A
  after i u =
      if x.is_null i.previous_output
      then u
      else without u i.previous_output.txid i.previous_output.vout

  abbrev pub left_over : {A : Type 0} → List TxIn → (Hash → ℕ → Option A) → Hash → ℕ → Option A
  left_over [] u = u
  left_over (i ∷ is) u = left_over is (after i u)

module _ {F : Type 0} (x : External) (checks : Bool) (fs : FileSystem F) (r : Read F) (k : Seek F)
    (exact : ReadExact (xor_read r)) (T : ConnectedTx) (t : TxDb) (idx : BlockIndex)
    (b : BlkFile) where
  -- The cache has the output that the index finds for the input.
  pub record Spendable (u : Hash → ℕ → Option T.Out) (i : TxIn) : Type 0 where
    pub spends : NotNull x i
    pub out : TxOut
    pub converted : T.Out
    pub connects : connect_input x checks fs r k exact t idx b i ≡ ok (some out)
    pub converts : T.into out ≡ ok converted
    pub cached : u i.previous_output.txid i.previous_output.vout ≡ some converted

  abbrev pub Ready : (Hash → ℕ → Option T.Out) → TxIn → Type 0
  Ready u i = IsNull x i ⊎ Spendable u i

  Ready-without :
      (u : Hash → ℕ → Option T.Out) (i j : TxIn)
      → Ready u j
      → Apart x i j
      → Ready (without u i.previous_output.txid i.previous_output.vout) j
  Ready-without u i j (inl empty) apart = inl empty
  Ready-without u i j (inr s) (inl empty) = inl empty
  Ready-without u i j (inr s) (inr apart) = inr (record {
    spends = s.spends;
    out = s.out;
    converted = s.converted;
    connects = s.connects;
    converts = s.converts;
    cached = rw apart s.cached;
  })

  All-Ready :
      (u : Hash → ℕ → Option T.Out) (i : TxIn) (is : List TxIn)
      → All (Ready u) is
      → All (Apart x i) is
      → All (Ready (without u i.previous_output.txid i.previous_output.vout)) is
  All-Ready u i [] h apart = tt
  All-Ready u i (j ∷ is) (h, hs) (apart, aparts) =
      (Ready-without u i j h apart, All-Ready u i is hs aparts)

  pub connect_null :
      (i : TxIn) → IsNull x i → connect_input x checks fs r k exact t idx b i ≡ ok none
  unfolding connect_input
  connect_null i h = rw h

  -- What a run over the inputs of a transaction does, with the inputs `rest` still to come.
  pub record Spent (tx : T.Tx) (is rest : List TxIn) (c : Cache T.Out) : Type 0 where
    pub os : List (Option TxOut)
    pub cache : Cache T.Out
    pub connected : T.Tx
    pub looked_up : map_all (connect_input x checks fs r k exact t idx b) is ≡ ok os
    pub spends : spend_inputs x checks T tx is c ≡ ok (some connected, cache)
    pub adds : add_inputs T tx (present os) ≡ ok connected
    pub counted : AllCounted cache
    pub left : contents cache ≡ left_over x is (contents c)
    pub ready : All (Ready (contents cache)) rest
    pub distinct : Distinct x rest
    pub all_there : All (NotNull x) is → length (present os) ≡ length is
    pub none_there : All (IsNull x) is → present os ≡ []

  pub spend_inputs-Spent :
      (tx : T.Tx) (is rest : List TxIn) (c : Cache T.Out)
      → AllCounted c
      → All (Ready (contents c)) (is ++ rest)
      → Distinct x (is ++ rest)
      → Spent tx is rest c
  unfolding spend_inputs add_inputs map_all
  spend_inputs-Spent tx [] rest c counted ready distinct = record {
    os = [];
    cache = c;
    connected = tx;
    looked_up = refl;
    spends = refl;
    adds = refl;
    counted = counted;
    left = refl;
    ready = ready;
    distinct = distinct;
    all_there = λ h. refl;
    none_there = λ h. refl;
  }
  spend_inputs-Spent tx (i ∷ is) rest c counted (inl empty, ready) (apart, distinct) =
      let s = spend_inputs-Spent tx is rest c counted ready distinct in
      record {
        os = none ∷ s.os;
        cache = s.cache;
        connected = s.connected;
        looked_up = rw (connect_null i empty, s.looked_up);
        spends = rw empty s.spends;
        adds = s.adds;
        counted = s.counted;
        left = rw empty s.left;
        ready = s.ready;
        distinct = s.distinct;
        all_there = λ h. cc (h.0, empty);
        none_there = λ h. s.none_there h.1;
      }
  spend_inputs-Spent tx (i ∷ is) rest c counted (inr p, ready) (inl empty, distinct) =
      absurd (cc (p.spends, empty))
  spend_inputs-Spent tx (i ∷ is) rest c counted (inr p, ready) (inr apart, distinct) =
      let txid = i.previous_output.txid in
      let n = i.previous_output.vout in
      let (c', spends, counted', differ) = spend_lem checks c txid n counted in
      let now : contents c' ≡ without (contents c) txid n =
        fun_ext (λ j. fun_ext (λ m. differ j m)) in
      let ready' : All (Ready (contents c')) (is ++ rest) =
        rw now (All-Ready (contents c) i (is ++ rest) ready apart) in
      let s = spend_inputs-Spent (T.add_input tx p.converted) is rest c' counted' ready' distinct in
      record {
        os = some p.out ∷ s.os;
        cache = s.cache;
        connected = s.connected;
        looked_up = rw (p.connects, s.looked_up);
        spends = rw (p.spends, spends, p.cached) s.spends;
        adds = rw p.converts s.adds;
        counted = s.counted;
        left = rw p.spends (s.left ∙ ap (left_over x is) now);
        ready = s.ready;
        distinct = s.distinct;
        all_there = λ h. ap suc (s.all_there h.1);
        none_there = λ h. cc (h.0, p.spends);
      }
