-- ===== src/SharedUtxo/Once.antt =====
-- Each output of the shared cache goes to the first input that spends it, and to no other.
use rusty_bitcoin_explorer.Common.{
  ℕ, ◌≡◌, Bool, true, false, Option, none, List, [], ◌∷◌, ◌++◌, All, ◌==◌, ◌&&◌, arith,
}
use rusty_bitcoin_explorer.External.{Hash}
use rusty_bitcoin_explorer.Utxo.{VecMap}
use rusty_bitcoin_explorer.Utxo.Slots.{slot}
use rusty_bitcoin_explorer.Utxo.Contents.{without}
use rusty_bitcoin_explorer.SharedUtxo.{System, Event, quiet, spent, added}
use rusty_bitcoin_explorer.SharedUtxo.Frame.{IsConsistent}
use rusty_bitcoin_explorer.SharedUtxo.Effect.{unspent_of, with_entry}
use rusty_bitcoin_explorer.SharedUtxo.Run.{Run, Explains, Run-Explains}

module _ {T : Type 0} where
  -- The event is not about the output.
  abbrev pub Leaves : Hash → ℕ → Event T → Type 0
  Leaves txid n quiet = Unit
  Leaves txid n (spent t m out) = (t == txid && m == n) ≡ false
  Leaves txid n (added t v) = (t == txid) ≡ false

  kept :
      (u u' : Hash → ℕ → Option T) (txid : Hash) (n : ℕ) (out : Option T) (es es' : List (Event T))
      → All (Leaves txid n) es
      → Explains u (es ++ spent txid n out ∷ es') u'
      → out ≡ u txid n
  kept u u' txid n out [] es' leaves h = h.0
  kept u u' txid n out (quiet ∷ es) es' (here, leaves) h = kept u u' txid n out es es' leaves h
  kept u u' txid n out (spent t m o ∷ es) es' (here, leaves) (is, h) =
      rw here at (kept (without u t m) u' txid n out es es' leaves h)
  kept u u' txid n out (added t v ∷ es) es' (here, leaves) h =
      rw here at (kept (with_entry u t v) u' txid n out es es' leaves h)

  -- The events that follow explain the rest.
  rest_of :
      (u u' : Hash → ℕ → Option T) (es es' : List (Event T))
      → Explains u (es ++ es') u'
      → (u1 : Hash → ℕ → Option T) × Explains u1 es' u'
  rest_of u u' [] es' h = (u, h)
  rest_of u u' (quiet ∷ es) es' h = rest_of u u' es es' h
  rest_of u u' (spent t m o ∷ es) es' (is, h) = rest_of (without u t m) u' es es' h
  rest_of u u' (added t v ∷ es) es' h = rest_of (with_entry u t v) u' es es' h

  -- However the threads interleave, an input that is connected after the transaction that it spends
  -- from was added, with no other input that spends the same output in between, and the transaction
  -- not added once more, gets that output.
  pub spend_gets_output :
      (checks : Bool) (s s' : System T) (txid : Hash) (v : VecMap T) (n : ℕ) (out : Option T)
      (before between after : List (Event T))
      → IsConsistent s
      → All (Leaves txid n) between
      → Run checks s s' (before ++ added txid v ∷ (between ++ spent txid n out ∷ after))
      → out ≡ slot v.inner n
  spend_gets_output checks s s' txid v n out before between after c leaves run =
      let u' = unspent_of s'.shared in
      let es = added txid v ∷ (between ++ spent txid n out ∷ after) in
      let (u, h) =
        rest_of (unspent_of s.shared) u' before es (Run-Explains checks s s' _ c run).0 in
      let self : (txid == txid) ≡ true = ground arith in
      rw self at (kept (with_entry u txid v) u' txid n out between after leaves h)

  -- A second input that spends an output finds nothing, unless its transaction was added once more.
  pub spend_again :
      (checks : Bool) (s s' : System T) (txid : Hash) (n : ℕ) (first second : Option T)
      (before between after : List (Event T))
      → IsConsistent s
      → All (Leaves txid n) between
      → Run checks s s' (before ++ spent txid n first ∷ (between ++ spent txid n second ∷ after))
      → second ≡ none
  spend_again checks s s' txid n first second before between after c leaves run =
      let u' = unspent_of s'.shared in
      let es = spent txid n first ∷ (between ++ spent txid n second ∷ after) in
      let (u, (is, h)) =
        rest_of (unspent_of s.shared) u' before es (Run-Explains checks s s' _ c run).0 in
      let self : (txid == txid && n == n) ≡ true = ground arith in
      rw self at (kept (without u txid n) u' txid n second between after leaves h)
