-- ===== src/Tests/Shared.antt =====
-- Two threads that spend one output of the shared cache.
use rusty_bitcoin_explorer.Common.{ℕ, ◌≡◌, refl, true, Option, none, some, List, [], ◌∷◌, arith}
use rusty_bitcoin_explorer.Common.Map
use rusty_bitcoin_explorer.Common.Map.{nat_key}
use rusty_bitcoin_explorer.Error.{ok}
use rusty_bitcoin_explorer.External.{Hash}
use rusty_bitcoin_explorer.Utxo.{VecMap, remove, is_empty, sub_u32}
use rusty_bitcoin_explorer.Utxo.Slots.{slot}
use rusty_bitcoin_explorer.SharedUtxo.{
  idle, holding, System, Event, quiet, spent, added, put, add_entry, write_arc, after_take, Step,
  found, taken, adds,
}
use rusty_bitcoin_explorer.SharedUtxo.Frame.{IsConsistent}
use rusty_bitcoin_explorer.SharedUtxo.Effect.{unspent_of}
use rusty_bitcoin_explorer.SharedUtxo.Run.{Run, stays, goes, Explains, Run-Explains}
use rusty_bitcoin_explorer.SharedUtxo.Once.{spend_gets_output, spend_again}

abbrev at_start : System ℕ
at_start = record {
  shared = record {
    arcs = λ a. record { size = 0; inner = [] };
    owner = λ a. 0;
    next_arc = 0;
    unspent = [];
  };
  threads = λ i. idle;
}

at_start-IsConsistent : IsConsistent at_start
unfolding Map.get
at_start-IsConsistent = record {
  counted = λ a. record { counts = refl; fits = omega arith };
  owned = λ txid a there. cc there;
  safe = λ i. tt;
}

abbrev two : VecMap ℕ
two = record { size = 2; inner = some 10 ∷ some 20 ∷ [] }

abbrev one_left : VecMap ℕ
one_left = record { size = 1; inner = none ∷ some 20 ∷ [] }

abbrev with_two : System ℕ
with_two = record at_start { shared = add_entry at_start.shared 7 two }

abbrev first_holds : System ℕ
first_holds = record with_two { threads = put 0 (holding 7 0 0) with_two.threads }

abbrev first_spent : System ℕ
first_spent = record {
  shared = write_arc first_holds.shared 0 one_left;
  threads = put 0 (after_take 7 0 one_left) first_holds.threads;
}

abbrev second_holds : System ℕ
second_holds = record first_spent { threads = put 1 (holding 7 0 0) first_spent.threads }

abbrev both_spent : System ℕ
both_spent = record {
  shared = write_arc second_holds.shared 0 one_left;
  threads = put 1 (after_take 7 0 one_left) second_holds.threads;
}

abbrev events : List (Event ℕ)
events = added 7 two ∷ quiet ∷ spent 7 0 (some 10) ∷ quiet ∷ spent 7 0 none ∷ []

adds_two : Step true at_start with_two (added 7 two)
adds_two =
    adds at_start 7 two (λ a below. absurd (omega arith))
      (record { counts = refl; fits = omega arith })

two_spends : Run true at_start both_spent events
unfolding add_entry write_arc after_take remove sub_u32 is_empty Map.get Map.insert Map.remove
two_spends = goes at_start with_two both_spent _ _ adds_two (
    goes with_two first_holds both_spent _ _ (found with_two 0 7 0 0 refl refl) (
      goes first_holds first_spent both_spent _ _
        (taken first_holds 0 7 0 0 (some 10) one_left refl refl)
        (goes first_spent second_holds both_spent _ _ (found first_spent 1 7 0 0 refl refl) (
          goes second_holds both_spent both_spent _ _
            (taken second_holds 1 7 0 0 none one_left refl refl) (stays both_spent)))))

Run-Explains_example :
    Explains (unspent_of at_start.shared) events (unspent_of both_spent.shared)
    × ((i : ℕ) (txid : Hash) (n a : ℕ)
        → both_spent.threads i ≡ holding txid n a
        → (out : Option ℕ) × (v : VecMap ℕ) × (remove true (both_spent.shared.arcs a) n
            ≡ ok (out, v)))
Run-Explains_example = Run-Explains true at_start both_spent events at_start-IsConsistent two_spends

spend_gets_output_example : some 10 ≡ slot two.inner 0
spend_gets_output_example =
    spend_gets_output true at_start both_spent 7 two 0 (some 10) [] (quiet ∷ [])
      (quiet ∷ spent 7 0 none ∷ []) at_start-IsConsistent (tt, tt) two_spends

-- What the second thread got.
abbrev second_output : Option ℕ
second_output = none

spend_again_example : second_output ≡ none
spend_again_example =
    spend_again true at_start both_spent 7 0 (some 10) second_output (added 7 two ∷ quiet ∷ [])
      (quiet ∷ []) [] at_start-IsConsistent (tt, tt) two_spends
