-- ===== src/Iter.antt =====
-- src/iter/block_iter.rs: iteration over blocks. The crate par_iter_sync, which reads ahead with worker
-- threads, is a parameter.
pub mod Order
use rusty_bitcoin_explorer.Common.{
  ℕ, zero, suc, ◌+◌, ◌-◌, ◌≡◌, Option, none, some, List, [], ◌∷◌, All, leb, if◌then◌else◌,
}
use rusty_bitcoin_explorer.Common.{Bool}
use rusty_bitcoin_explorer.Error.{Outcome, ok, err, panic, stuck}
use rusty_bitcoin_explorer.External.{External, Block}
use rusty_bitcoin_explorer.Reader.{Read, ReadExact}
use rusty_bitcoin_explorer.Xor.{Seek}
use rusty_bitcoin_explorer.Xor.Laws.{xor_read}
use rusty_bitcoin_explorer.BlkFile.{FileSystem}
use rusty_bitcoin_explorer.Api.{BitcoinDb, get_block}

-- The results up to the first failure.
abbrev pub until_failure : {A B : Type 0} → (A → Option B) → List A → List B
until_failure f [] = []
until_failure f (a ∷ as_) = elim (f a) [ none ↦ [] | some b ↦ b ∷ until_failure f as_ ]

-- `into_par_iter_sync(f)`: what the iterator still has to give, for the tasks and a function that may
-- fail (`none` is `Err(())`). The crate promises the results in the order of the tasks, up to the first
-- failure; it is asked of functions that do not panic.
pub record ParIterSync : Type 1 where
  pub into_par_iter_sync : (A B : Type 0) → (A → Outcome (Option B)) → List A → List B
  pub in_order :
      (A B : Type 0) (f : A → Outcome (Option B)) (g : A → Option B) (as_ : List A)
      → All (λ a. f a ≡ ok (g a)) as_
      → into_par_iter_sync A B f as_ ≡ until_failure g as_

-- `result.map_err(|_| ())`
abbrev pub drop_error : {B : Type 0} → Outcome B → Outcome (Option B)
drop_error (ok b) = ok (some b)
drop_error (err e) = ok none
drop_error panic = panic
drop_error stuck = stuck

-- `BlockIter`, by what it still has to give.
pub record BlockIter (B : Type 0) : Type 0 where
  pub inner : List B

-- `start..start + n`
unfoldable pub range : ℕ → ℕ → List ℕ
range start zero = []
range start (suc n) = start ∷ range (start + 1) n

module _ {B : Type 0} where
  abbrev next_inner : List B → Option B × BlockIter B
  next_inner [] = (none, record { inner = [] })
  next_inner (b ∷ bs) = (some b, record { inner = bs })

  unfoldable pub next : BlockIter B → Option B × BlockIter B
  next it = next_inner it.inner

module _ {F : Type 0} (x : External) (checks : Bool) (fs : FileSystem F) (r : Read F) (k : Seek F)
    (exact : ReadExact (xor_read r)) (par : ParIterSync) where
  unfoldable pub new : {B : Type 0} → (Block → Outcome B) → BitcoinDb → List ℕ → BlockIter B
  new {B} into db heights = record {
    inner =
        par.into_par_iter_sync ℕ B (λ h. drop_error (get_block x checks fs r k exact into db h))
          heights;
  }

  unfoldable pub from_range : {B : Type 0} → (Block → Outcome B) → BitcoinDb → ℕ → ℕ → BlockIter B
  unfolding new range
  from_range into db start end =
      if leb end start then new into db [] else new into db (range start (end - start))

  -- The methods of `BitcoinDB`.
  unfoldable pub block_iter : {B : Type 0} → (Block → Outcome B) → BitcoinDb → ℕ → ℕ → BlockIter B
  unfolding from_range
  block_iter into db start end = from_range into db start end

  unfoldable pub iter_heights :
      {B : Type 0} → (Block → Outcome B) → BitcoinDb → List ℕ → BlockIter B
  unfolding new
  iter_heights into db heights = new into db heights
