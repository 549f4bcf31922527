-- ===== src/Error.antt =====
-- src/parser/error.rs: the error enumeration, and the outcome of a fallible computation.
use rusty_bitcoin_explorer.Common.{ℕ, ◌+◌, ◌%◌, ◌^◌, String, Bool, true, false, ◌≡◌, refl, leb}
use rusty_bitcoin_explorer.Common.{if◌then◌else◌, ◌&&◌}
use rusty_bitcoin_explorer.Common.Words.{ℤ}
use rusty_bitcoin_explorer.External.{Hash}

-- A library's own error is carried by its message.
pub data Error : Type 0 where
  bitcoin_data_dir_does_not_exist : String → Error
  empty_block_files : Error
  block_file_not_found : ℤ → Error
  block_index_record_not_found : ℕ → Error
  block_hash_not_found : Hash → Error
  transaction_record_not_found : Hash → Error
  missing_outputs : ℕ → ℕ → Error
  cannot_find_height_for_transaction : Hash → Error
  tx_db_unavailable : Error
  io : String → Error
  bitcoin_io : String → Error
  encode : String → Error
  invalid_hash : String → Error
  leveldb : String → Error
  utf8_error : String → Error
  runtime_error : String → Error
  poison_error : String → Error
  send_error : String → Error

-- `Result<T, Error>` of a computation that may also panic. `stuck` is no Rust value: a loop of the
-- model ran out of fuel.
pub data Outcome {ℓ} (A : Type ℓ) : Type ℓ where
  ok : A → Outcome A
  err : Error → Outcome A
  panic : Outcome A
  stuck : Outcome A

-- The source's `?`.
infixl 5 ◌>>=◌
abbrev pub ◌>>=◌ {ℓ κ} : {A : Type ℓ} {B : Type κ} → Outcome A → (A → Outcome B) → Outcome B
◌>>=◌ stuck next = stuck
◌>>=◌ panic next = panic
◌>>=◌ (err e) next = err e
◌>>=◌ (ok a) next = next a

infixl 5 ◌>>◌
abbrev pub ◌>>◌ {ℓ} : {B : Type ℓ} → Outcome (Unit {0}) → Outcome B → Outcome B
◌>>◌ check next = check >>= λ done. next

-- `assert!(b)`
abbrev pub assert : Bool → Outcome (Unit {0})
assert false = panic
assert true = ok tt

-- Where a bind returns, so did its first part.
pub >>=-eq-ok {ℓ κ} :
    {A : Type ℓ} {B : Type κ} (first : Outcome A) (next : A → Outcome B) {result : B}
    → (first >>= next) ≡ ok result
    → (a : A) × (first ≡ ok a) × (next a ≡ ok result)
>>=-eq-ok stuck next h = cc
>>=-eq-ok panic next h = cc
>>=-eq-ok (err e) next h = cc
>>=-eq-ok (ok a) next h = (a, refl, h)

pub >>=_assoc {ℓ κ μ} :
    {A : Type ℓ} {B : Type κ} {C : Type μ} (m : Outcome A) (f : A → Outcome B) (g : B → Outcome C)
    → ((m >>= f) >>= g) ≡ (m >>= λ a. f a >>= g)
>>=_assoc stuck f g = refl
>>=_assoc panic f g = refl
>>=_assoc (err e) f g = refl
>>=_assoc (ok a) f g = refl

pub >>=_cong {ℓ κ} :
    {A : Type ℓ} {B : Type κ} (m : Outcome A) (f g : A → Outcome B)
    → ((a : A) → f a ≡ g a)
    → (m >>= f) ≡ (m >>= g)
>>=_cong stuck f g h = refl
>>=_cong panic f g h = refl
>>=_cong (err e) f g h = refl
>>=_cong (ok a) f g h = h a

-- `a + b` on u64 or usize. The flag is the build's overflow checks: with them an overflow
-- panics (a debug build), without them the sum wraps (a release build).
unfoldable pub add_u64 : Bool → ℕ → ℕ → Outcome ℕ
add_u64 checks a b = if checks && leb (2 ^ 64) (a + b) then panic else ok ((a + b) % 2 ^ 64)

-- `From` for the errors of other crates, each given by its text, `err.to_string()`.
unfoldable pub from_poison_error : String → Error
from_poison_error text = poison_error text

unfoldable pub from_send_error : String → Error
from_send_error text = send_error text

unfoldable pub from_slice_error : String → Error
from_slice_error text = invalid_hash text

unfoldable pub from_odd_length_string_error : String → Error
from_odd_length_string_error text = invalid_hash text

unfoldable pub from_hex_to_array_error : String → Error
from_hex_to_array_error text = invalid_hash text

unfoldable pub from_hex_to_bytes_error : String → Error
from_hex_to_bytes_error text = invalid_hash text

unfoldable pub from_invalid_char_error : String → Error
from_invalid_char_error text = invalid_hash text
