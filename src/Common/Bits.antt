-- ===== src/Common/Bits.antt =====
-- The masks of the readers as arithmetic. Masks on one byte are tables checked by evaluation.
use rusty_bitcoin_explorer.Common.Tests.{◌==◌, ==_iff, ltb}
use Prim.Native.Nat.{ℕ, zero, suc, ◌+◌, ◌*◌, ◌/◌, ◌%◌, ◌≤◌, ◌<◌, ◌^◌, bit_and, bit_or, bit_xor}
use Prim.Native.Nat.{min, max, digits, bit_or-bitwise, bit_and-bitwise}
use mathlib.Core.Path.{◌≡◌, refl, ◌∙◌}
use mathlib.Core.Bool.{Bool, true, ◌&&◌, ◌||◌}
use native.Mathlib.Omega.{arith}

-- A test that passes at every number under the limit, which evaluation can find out.
passes : (ℕ → Bool) → ℕ → Bool
passes test zero = true
passes test (suc limit) = passes test limit && test limit

passes-lt : (test : ℕ → Bool) (limit n : ℕ) → n < limit → passes test limit ≡ true → test n ≡ true
unfolding passes
passes-lt test zero n below table = absurd (omega arith)
passes-lt test (suc limit) n below table = ground (arith, passes-lt test limit n)

-- Two functions with one table of values.
same_table :
    (g h : ℕ → ℕ) (limit : ℕ)
    → passes (λ n. g n == h n) limit ≡ true
    → (n : ℕ) → n < limit
    → g n ≡ h n
same_table g h limit table n below =
    (==_iff (g n) (h n)).0 (passes-lt (λ m. g m == h m) limit n below table)

-- `b & 0x7F`
pub low_bits : (b : ℕ) → b < 256 → bit_and b 0x7f ≡ b % 128
unfolding passes
low_bits = same_table (λ b. bit_and b 0x7f) (λ b. b % 128) 256 refl

-- `b & 0x80`
pub top_bit : (b : ℕ) → b < 256 → bit_and b 0x80 ≡ b / 128 * 128
unfolding passes
top_bit = same_table (λ b. bit_and b 0x80) (λ b. b / 128 * 128) 256 refl

-- The last `k` binary digits of a number are zero.
abbrev IsShifted : ℕ → ℕ → Type 0
IsShifted zero a = Unit
IsShifted (suc k) a = (a % 2 ≡ 0) × IsShifted k (a / 2)

-- A number has no more than `k` binary digits.
abbrev IsShort : ℕ → ℕ → Type 0
IsShort zero r = r ≡ 0
IsShort (suc k) r = IsShort k (r / 2)

-- `|` of numbers that share no digit is their sum.
or_sum : (k n a r : ℕ) → IsShifted k a → IsShort k r → a ≤ n → digits (λ y. y) max n a r ≡ a + r
or_sum k zero zero r shifted small h = omega arith
or_sum k zero (suc a) r shifted small h = absurd (omega arith)
or_sum k (suc n) zero r shifted small h = omega arith
or_sum zero (suc n) (suc a) r shifted small h =
    let sum = or_sum zero n (suc a / 2) (r / 2) tt (omega arith) (omega arith) in ground arith
or_sum (suc k) (suc n) (suc a) r shifted small h =
    let sum = or_sum k n (suc a / 2) (r / 2) shifted.1 small (omega arith) in
    let even = shifted.0 in ground arith

-- `(n << 7) | r` is a sum when `r` fits seven bits.
pub or_seven : (q r : ℕ) → r < 128 → bit_or (q * 128) r ≡ q * 128 + r
or_seven q r h =
    let shifted : IsShifted 7 (q * 128) = (
      omega arith,
      (omega arith, (omega arith, (omega arith, (omega arith, (omega arith, (omega arith, tt)))))),
    ) in
    let short : IsShort 7 r = omega arith in
    simp bit_or-bitwise (or_sum 7 (q * 128) (q * 128) r shifted short (omega arith))

xor_table : passes (λ b. passes (λ m. bit_xor (bit_xor b m) m == b) 256) 256 ≡ true
unfolding passes
xor_table = refl

-- Masking twice gives a byte back.
pub xor_twice : (b m : ℕ) → b < 256 → m < 256 → bit_xor (bit_xor b m) m ≡ b
xor_twice b m hb hm =
    let row = passes-lt (λ c. passes (λ n. bit_xor (bit_xor c n) n == c) 256) 256 b hb xor_table in
    (==_iff _ b).0 (passes-lt (λ n. bit_xor (bit_xor b n) n == b) 256 m hm row)

-- The common binary digits of two numbers, `n` rounds of them.
abbrev common : ℕ → ℕ → ℕ → ℕ
common n a b = digits (λ y. zero) min n a b

common-zero : (n a : ℕ) → common n a 0 ≡ 0
common-zero zero a = refl
common-zero (suc n) zero = refl
common-zero (suc n) (suc a) = let rest = common-zero n (suc a / 2) in omega arith

-- A mask with one digit more at the end.
more_digits :
    (b : ℕ) (f : ℕ → ℕ)
    → f 0 ≡ 0
    → ((n a : ℕ) → a ≤ n → common n a (b / 2) ≡ f a)
    → (n a : ℕ) → a ≤ n
    → common n a b ≡ f (a / 2) * 2 + min (a % 2) (b % 2)
more_digits b f none rest zero zero h = omega (arith, none)
more_digits b f none rest zero (suc a) h = absurd (omega arith)
more_digits b f none rest (suc n) zero h = omega (arith, none)
more_digits b f none rest (suc n) (suc a) h =
    let later = rest n (suc a / 2) (omega arith) in omega (arith, later)

common_one : (n a : ℕ) → a ≤ n → common n a 1 ≡ a % 2
common_one n a h =
    omega (arith, more_digits 1 (λ a. 0) (omega arith) (λ m c l. common-zero m c) n a h)

common_two : (n a : ℕ) → a ≤ n → common n a 2 ≡ a / 2 % 2 * 2
common_two n a h = omega (arith, more_digits 2 (λ a. a % 2) (omega arith) common_one n a h)

common_four : (n a : ℕ) → a ≤ n → common n a 4 ≡ a / 4 % 2 * 4
common_four n a h = omega (arith, more_digits 4 (λ a. a / 2 % 2 * 2) (omega arith) common_two n a h)

common_eight : (n a : ℕ) → a ≤ n → common n a 8 ≡ a / 8 % 2 * 8
common_eight n a h =
    omega (arith, more_digits 8 (λ a. a / 4 % 2 * 4) (omega arith) common_four n a h)

common_sixteen : (n a : ℕ) → a ≤ n → common n a 16 ≡ a / 16 % 2 * 16
common_sixteen n a h =
    omega (arith, more_digits 16 (λ a. a / 8 % 2 * 8) (omega arith) common_eight n a h)

common_three : (n a : ℕ) → a ≤ n → common n a 3 ≡ a % 2 + a / 2 % 2 * 2
common_three n a h = omega (arith, more_digits 3 (λ a. a % 2) (omega arith) common_one n a h)

common_six : (n a : ℕ) → a ≤ n → common n a 6 ≡ a / 2 % 2 * 2 + a / 4 % 2 * 4
common_six n a h =
    omega (arith, more_digits 6 (λ a. a % 2 + a / 2 % 2 * 2) (omega arith) common_three n a h)

common_twelve : (n a : ℕ) → a ≤ n → common n a 12 ≡ a / 4 % 2 * 4 + a / 8 % 2 * 8
common_twelve n a h =
    omega
      (arith, more_digits 12 (λ a. a / 2 % 2 * 2 + a / 4 % 2 * 4) (omega arith) common_six n a h)

common_twenty_four : (n a : ℕ) → a ≤ n → common n a 24 ≡ a / 8 % 2 * 8 + a / 16 % 2 * 16
common_twenty_four n a h =
    omega
      (arith, more_digits 24 (λ a. a / 4 % 2 * 4 + a / 8 % 2 * 8) (omega arith) common_twelve n a h)

-- `status & flag` is not zero just where the digit of the flag is one, for the third and the fourth
-- digit, counted from zero, and for both together.
abbrev pub has_digit : ℕ → ℕ → Bool
has_digit n i = n / 2 ^ i % 2 == 1

pub third_digit : (n : ℕ) → ltb 0 (bit_and n 8) ≡ has_digit n 3
third_digit n = let is = bit_and-bitwise n 8 ∙ common_eight n n (omega arith) in ground arith

pub fourth_digit : (n : ℕ) → ltb 0 (bit_and n 16) ≡ has_digit n 4
fourth_digit n = let is = bit_and-bitwise n 16 ∙ common_sixteen n n (omega arith) in ground arith

pub either_digit : (n : ℕ) → ltb 0 (bit_and n 24) ≡ (has_digit n 3 || has_digit n 4)
either_digit n =
    let is = bit_and-bitwise n 24 ∙ common_twenty_four n n (omega arith) in ground arith
