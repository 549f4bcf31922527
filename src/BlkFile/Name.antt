-- ===== src/BlkFile/Name.antt =====
-- The number in the name of a block file. A name is its bytes.
use rusty_bitcoin_explorer.Common.{
  ℕ, zero, suc, ◌+◌, ◌-◌, ◌*◌, ◌^◌, Option, none, some, List, [], ◌∷◌, reverse, ltb, leb, ◌==◌,
  ◌&&◌, if◌then◌else◌,
}
use rusty_bitcoin_explorer.Common.Words.{ℤ, pos, negsuc}

abbrev pub blk_bytes : List ℕ
blk_bytes = b'b' ∷ b'l' ∷ b'k' ∷ []

abbrev pub dat_bytes : List ℕ
dat_bytes = b'.' ∷ b'd' ∷ b'a' ∷ b't' ∷ []

unfoldable pub strip_prefix : List ℕ → List ℕ → Option (List ℕ)
strip_prefix [] s = some s
strip_prefix (p ∷ ps) [] = none
strip_prefix (p ∷ ps) (c ∷ s) = let rest = strip_prefix ps s in if p == c then rest else none

abbrev pub reverse_option : Option (List ℕ) → Option (List ℕ)
reverse_option none = none
reverse_option (some s) = some (reverse s)

unfoldable pub strip_suffix : List ℕ → List ℕ → Option (List ℕ)
unfolding strip_prefix
strip_suffix p s = reverse_option (strip_prefix (reverse p) (reverse s))

-- The value of a run of digits after the value so far, or `none` at another byte.
unfoldable pub digits_value : ℕ → List ℕ → Option ℕ
digits_value n [] = some n
digits_value n (c ∷ s) =
    let rest = digits_value (n * 10 + (c - b'0')) s in
    if leb b'0' c && leb c b'9' then rest else none

abbrev pub positive : Option ℕ → Option ℤ
positive none = none
positive (some n) = if ltb n (2 ^ 31) then some (pos n) else none

abbrev pub negative : Option ℕ → Option ℤ
negative none = none
negative (some zero) = some (pos 0)
negative (some (suc n)) = if ltb n (2 ^ 31) then some (negsuc n) else none

-- A run of digits is not empty.
abbrev pub digits : List ℕ → Option ℕ
digits [] = none
digits (c ∷ s) = digits_value 0 (c ∷ s)

-- `str::parse::<i32>`: an optional sign and digits, within the range of an i32.
unfoldable pub parse_i32 : List ℕ → Option ℤ
unfolding digits_value
parse_i32 [] = none
parse_i32 (c ∷ s) =
    if c == b'+'
    then positive (digits s)
    else if c == b'-'
    then negative (digits s)
    else positive (digits (c ∷ s))

abbrev pub and_then : {A B : Type 0} → Option A → (A → Option B) → Option B
and_then none f = none
and_then (some a) f = f a

unfoldable pub parse_blk_index : List ℕ → Option ℤ
unfolding strip_prefix strip_suffix parse_i32
parse_blk_index file_name =
    and_then (strip_prefix blk_bytes file_name) (λ s. and_then (strip_suffix dat_bytes s) parse_i32)
