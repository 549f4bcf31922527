-- ===== src/Xor/Bytes.antt =====
-- The mask on a run of bytes.
use rusty_bitcoin_explorer.Common.{
  ℕ, zero, suc, ◌+◌, ◌≡◌, refl, ap, ◌∙◌, Option, none, some, List, [], ◌∷◌, ◌++◌, length, drop,
  bit_xor, All, arith,
}
use rusty_bitcoin_explorer.Common.Words.{IsByte}
use rusty_bitcoin_explorer.Common.Bits.{xor_twice}
use rusty_bitcoin_explorer.Xor.{xor_bytes, mask_byte, unmask}

shift : (mask bs : List ℕ) (p q : ℕ) → p ≡ q → xor_bytes mask p bs ≡ xor_bytes mask q bs
shift mask bs p q h = ap (λ n. xor_bytes mask n bs) h

pub xor_bytes-append :
    (mask : List ℕ) (pos : ℕ) (xs ys : List ℕ)
    → xor_bytes mask pos (xs ++ ys) ≡ xor_bytes mask pos xs ++ xor_bytes mask (pos + length xs) ys
unfolding xor_bytes
xor_bytes-append mask pos [] ys = shift mask ys pos (pos + 0) (omega arith)
xor_bytes-append mask pos (b ∷ xs) ys = ap (◌∷◌ (bit_xor b (mask_byte mask pos))) (
    xor_bytes-append mask (pos + 1) xs ys
    ∙ ap (◌++◌ (xor_bytes mask (pos + 1) xs)) (shift mask ys _ _ (omega arith)))

pub length-xor_bytes :
    (mask : List ℕ) (pos : ℕ) (xs : List ℕ) → length (xor_bytes mask pos xs) ≡ length xs
unfolding xor_bytes
length-xor_bytes mask pos [] = refl
length-xor_bytes mask pos (b ∷ xs) = ap suc (length-xor_bytes mask (pos + 1) xs)

pub drop-xor_bytes :
    (mask : List ℕ) (pos k : ℕ) (xs : List ℕ)
    → drop k (xor_bytes mask pos xs) ≡ xor_bytes mask (pos + k) (drop k xs)
unfolding xor_bytes
drop-xor_bytes mask pos zero xs = shift mask xs pos (pos + 0) (omega arith)
drop-xor_bytes mask pos (suc k) [] = refl
drop-xor_bytes mask pos (suc k) (b ∷ xs) =
    drop-xor_bytes mask (pos + 1) k xs ∙ shift mask (drop k xs) _ _ (omega arith)

-- The mask's bytes are bytes.
abbrev pub IsMask : List ℕ → Type 0
IsMask mask = (i : ℕ) → IsByte (mask_byte mask i)

pub xor_bytes_twice :
    (mask : List ℕ) (pos : ℕ) (xs : List ℕ)
    → IsMask mask
    → All IsByte xs
    → xor_bytes mask pos (xor_bytes mask pos xs) ≡ xs
unfolding xor_bytes
xor_bytes_twice mask pos [] hm hx = refl
xor_bytes_twice mask pos (b ∷ xs) hm (hb, hx) =
    cc (xor_twice b (mask_byte mask pos) hb (hm pos), xor_bytes_twice mask (pos + 1) xs hm hx)

-- The same for a reader with or without a mask.
abbrev pub IsMaskOption : Option (List ℕ) → Type 0
IsMaskOption none = Unit
IsMaskOption (some mask) = IsMask mask

pub unmask-nil : (mask : Option (List ℕ)) (pos : ℕ) → unmask mask pos [] ≡ []
unfolding xor_bytes
unmask-nil none pos = refl
unmask-nil (some mask) pos = refl

pub unmask-append :
    (mask : Option (List ℕ)) (pos : ℕ) (xs ys : List ℕ)
    → unmask mask pos (xs ++ ys) ≡ unmask mask pos xs ++ unmask mask (pos + length xs) ys
unmask-append none pos xs ys = refl
unmask-append (some mask) pos xs ys = xor_bytes-append mask pos xs ys

pub length-unmask :
    (mask : Option (List ℕ)) (pos : ℕ) (xs : List ℕ) → length (unmask mask pos xs) ≡ length xs
length-unmask none pos xs = refl
length-unmask (some mask) pos xs = length-xor_bytes mask pos xs

All-drop : (k : ℕ) (xs : List ℕ) → All IsByte xs → All IsByte (drop k xs)
All-drop zero xs h = h
All-drop (suc k) [] h = tt
All-drop (suc k) (x ∷ xs) h = All-drop k xs h.1

-- Behind a mask, what a reader at position `k` has left is what the plain file has left.
pub unmask-drop :
    (mask : Option (List ℕ)) (k : ℕ) (plain : List ℕ)
    → IsMaskOption mask
    → All IsByte plain
    → unmask mask k (drop k (unmask mask 0 plain)) ≡ drop k plain
unmask-drop none k plain hm hp = refl
unmask-drop (some mask) k plain hm hp =
    ap (xor_bytes mask k) (drop-xor_bytes mask 0 k plain ∙ shift mask _ _ _ (omega arith))
    ∙ xor_bytes_twice mask k (drop k plain) hm (All-drop k plain hp)
