-- ===== src/Xor.antt =====
-- src/parser/xor.rs: `XorReader`, which removes the XOR mask of the block files as they are read.
-- A position stays far below 2 ^ 64, so `pos += 1` is not cut.
pub mod Bytes
pub mod Laws
use rusty_bitcoin_explorer.Common.{
  ℕ, zero, suc, ◌+◌, ◌%◌, Bool, true, false, Option, none, some, List, [], ◌∷◌, length, drop, take,
  get_elem?, bit_xor, leb, if◌then◌else◌,
}
use rusty_bitcoin_explorer.Common.Words.{ℤ}
use rusty_bitcoin_explorer.Error.{Error, Outcome, ok, err, panic, stuck}
use rusty_bitcoin_explorer.Reader.{Reads, ◌>>=◌, pure, Read}
use mathlib.Core.Option

abbrev pub xor_mask_len : ℕ
xor_mask_len = 8

-- `std::io::SeekFrom`
pub data SeekFrom : Type 0 where
  start : ℕ → SeekFrom
  end : ℤ → SeekFrom
  current : ℤ → SeekFrom

-- `std::io::Seek` of the inner reader. The state comes back beside an error too.
pub record Seek (R : Type 0) : Type 0 where
  pub seek : SeekFrom → R → Outcome ℕ × R
  pub stream_position : R → Outcome ℕ × R

-- The mask is an array of `xor_mask_len` bytes.
pub record XorReader (R : Type 0) : Type 0 where
  pub inner : R
  pub pos : ℕ
  pub mask : Option (List ℕ)
  pub buffer : List ℕ

unfoldable pub new : {R : Type 0} → R → Option (List ℕ) → XorReader R
new reader xor_mask = record { inner = reader; pos = 0; mask = xor_mask; buffer = [] }

-- `mask[(self.pos % mask.len() as u64) as usize]`; the index is in range.
unfoldable pub mask_byte : List ℕ → ℕ → ℕ
mask_byte mask pos = Option.get_or (get_elem? mask (pos % xor_mask_len)) 0

-- The loop `*x ^= mask[pos % len]; pos += 1` over a buffer, from `pos` on.
unfoldable pub xor_bytes : List ℕ → ℕ → List ℕ → List ℕ
xor_bytes mask pos [] = []
xor_bytes mask pos (b ∷ bs) = bit_xor b (mask_byte mask pos) ∷ xor_bytes mask (pos + 1) bs

-- What the loop leaves in the buffer, and in `pos`.
abbrev pub unmask : Option (List ℕ) → ℕ → List ℕ → List ℕ
unmask none pos bs = bs
unmask (some mask) pos bs = xor_bytes mask pos bs

abbrev pub advance : Option (List ℕ) → ℕ → List ℕ → ℕ
advance none pos bs = pos
advance (some mask) pos bs = pos + length bs

module _ {R : Type 0} (r : Read R) where
  unfoldable pub read : ℕ → Reads (XorReader R) (List ℕ)
  read n s = elim (r.read n s.inner) [
    | ok (bs, inner') ↦
        ok (unmask s.mask s.pos bs, record s { inner = inner'; pos = advance s.mask s.pos bs })
    | err e ↦ err e
    | panic ↦ panic
    | stuck ↦ stuck
  ]

  -- A refill of the empty buffer.
  unfoldable pub refill : Reads (XorReader R) (List ℕ)
  refill s = elim (r.read 4096 s.inner) [
    | ok ([], inner') ↦ ok ([], record s { inner = inner' })
    | ok (b ∷ bs, inner') ↦
        let buffer = unmask s.mask s.pos (b ∷ bs) in
        ok (
          buffer,
          record s { inner = inner'; pos = advance s.mask s.pos (b ∷ bs); buffer = buffer },
        )
    | err e ↦ err e
    | panic ↦ panic
    | stuck ↦ stuck
  ]

  abbrev fill : List ℕ → Reads (XorReader R) (List ℕ)
  fill [] = refill
  fill (b ∷ bs) = pure (b ∷ bs)

  unfoldable pub fill_buf : Reads (XorReader R) (List ℕ)
  unfolding refill
  fill_buf s = fill s.buffer s

-- `drain(..amt)` panics beyond the buffer's end.
unfoldable pub consume : {R : Type 0} → ℕ → XorReader R → Outcome (XorReader R)
consume amt s =
    if leb amt (length s.buffer) then ok (record s { buffer = drop amt s.buffer }) else panic

module _ {R : Type 0} (k : Seek R) where
  -- `self.pos = self.inner.stream_position()?; result`
  abbrev pub settle : Outcome ℕ → Outcome ℕ × R → XorReader R → Outcome ℕ × XorReader R
  settle result (ok p, inner') s = (result, record s { inner = inner'; pos = p })
  settle result (err e, inner') s = (err e, record s { inner = inner' })
  settle result (panic, inner') s = (panic, record s { inner = inner' })
  settle result (stuck, inner') s = (stuck, record s { inner = inner' })

  unfoldable pub seek : SeekFrom → XorReader R → Outcome ℕ × XorReader R
  seek target s =
      let (result, inner') = k.seek target s.inner in settle result (k.stream_position inner') s
