-- ===== src/Reader/Varint.antt =====
-- Variable-length integers: what the writer of the block database emits is what `read_varint` reads.
use Prim.Native.Nat.add
use native.Mathlib.Nat.{pow-suc}
use rusty_bitcoin_explorer.Common.{
  ℕ, zero, suc, ◌+◌, ◌-◌, ◌*◌, ◌/◌, ◌%◌, ◌^◌, ◌<◌, ◌≤◌, ◌≡◌, refl, ap, ◌∙◌, inl, inr, Bool, true,
  false, List, [], ◌∷◌, ◌++◌, append_assoc, length, length-append, ltb, if◌then◌else◌, arith,
  Bool-cases,
}
use rusty_bitcoin_explorer.Common.Words.{IsU64}
use rusty_bitcoin_explorer.Common.Bits.{low_bits, top_bit, or_seven}
use rusty_bitcoin_explorer.Error.{ok, add_u64}
use rusty_bitcoin_explorer.Reader.{Stream, accumulate, read_u8, read_varint_loop, read_varint}

-- The groups of `n`, all with the top bit set: the value without its lowest group, less one, first.
unfoldable pub high_groups : ℕ → ℕ → List ℕ
high_groups zero n = (n % 128 + 128) ∷ []
high_groups (suc k) n =
    let more = high_groups k (n / 128 - 1) ++ ((n % 128 + 128) ∷ []) in
    if ltb n 128 then (n + 128) ∷ [] else more

-- `WriteVarInt` of Bitcoin Core's serialize.h.
unfoldable pub write_varint : ℕ → List ℕ
write_varint n = if ltb n 128 then n ∷ [] else high_groups 9 (n / 128 - 1) ++ ((n % 128) ∷ [])

accumulate_inner :
    (checks : Bool) (n g : ℕ)
    → g < 128
    → n < 2 ^ 56
    → accumulate checks n (g + 128) ≡ ok (true, n * 128 + g + 1)
unfolding accumulate add_u64
accumulate_inner checks n g hg hn =
    ground (arith, low_bits (g + 128), top_bit (g + 128), or_seven n g)

accumulate_last :
    (checks : Bool) (n g : ℕ)
    → g < 128
    → n < 2 ^ 57
    → accumulate checks n g ≡ ok (false, n * 128 + g)
unfolding accumulate
accumulate_last checks n g hg hn = ground (arith, low_bits g, top_bit g, or_seven n g)

module _ {S : Type 0} (r : Stream S) where
  open r use {remaining}

  pub read_u8_lem :
      (b : ℕ) (bs : List ℕ) (s : S)
      → remaining s ≡ b ∷ bs
      → (s' : S) × (read_u8 r s ≡ ok (b, s')) × (remaining s' ≡ bs)
  unfolding read_u8
  read_u8_lem b bs s h =
      let (s', e, rest) = r.read_exact-take 1 s (rw h (omega arith)) in
      (s', rw e (rw h refl), rw h at rest)

  -- One round on a byte with the top bit set.
  inner_round :
      (checks : Bool) (fuel n g : ℕ) (bs : List ℕ) (s : S)
      → g < 128
      → n < 2 ^ 56
      → remaining s ≡ (g + 128) ∷ bs
      → (s' : S) × (read_varint_loop r checks (suc fuel) n s
          ≡ read_varint_loop r checks fuel (n * 128 + g + 1) s')
        × (remaining s' ≡ bs)
  unfolding read_varint_loop
  inner_round checks fuel n g bs s hg hn h =
      let (s', e, rest) = read_u8_lem (g + 128) bs s h in
      (s', rw (e, accumulate_inner checks n g hg hn), rest)

  -- The round on the last byte.
  last_round :
      (checks : Bool) (fuel n g : ℕ) (bs : List ℕ) (s : S)
      → g < 128
      → n < 2 ^ 57
      → remaining s ≡ g ∷ bs
      → (s' : S) × (read_varint_loop r checks (suc fuel) n s ≡ ok (n * 128 + g, s'))
        × (remaining s' ≡ bs)
  unfolding read_varint_loop
  last_round checks fuel n g bs s hg hn h =
      let (s', e, rest) = read_u8_lem g bs s h in
      (s', rw (e, accumulate_last checks n g hg hn), rest)

  -- Reading the groups of `n` from nothing accumulates `n + 1`.
  high_round :
      (checks : Bool) (k n fuel : ℕ) (bs : List ℕ) (s : S)
      → n < 128 ^ suc k
      → n < 2 ^ 57
      → remaining s ≡ high_groups k n ++ bs
      → (s' : S) × (read_varint_loop r checks (length (high_groups k n) + fuel) 0 s
          ≡ read_varint_loop r checks fuel (n + 1) s')
        × (remaining s' ≡ bs)
  unfolding high_groups
  high_round checks zero n fuel bs s hk hn h =
      let e : n % 128 ≡ n = omega arith in
      let (s', run, rest) =
        inner_round checks fuel 0 n bs s (omega arith) (omega arith) (rw e at h) in
      (
        s',
        rw (add.suc, add.zero) (run ∙ ap (λ m. read_varint_loop r checks fuel m s') (omega arith)),
        rest,
      )
  high_round checks (suc k) n fuel bs s hk hn h = elim (Bool-cases (ltb n 128)) [
    | inl small ↦
        let (s', run, rest) =
          inner_round checks fuel 0 n bs s (ground arith) (omega arith) (rw small at h) in
        (
          s',
          rw small (
              rw (add.suc, add.zero)
                (run ∙ ap (λ m. read_varint_loop r checks fuel m s') (omega arith))),
          rest,
        )
    | inr large ↦
        let m = n / 128 - 1 in
        let last = n % 128 + 128 in
        let big : 128 ≤ n = ground arith in
        let (s₁, run₁, rest₁) =
          high_round checks k m (suc fuel) (last ∷ bs) s (omega (arith, pow-suc 128 (suc k)))
            (omega arith) (rw (large, append_assoc) at h) in
        let (s₂, run₂, rest₂) =
          inner_round checks fuel (m + 1) (n % 128) bs s₁ (omega arith) (omega arith) rest₁ in
        (
          s₂,
          ap (λ f. read_varint_loop r checks f 0 s)
                (rw large (omega (arith, length-append {0} (high_groups k m) (last ∷ []))))
              ∙ run₁
              ∙ run₂
              ∙ ap (λ v. read_varint_loop r checks fuel v s₂) (omega arith),
          rest₂,
        )
  ]

  -- `read_varint` reads back every usize that `write_varint` wrote, on any reader that starts with
  -- its bytes, and leaves what follows them. Its additions never overflow, whether checked or not.
  pub read_varint-write_varint :
      (checks : Bool) (n : ℕ) (rest : List ℕ) (s : S)
      → IsU64 n
      → remaining s ≡ write_varint n ++ rest
      → (s' : S) × (read_varint r checks s ≡ ok (n, s')) × (remaining s' ≡ rest)
  unfolding read_varint write_varint
  read_varint-write_varint checks n rest s hn h = elim (Bool-cases (ltb n 128)) [
    | inl small ↦
        let (s', run, left) =
          last_round checks (length (remaining s)) 0 n rest s (ground arith) (omega arith)
            (rw small at h) in
        (s', run ∙ ap (λ v. ok (v, s')) (omega arith), left)
    | inr large ↦
        let m = n / 128 - 1 in
        let e = rw (large, append_assoc) at h in
        let big : 128 ≤ n = ground arith in
        let (s₁, run₁, rest₁) =
          high_round checks 9 m (suc (suc (length rest))) ((n % 128) ∷ rest) s (omega arith)
            (omega arith) e in
        let (s₂, run₂, rest₂) =
          last_round checks (suc (length rest)) (m + 1) (n % 128) rest s₁ (omega arith)
            (omega arith) rest₁ in
        (
          s₂,
          ap (λ f. read_varint_loop r checks f 0 s)
                (omega (arith, ap length e, length-append {0} (high_groups 9 m) ((n % 128) ∷ rest)))
              ∙ run₁
              ∙ run₂
              ∙ ap (λ v. ok (v, s₂)) (omega arith),
          rest₂,
        )
  ]
