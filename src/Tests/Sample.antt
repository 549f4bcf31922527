-- ===== src/Tests/Sample.antt =====
-- Parameters of the model for the examples: the functions of other crates on a toy encoding, and a
-- file in memory.
use rusty_bitcoin_explorer.Common.{
  ℕ, zero, suc, ◌+◌, ◌*◌, ◌-◌, ◌≤◌, ◌<◌, ◌≡◌, refl, sym, ap, Bool, true, false, Option, none, some,
  List, [], ◌∷◌, ◌++◌, map, length, take, drop, ltb, leb, ◌==◌, ◌&&◌, arith, if◌then◌else◌, All,
  get_elem?, ◌%◌,
}
use mathlib.Core.Option
use rusty_bitcoin_explorer.Common.Words.{pos, IsByte}
use rusty_bitcoin_explorer.Error.{Error, Outcome, ok, err, bitcoin_io}
use rusty_bitcoin_explorer.External.{
  External, Script, Block, BlockHeader, Transaction, Instruction, push_bytes, op, Decoded, decoded,
  malformed,
}
use rusty_bitcoin_explorer.Reader.{Read, ReadExact}
use rusty_bitcoin_explorer.Xor.{XorReader, SeekFrom, start, Seek, unmask, mask_byte}
use rusty_bitcoin_explorer.Xor.Bytes.{drop-xor_bytes, IsMask}
use rusty_bitcoin_explorer.Xor.Laws.{xor_read, plain_remaining, IsOpened}

abbrev pub le : List ℕ → ℕ
le [] = 0
le (b ∷ bs) = b + 256 * le bs

-- The header of the block with hash `n`, whose parent has the hash before it.
abbrev pub header : ℕ → BlockHeader
header n = record {
  version = pos 1;
  prev_blockhash = n - 1;
  merkle_root = 0;
  time = 0;
  bits = 0;
  nonce = n;
}

-- A transaction with id `n` that spends the first output of transaction 7, with one multisig output.
abbrev pub transaction : ℕ → Transaction
transaction n = record {
  version = pos 2;
  lock_time = n;
  input =
      record {
        previous_output = record { txid = 7; vout = 0 };
        script_sig = [];
        sequence = 0;
        witness = [];
      }
      ∷ [];
  output = record { value = 50; script_pubkey = 0x51 ∷ 3 ∷ 0x51 ∷ 0xae ∷ [] } ∷ [];
}

abbrev pub block : ℕ → Block
block n = record { header = header n; txdata = transaction n ∷ [] }

abbrev pub decode_one : {A : Type 0} → (ℕ → A) → List ℕ → Decoded A
decode_one f [] = malformed "unexpected end of file"
decode_one f (n ∷ ns) = decoded (f n) 1

abbrev pub instruction : ℕ → Instruction
instruction b = if ltb b 0x50 then push_bytes (b ∷ []) else op b

abbrev pub starts_with_key : Script → Bool
starts_with_key [] = false
starts_with_key (b ∷ bs) = b == 2

abbrev pub sample : External
sample = record {
  le_u32 = le;
  le_i32 = λ bs. pos (le bs);
  decode_block = decode_one block;
  decode_transaction = decode_one transaction;
  decode_header = decode_one header;
  block_hash = λ h. h.nonce;
  compute_txid = λ t. t.lock_time;
  txid_bytes = λ h. h ∷ [];
  is_coinbase = λ t. t.lock_time == 0;
  is_null = λ o. o.txid == 0;
  is_p2pk = starts_with_key;
  is_p2pkh = λ s. false;
  is_p2sh = λ s. false;
  is_p2wpkh = λ s. false;
  is_p2wsh = λ s. false;
  is_witness_program = λ s. false;
  is_op_return = λ s. false;
  instructions = map (λ b. some (instruction b));
  address_from_script = λ s net. none;
  public_key_from_slice = λ bs. some bs;
  pubkey_hash = λ bs. bs;
  hash160 = λ bs. bs;
  pubkey_hash_from_slice = λ bs. some bs;
  p2pkh = λ bs net. "address";
}

pub sample-pushes :
    (script : Script)
    → starts_with_key script ≡ true
    → (pk : List ℕ) × (is : List (Option Instruction)) × (map (λ b. some (instruction b)) script
        ≡ some (push_bytes pk) ∷ is)
sample-pushes [] h = cc h
sample-pushes (b ∷ bs) h =
    let two : b ≡ 2 = ground arith in (2 ∷ [], map (λ c. some (instruction c)) bs, rw two refl)

-- A file: its bytes, the place of the cursor, and what is left behind it.
pub record File : Type 0 where
  pub disk : List ℕ
  pub place : ℕ
  pub left : List ℕ

abbrev pub open_disk : List ℕ → File
open_disk disk = record { disk = disk; place = 0; left = disk }

abbrev pub skip : ℕ → File → File
skip n f = record { disk = f.disk; place = f.place + n; left = drop n f.left }

pub take_and_drop : (n : ℕ) (l : List ℕ) → l ≡ take n l ++ drop n l
take_and_drop zero l = refl
take_and_drop (suc n) [] = refl
take_and_drop (suc n) (b ∷ l) = ap (◌∷◌ b) (take_and_drop n l)

pub take_short : (n : ℕ) (l : List ℕ) → length (take n l) ≤ n
take_short zero l = omega arith
take_short (suc n) [] = omega arith
take_short (suc n) (b ∷ l) = let h = take_short n l in omega arith

pub take_none : (n : ℕ) (l : List ℕ) → 0 < n → take n l ≡ [] → l ≡ []
take_none zero l h e = absurd (omega arith)
take_none (suc n) [] h e = refl
take_none (suc n) (b ∷ l) h e = cc e

abbrev pub file_read : Read File
file_read = record {
  remaining = λ f. f.left;
  read = λ n f. ok (take n f.left, skip n f);
  read_some = λ n f. (
    take n f.left,
    skip n f,
    refl,
    take_and_drop n f.left,
    take_short n f.left,
    take_none n f.left,
  );
}

abbrev pub seek_file : SeekFrom → File → Outcome ℕ × File
seek_file (start p) f = (ok p, record { disk = f.disk; place = p; left = drop p f.disk })
seek_file _ f = (err (bitcoin_io "unsupported"), f)

abbrev pub file_seek : Seek File
file_seek = record { seek = seek_file; stream_position = λ f. (ok f.place, f) }

pub opened : (disk : List ℕ) → IsOpened file_read file_seek disk (open_disk disk)
opened disk = record {
  seeks = λ p. (
    record { disk = disk; place = p; left = drop p disk },
    record { disk = disk; place = p; left = drop p disk },
    refl,
    refl,
    refl,
  );
}

abbrev pub skip_pos : Option (List ℕ) → ℕ → ℕ → ℕ
skip_pos none p n = p
skip_pos (some mask) p n = p + n

abbrev pub skip_plain : ℕ → XorReader File → XorReader File
skip_plain n s = record s { inner = skip n s.inner; pos = skip_pos s.mask s.pos n }

drop-unmask :
    (mask : Option (List ℕ)) (p n : ℕ) (l : List ℕ)
    → unmask mask (skip_pos mask p n) (drop n l) ≡ drop n (unmask mask p l)
drop-unmask none p n l = refl
drop-unmask (some mask) p n l = sym (drop-xor_bytes mask p n l)

unfoldable pub exact_read : ℕ → XorReader File → Outcome (List ℕ × XorReader File)
exact_read n s =
    let plain = plain_remaining file_read s in
    if leb n (length plain) then ok (take n plain, skip_plain n s) else err (bitcoin_io "eof")

pub exact_read-take :
    (n : ℕ) (s : XorReader File)
    → n ≤ length (plain_remaining file_read s)
    → (s' : XorReader File) × (exact_read n s ≡ ok (take n (plain_remaining file_read s), s'))
      × (plain_remaining file_read s' ≡ drop n (plain_remaining file_read s))
unfolding exact_read
exact_read-take n s h = (skip_plain n s, ground arith, drop-unmask s.mask s.pos n s.inner.left)

pub exact_read_eof :
    (n : ℕ) (s : XorReader File)
    → length (plain_remaining file_read s) < n
    → (e : Error) × (exact_read n s ≡ err e)
unfolding exact_read
exact_read_eof n s h = (bitcoin_io "eof", ground arith)

abbrev pub file_exact : ReadExact (xor_read file_read)
file_exact = record {
  read_exact = exact_read;
  read_exact-take = exact_read-take;
  read_exact_eof = exact_read_eof;
}

abbrev pub all_bytes : List ℕ → Bool
all_bytes [] = true
all_bytes (b ∷ bs) = ltb b 256 && all_bytes bs

pub bytes_of : (l : List ℕ) → all_bytes l ≡ true → All IsByte l
bytes_of [] h = tt
bytes_of (b ∷ bs) h = (ground arith, bytes_of bs (ground arith))

get-IsByte : (l : List ℕ) (i : ℕ) → All IsByte l → IsByte (Option.get_or (get_elem? l i) 0)
get-IsByte [] i h = omega arith
get-IsByte (b ∷ bs) zero h = h.0
get-IsByte (b ∷ bs) (suc i) h = get-IsByte bs i h.1

pub IsMask-of : (mask : List ℕ) → all_bytes mask ≡ true → IsMask mask
unfolding mask_byte
IsMask-of mask h i = get-IsByte mask (i % 8) (bytes_of mask h)
