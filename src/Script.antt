-- ===== src/Script.antt =====
-- src/parser/script.rs: the type of an output script and the addresses in it.
pub mod Multisig
pub mod Total
use rusty_bitcoin_explorer.Common.{
  String, ℕ, zero, suc, ◌+◌, ◌-◌, Bool, true, false, not, Option, none, some, List, [], ◌∷◌, ◌++◌,
  length, get_elem?, take, drop, ltb, leb, ◌==◌, ◌&&◌, ◌||◌, if◌then◌else◌,
}
use rusty_bitcoin_explorer.Common.Words.{ℤ, pos, negsuc, sub_ℕ, ltb_ℤ}
use rusty_bitcoin_explorer.Error.{Outcome, ok, err, panic, stuck, ◌>>=◌, ◌>>◌, assert}
use rusty_bitcoin_explorer.External.{
  External, Script, Address, Network, bitcoin, Instruction, push_bytes, op,
}

pub data ScriptType : Type 0 where
  op_return pay2_multi_sig pay2_public_key pay2_public_key_hash pay2_script_hash : ScriptType
  pay2_witness_public_key_hash pay2_witness_script_hash witness_program not_recognised : ScriptType

-- `Display`: what `fmt` writes.
unfoldable pub fmt : ScriptType → String
fmt op_return = "OpReturn"
fmt pay2_multi_sig = "Pay2MultiSig"
fmt pay2_public_key = "Pay2PublicKey"
fmt pay2_public_key_hash = "Pay2PublicKeyHash"
fmt pay2_script_hash = "Pay2ScriptHash"
fmt pay2_witness_public_key_hash = "Pay2WitnessPublicKeyHash"
fmt pay2_witness_script_hash = "Pay2WitnessScriptHash"
fmt witness_program = "WitnessProgram"
fmt not_recognised = "NotRecognised"

pub record ScriptInfo : Type 0 where
  pub addresses : List Address
  pub pattern : ScriptType

unfoldable pub from_vec : List Address → ScriptType → ScriptInfo
from_vec addresses pattern = record { addresses = addresses; pattern = pattern }

unfoldable pub new : Option Address → ScriptType → ScriptInfo
unfolding from_vec
new none pattern = from_vec [] pattern
new (some address) pattern = from_vec (address ∷ []) pattern

-- Opcodes of rust-bitcoin, by their bytes.
abbrev pub op_pushbytes_0 : ℕ
op_pushbytes_0 = 0x00

abbrev pub op_pushnum_neg1 : ℕ
op_pushnum_neg1 = 0x4f

abbrev pub op_pushnum_1 : ℕ
op_pushnum_1 = 0x51

abbrev pub op_pushnum_16 : ℕ
op_pushnum_16 = 0x60

abbrev pub op_checkmultisig : ℕ
op_checkmultisig = 0xae

abbrev pub op_checkmultisigverify : ℕ
op_checkmultisigverify = 0xaf

unfoldable pub decode_from_op_n : ℕ → ℤ
decode_from_op_n o =
    if o == op_pushbytes_0
    then pos 0
    else if o == op_pushnum_neg1
    then negsuc 0
    else sub_ℕ (o + 1) op_pushnum_1

-- The trait `Cmp`.
abbrev pub ge : ℕ → ℕ → Bool
ge a b = leb b a

unfoldable pub get_num_keys : Instruction → Option ℤ
unfolding decode_from_op_n
get_num_keys (push_bytes bs) = none
get_num_keys (op o) =
    if not (o == op_pushnum_neg1 || o == op_pushbytes_0 || ge o op_pushnum_1 && ge op_pushnum_16 o)
    then none
    else some (decode_from_op_n o)

-- `chunks`, or `none` at an instruction that does not parse.
unfoldable pub collect_chunks : List (Option Instruction) → Option (List Instruction)
collect_chunks [] = some []
collect_chunks (none ∷ is) = none
collect_chunks (some i ∷ is) = elim (collect_chunks is) [
  | none ↦ none
  | some chunks ↦ some (i ∷ chunks)
]

-- `match chunks.last().unwrap()`
abbrev pub ends_in_checkmultisig : Option Instruction → Bool
ends_in_checkmultisig none = false
ends_in_checkmultisig (some (push_bytes bs)) = false
ends_in_checkmultisig (some (op o)) = o == op_checkmultisig || o == op_checkmultisigverify

-- `num_keys < 1 || (num_keys + 3) as usize != chunks.len()`, negated.
abbrev pub counts_keys : Option ℤ → ℕ → Bool
counts_keys none len = false
counts_keys (some (negsuc n)) len = false
counts_keys (some (pos n)) len = leb 1 n && n + 3 == len

abbrev pub at_least_one : Option ℤ → Bool
at_least_one none = false
at_least_one (some n) = not (ltb_ℤ n (pos 1))

abbrev pub num_keys_at : Option Instruction → Option ℤ
num_keys_at none = none
num_keys_at (some i) = get_num_keys i

abbrev pub is_data : Instruction → Bool
is_data (push_bytes bs) = true
is_data (op o) = false

unfoldable pub all_data : List Instruction → Bool
all_data [] = true
all_data (i ∷ is) = is_data i && all_data is

-- The tests on the chunks, in the source's order.
unfoldable pub is_multisig_chunks : List Instruction → Bool
unfolding get_num_keys all_data
is_multisig_chunks chunks =
    let len = length chunks in
    not (ltb len 4)
    && (ends_in_checkmultisig (get_elem? chunks (len - 1))
        && (counts_keys (num_keys_at (get_elem? chunks (len - 2))) len
            && (all_data (take (len - 3) (drop 1 chunks))
                && at_least_one (num_keys_at (get_elem? chunks 0)))))

-- `script.instructions().filter_map(|o| o.ok())`
unfoldable pub parsed_ops : List (Option Instruction) → List Instruction
parsed_ops [] = []
parsed_ops (none ∷ is) = parsed_ops is
parsed_ops (some i ∷ is) = i ∷ parsed_ops is

-- `num_keys as usize` of the opcode in the second place from the end.
abbrev pub key_count : Option Instruction → Outcome ℕ
key_count (some (op o)) = elim (decode_from_op_n o) [ pos n ↦ ok n | negsuc n ↦ panic ]
key_count _ = panic

module _ (x : External) where
  unfoldable pub is_multisig : Script → Bool
  unfolding is_multisig_chunks collect_chunks
  is_multisig script = elim (collect_chunks (x.instructions script)) [
    | none ↦ false
    | some chunks ↦ is_multisig_chunks chunks
  ]

  -- The loop that collects the addresses; a key that does not parse empties the result.
  unfoldable pub read_keys : List Address → List Instruction → Outcome (List Address)
  read_keys public_keys [] = ok public_keys
  read_keys public_keys (op o ∷ ops) = panic
  read_keys public_keys (push_bytes bs ∷ ops) = elim (x.public_key_from_slice bs) [
    | some pk ↦ read_keys (public_keys ++ x.p2pkh (x.pubkey_hash pk) bitcoin ∷ []) ops
    | none ↦ ok []
  ]

  unfoldable pub multisig_addresses : Script → Outcome (List Address)
  multisig_addresses script = do
    assert (is_multisig script)
    let ops = parsed_ops (x.instructions script)
    num_keys ← key_count (get_elem? ops (length ops - 2))
    read_keys [] (take num_keys (drop 1 ops))

  abbrev pub first_key : List (Option Instruction) → Outcome (Option Address)
  first_key (some (push_bytes pk) ∷ is) = elim (x.pubkey_hash_from_slice (x.hash160 pk)) [
    | none ↦ ok none
    | some pkh ↦ ok (some (x.p2pkh pkh bitcoin))
  ]
  first_key _ = panic

  unfoldable pub p2pk_to_address : Script → Outcome (Option Address)
  p2pk_to_address script = do assert (x.is_p2pk script); first_key (x.instructions script)

  unfoldable pub evaluate_script : Script → Network → Outcome ScriptInfo
  unfolding new
  evaluate_script script net =
      let address = x.address_from_script script net in
      if x.is_p2pk script
      then (do a ← p2pk_to_address script; ok (new a pay2_public_key))
      else if x.is_p2pkh script
      then ok (new address pay2_public_key_hash)
      else if x.is_p2sh script
      then ok (new address pay2_script_hash)
      else if x.is_p2wpkh script
      then ok (new address pay2_witness_public_key_hash)
      else if x.is_p2wsh script
      then ok (new address pay2_witness_script_hash)
      else if x.is_witness_program script
      then ok (new address witness_program)
      else if x.is_op_return script
      then ok (new address op_return)
      else if is_multisig script
      then (do as_ ← multisig_addresses script; ok (from_vec as_ pay2_multi_sig))
      else ok (new address not_recognised)
