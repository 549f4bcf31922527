-- ===== src/Tests/Scripts.antt =====
-- Scripts and the conversion of blocks.
use rusty_bitcoin_explorer.Common.{ℕ, ◌≡◌, ◌↔◌, refl, true, some, inl, arith, List, [], ◌∷◌}
use rusty_bitcoin_explorer.Common.Words.{pos}
use rusty_bitcoin_explorer.Error.{ok}
use rusty_bitcoin_explorer.External.{bitcoin, Script, op, push_bytes}
use rusty_bitcoin_explorer.Script.{
  ScriptInfo, pay2_multi_sig, evaluate_script, is_multisig, multisig_addresses, collect_chunks,
  is_multisig_chunks, get_num_keys, decode_from_op_n, all_data, parsed_ops, read_keys, from_vec,
}
use rusty_bitcoin_explorer.Script.Total.{
  IsMultisig, is_multisig_iff, multisig_addresses_lem, evaluate_script-ok,
}
use rusty_bitcoin_explorer.Block.{
  FullBlock, full_block, full_transaction, full_tx_out, full_header, compact_block, map_all,
}
use rusty_bitcoin_explorer.Block.Convert.{compact_of_block, compact_block-full_block}
use rusty_bitcoin_explorer.Tests.Sample.{sample, sample-pushes, block, transaction}

-- OP_1, a key, OP_1, OP_CHECKMULTISIG
abbrev pub script : Script
script = 0x51 ∷ 3 ∷ 0x51 ∷ 0xae ∷ []

parses :
    collect_chunks (sample.instructions script)
    ≡ some (op 0x51 ∷ push_bytes (3 ∷ []) ∷ op 0x51 ∷ op 0xae ∷ [])
unfolding collect_chunks
parses = refl

one_of_one : IsMultisig sample script ((3 ∷ []) ∷ []) 1 1
one_of_one = record {
  chunks = op 0x51 ∷ push_bytes (3 ∷ []) ∷ op 0x51 ∷ op 0xae ∷ [];
  parses = parses;
  form = record {
    check = 0xae;
    form = refl;
    m_range = (omega arith, omega arith);
    n_range = (omega arith, omega arith);
    key_count = refl;
    checks = inl refl;
  };
}

is_multisig_iff_example :
    (is_multisig sample script ≡ true)
    ↔ ((keys : List (List ℕ)) × (m n : ℕ) × IsMultisig sample script keys m n)
is_multisig_iff_example = is_multisig_iff sample script

multisig_addresses_lem_example : multisig_addresses sample script ≡ ok ("address" ∷ [])
multisig_addresses_lem_example = multisig_addresses_lem sample script ((3 ∷ []) ∷ []) 1 1 one_of_one

evaluate_script-ok_example : (info : ScriptInfo) × (evaluate_script sample script bitcoin ≡ ok info)
evaluate_script-ok_example = evaluate_script-ok sample script bitcoin sample-pushes

pub evaluates :
    evaluate_script sample script bitcoin
    ≡ ok (record { addresses = "address" ∷ []; pattern = pay2_multi_sig })
unfolding evaluate_script is_multisig collect_chunks is_multisig_chunks get_num_keys
    decode_from_op_n all_data multisig_addresses parsed_ops read_keys from_vec
evaluates = refl

abbrev converted : FullBlock
converted = record {
  header = record {
    version = pos 1;
    prev_blockhash = 4;
    merkle_root = 0;
    time = 0;
    bits = 0;
    nonce = 5;
    block_hash = 5;
  };
  txdata =
      record {
        version = pos 2;
        lock_time = 5;
        input = (transaction 5).input;
        txid = 5;
        output =
            record {
              value = 50;
              script_pubkey = script;
              script_type = pay2_multi_sig;
              addresses = "address" ∷ [];
            }
            ∷ [];
      }
      ∷ [];
}

converts : full_block sample (block 5) ≡ ok converted
unfolding full_block map_all full_transaction full_tx_out full_header
converts = rw evaluates

compact_block-full_block_example : compact_block sample (block 5) ≡ ok (compact_of_block converted)
compact_block-full_block_example = compact_block-full_block sample (block 5) converted converts
