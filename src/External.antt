-- ===== src/External.antt =====
-- What the crate takes from other crates: the data of rust-bitcoin with the public fields that the
-- source reads, and the functions that it calls, as a record of parameters.
use rusty_bitcoin_explorer.Common.{ℕ, Bool, List, Option, String}
use rusty_bitcoin_explorer.Common.Words.{ℤ}

-- A BlockHash, Txid or merkle root: the number that its 32 bytes spell.
abbrev pub Hash : Type 0
Hash = ℕ

-- An address, by its text.
abbrev pub Address : Type 0
Address = String

abbrev pub Script : Type 0
Script = List ℕ

pub record OutPoint : Type 0 where
  pub txid : Hash
  pub vout : ℕ

pub record TxIn : Type 0 where
  pub previous_output : OutPoint
  pub script_sig : Script
  pub sequence : ℕ
  pub witness : List (List ℕ)

pub record TxOut : Type 0 where
  pub value : ℕ
  pub script_pubkey : Script

pub record Transaction : Type 0 where
  pub version : ℤ
  pub lock_time : ℕ
  pub input : List TxIn
  pub output : List TxOut

pub record BlockHeader : Type 0 where
  pub version : ℤ
  pub prev_blockhash : Hash
  pub merkle_root : Hash
  pub time : ℕ
  pub bits : ℕ
  pub nonce : ℕ

pub record Block : Type 0 where
  pub header : BlockHeader
  pub txdata : List Transaction

-- `bitcoin::blockdata::script::Instruction`; an opcode is its byte.
pub data Instruction : Type 0 where
  push_bytes : List ℕ → Instruction
  op : ℕ → Instruction

-- `bitcoin::Network`
pub data Network : Type 0 where
  bitcoin testnet signet regtest : Network

-- What `consensus_decode` makes of the bytes that a reader has left: a value and how many bytes
-- it took, or an error.
pub data Decoded (A : Type 0) : Type 0 where
  decoded : A → ℕ → Decoded A
  malformed : String → Decoded A

pub record External : Type 0 where
  -- byteorder
  pub le_u32 : List ℕ → ℕ
  pub le_i32 : List ℕ → ℤ
  -- bitcoin
  pub decode_block : List ℕ → Decoded Block
  pub decode_transaction : List ℕ → Decoded Transaction
  pub decode_header : List ℕ → Decoded BlockHeader
  pub block_hash : BlockHeader → Hash
  pub compute_txid : Transaction → Hash
  pub txid_bytes : Hash → List ℕ
  pub is_coinbase : Transaction → Bool
  pub is_null : OutPoint → Bool
  pub is_p2pk : Script → Bool
  pub is_p2pkh : Script → Bool
  pub is_p2sh : Script → Bool
  pub is_p2wpkh : Script → Bool
  pub is_p2wsh : Script → Bool
  pub is_witness_program : Script → Bool
  pub is_op_return : Script → Bool
  pub instructions : Script → List (Option Instruction)
  pub address_from_script : Script → Network → Option Address
  pub public_key_from_slice : List ℕ → Option (List ℕ)
  pub pubkey_hash : List ℕ → List ℕ
  pub hash160 : List ℕ → List ℕ
  pub pubkey_hash_from_slice : List ℕ → Option (List ℕ)
  pub p2pkh : List ℕ → Network → Address
