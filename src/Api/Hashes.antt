-- ===== src/Api/Hashes.antt =====
-- Heights and hashes are turned into each other.
use rusty_bitcoin_explorer.Common.{
  ℕ, ◌≡◌, ◌↔◌, inl, inr, sym, ap, Bool, List, get_elem?, Option-cases,
}
use rusty_bitcoin_explorer.Common.Map
use rusty_bitcoin_explorer.Common.Map.{nat_key}
use rusty_bitcoin_explorer.Error.{ok}
use rusty_bitcoin_explorer.External.{External, Hash}
use rusty_bitcoin_explorer.BlockIndex
use rusty_bitcoin_explorer.BlockIndex.{BlockIndexRecord, hash_of}
use rusty_bitcoin_explorer.BlockIndex.Heights.{hash_to_height-new, hash_to_height-new_inverse}
use rusty_bitcoin_explorer.Api.{BitcoinDb, get_hash_from_height, get_height_from_hash}

module _ (x : External) (checks : Bool) where
  -- With a block index that was built from a database, `get_hash_from_height` returns a hash for a
  -- height exactly when `get_height_from_hash` returns that height for the hash.
  pub get_hash_from_height_iff :
      (entries : List (List ℕ × List ℕ)) (db : BitcoinDb) (height : ℕ) (hash : Hash)
      → BlockIndex.new x checks (ok entries) ≡ ok db.block_index
      → (get_hash_from_height x db height ≡ ok hash) ↔ (get_height_from_hash db hash ≡ ok height)
  unfolding get_hash_from_height get_height_from_hash
  get_hash_from_height_iff entries db height hash built = (
    λ e. elim (Option-cases (get_elem? db.block_index.records height)) [
      | inl missing ↦ cc (rw (missing, get_hash_from_height) at e)
      | inr (b, at) ↦
          let hashed : hash_of x b ≡ hash = cc (rw (at, get_hash_from_height) at e) in
          let found = hash_to_height-new x checks entries db.block_index height b built at in
          rw (sym hashed, found, get_height_from_hash)
    ],
    λ e. elim (Option-cases (Map.get db.block_index.hash_to_height hash)) [
      | inl missing ↦ cc (rw (missing, get_height_from_hash) at e)
      | inr (z, found) ↦
          let (i, b, at, hashed, is) =
            hash_to_height-new_inverse x checks entries db.block_index hash z built found in
          let same : i ≡ height = cc (rw (found, get_height_from_hash, is) at e) in
          rw (sym same, at, get_hash_from_height) (ap ok hashed)
    ],
  )
