-- ===== src/Tests/Disk.antt =====
-- The cache on disk, over a database in memory.
use rusty_bitcoin_explorer.Common.{
  ℕ, zero, suc, ◌≡◌, ◌≢◌, ◌<◌, ◌^◌, refl, inr, true, Option, none, some, [], ◌∷◌, map, get_elem?,
  length, All, arith,
}
use rusty_bitcoin_explorer.Common.Map
use rusty_bitcoin_explorer.Common.Map.{Map, bytes_key}
use rusty_bitcoin_explorer.Error.{ok}
use rusty_bitcoin_explorer.External.{Transaction, TxOut}
use rusty_bitcoin_explorer.Connected.{CompactConnectedBlock}
use rusty_bitcoin_explorer.Connected.Connect.{
  compact_connected_block, compact_connected_tx, compact_connect_block,
}
use rusty_bitcoin_explorer.Utxo.Formats.{compact}
use rusty_bitcoin_explorer.DiskUtxo.{
  Bytes, RocksDb, Works, Codec, txout_key, block_keys, connect_outpoints, update_unspent_cache,
}
use rusty_bitcoin_explorer.DiskUtxo.Connect.{Stored, deleted, connect_outpoints_disk-eq-connect}
use rusty_bitcoin_explorer.DiskUtxo.Update.{SpellsKeys, update_unspent_cache_disk_lem}
use rusty_bitcoin_explorer.Tests.Sample.{
  sample, sample-pushes, block, transaction, file_read, file_seek, file_exact,
}
use rusty_bitcoin_explorer.Tests.Connected.{tx_db, output}
use rusty_bitcoin_explorer.Tests.Api.{one_file, self_spent, reads_block, connects, out_seven}
use rusty_bitcoin_explorer.Tests.Utxo.{converts, unique}

abbrev pub memory : RocksDb (Map Bytes Bytes)
memory = record {
  entries = λ d. d;
  write_without_wal = λ batch d.
      (true, Map.collect (λ (entry : Bytes × Bytes). entry.0) (λ entry. entry.1) d batch);
  multi_get = λ keys d. map (λ key. some (Map.get d key)) keys;
  delete = λ key d. (true, Map.remove d key);
}

pub memory-Works : Works memory
memory-Works = record {
  puts = λ batch d. (
    Map.collect (λ (entry : Bytes × Bytes). entry.0) (λ entry. entry.1) d batch,
    refl,
    λ key. refl,
  );
  gets = λ keys d. refl;
  deletes = λ key d. (Map.remove d key, refl, λ j. refl);
}

abbrev decode_sample : Bytes → Option TxOut
decode_sample [] = none
decode_sample (v ∷ script) = some (record { value = v; script_pubkey = script })

abbrev pub codec : Codec
codec = record {
  ne_bytes = λ n. n ∷ [];
  encode_txout = λ o. o.value ∷ o.script_pubkey;
  decode_txout = decode_sample;
}

pub spells : SpellsKeys sample codec
spells = record { same_length = λ a b. refl; ids = λ a b h. cc h; numbers = λ m n hm hn h. cc h }

-- The output of transaction 7.
abbrev pub on_disk : Map Bytes Bytes
on_disk = ((7 ∷ 0 ∷ []), codec.encode_txout output) ∷ []

found : Map.get on_disk (txout_key sample codec 7 0) ≡ some (codec.encode_txout output)
unfolding Map.get txout_key
found = refl

stored :
    All
      (λ (tx : Transaction).
        All
          (Stored sample codec true one_file file_read file_seek file_exact
            (compact_connected_tx sample true one_file file_read file_seek file_exact)
            tx_db
            self_spent.block_index
            self_spent.blk_file
            (λ key. Map.get on_disk key))
          tx.input)
      (transaction 7 ∷ [])
stored = (
  (
    inr (record {
      spends = refl;
      out = output;
      converted = out_seven;
      encoded = codec.encode_txout output;
      connects = connects;
      converts = converts;
      stored = found;
      decodes = refl;
    }),
    tt,
  ),
  tt,
)

connect_outpoints_disk-eq-connect_example :
    (connected : CompactConnectedBlock) × (d' : Map Bytes Bytes) × (connect_outpoints memory sample
        codec
        (compact_connected_block sample true one_file file_read file_seek file_exact)
        on_disk
        (block 7)
      ≡ ok (some connected, d'))
    × (compact_connect_block sample true one_file file_read file_seek file_exact
          (block 7)
          tx_db
          self_spent.block_index
          self_spent.blk_file
        ≡ ok connected)
    × ((key : Bytes)
        → Map.get d' key
          ≡ deleted (block_keys sample codec (transaction 7 ∷ [])) (λ j. Map.get on_disk j) key)
connect_outpoints_disk-eq-connect_example =
    connect_outpoints_disk-eq-connect sample codec true one_file file_read file_seek file_exact
      memory compact tx_db self_spent.block_index self_spent.blk_file (block 7) on_disk memory-Works
      sample-pushes (inr (refl, (refl, tt)), tt) stored

short :
    (i : ℕ) (tx : Transaction)
    → get_elem? (transaction 7 ∷ []) i ≡ some tx
    → suc (length tx.output) < 2 ^ 32
short zero tx e = let same : transaction 7 ≡ tx = cc e in rw (← same) (omega arith)
short (suc i) tx e = cc e

update_unspent_cache_disk_lem_example :
    (d' : Map Bytes Bytes) × (update_unspent_cache memory sample codec true one_file file_read
        file_seek file_exact on_disk self_spent 0
      ≡ ok (some (block 7), d'))
    × ((i : ℕ) (tx : Transaction) (n : ℕ) (o : TxOut)
        → get_elem? (transaction 7 ∷ []) i ≡ some tx
        → get_elem? tx.output n ≡ some o
        → Map.get d' (txout_key sample codec (sample.compute_txid tx) n)
          ≡ some (codec.encode_txout o))
    × ((key : Bytes)
        → ((i : ℕ) (tx : Transaction) (n : ℕ) (o : TxOut)
            → get_elem? (transaction 7 ∷ []) i ≡ some tx
            → get_elem? tx.output n ≡ some o
            → txout_key sample codec (sample.compute_txid tx) n ≢ key)
        → Map.get d' key ≡ Map.get on_disk key)
update_unspent_cache_disk_lem_example =
    update_unspent_cache_disk_lem memory sample codec true one_file file_read file_seek file_exact
      on_disk self_spent 0 (block 7) memory-Works spells reads_block unique short
