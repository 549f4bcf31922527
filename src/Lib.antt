-- ===== src/Lib.antt =====
-- Rusty-Bitcoin-Explorer reads the files of a Bitcoin Core node: the block index (a LevelDB
-- database of block records), the blk*.dat files with the blocks, which may be masked, and the
-- transaction index (a LevelDB database of places on disk).
--
-- Common: lists, Boolean tests, machine words, bit operations and maps, which all parts use.
-- Error: src/parser/error.rs. A fallible function returns `Outcome`: a value, an error, or a panic.
-- External: the data and the functions of other crates, as parameters.
-- Reader: the trait BlockchainRead of src/parser/reader.rs, a state-passing function for each
--   method, over any reader with `read_exact`. Reader/Bytes is `Cursor`, Reader/Varint and
--   Reader/Exact are about well-formed bytes, Reader/Total about any bytes.
-- Xor: XorReader of src/parser/xor.rs: `read`, `fill_buf`, `consume`, `seek`. Xor/Bytes is about
--   the mask, Xor/Laws about the reader.
-- BlkFile: src/parser/blk_file.rs. `BlkFile` reads blocks and transactions through XorReader from
--   the files that it found in the blocks folder. BlkFile/Name parses file names, BlkFile/Parse is
--   about that, BlkFile/Scan about the folder.
-- BlockIndex: src/parser/block_index.rs. `decode` reads a record, `load_block_index` scans the
--   database and builds the longest chain, `new` adds the map from hashes to heights.
-- TxIndex: src/parser/tx_index.rs. `get_tx_position` looks up a transaction, and
--   `get_block_height` goes on to its block by the block index.
-- Script: src/parser/script.rs. `evaluate_script` classifies a script and extracts addresses.
-- Block: src/parser/block_types/compact_block.rs and full_block.rs, the two output formats.
-- Connected: src/parser/block_types/connected_block.rs, blocks whose inputs are replaced by the
--   outputs that they spend. Connected/Connect has the functions that read the indexes and files:
--   `connect_input`, `connect_tx_inputs`, `connect_block_inputs` and `connect` of each format. A
--   trait is a record of its functions. rayon's parallel maps keep the order of what they map, and
--   are maps over lists.
-- Api: src/api.rs, `BitcoinDB::new` and the queries, composed of the parts above. Api/Errors is about
--   their panics.
-- Utxo: src/iter/util.rs and the module `in_mem_utxo` of src/iter/fetch_connected_async.rs: `VecMap`
--   and the cache of unspent outputs. Utxo/Contents is the cache as a set of outputs, Utxo/Inputs and
--   Utxo/Agree compare a block that is connected from it with one that is connected through the index.
-- DiskUtxo: the module `on_disk_utxo` of src/iter/fetch_connected_async.rs, the cache over RocksDB.
--   DiskUtxo/Connect is about `connect_outpoints`, DiskUtxo/Update about `update_unspent_cache`.
-- SharedUtxo: the cache in memory under the worker threads of src/iter/connected_block_iter.rs, as
--   steps that threads take in any order. SharedUtxo/Frame is the invariant, SharedUtxo/Effect the
--   cache as a set of outputs, SharedUtxo/Run and SharedUtxo/Once are about whole runs.
-- ConnectedIter: `ConnectedBlockIter` of src/iter/connected_block_iter.rs with the cache in memory: the
--   two stages of worker threads and the iterator over them, as steps in any order. Its tasks are
--   `update_unspent_cache` and `connect_outpoints`, the latter one step for each lock.
--   ConnectedIter/Chain says what is asked of the chain, ConnectedIter/Invariant to ConnectedIter/Fetches
--   are the invariant and that each step keeps it, ConnectedIter/Deliver is about what the iterator
--   gives, ConnectedIter/Progress and ConnectedIter/Ends about its going on and its end.
-- DiskIter: the same iterator with the cache on disk, the default. DiskIter/Chain is about the chain,
--   DiskIter/Keys about the keys of a block, DiskIter/Effects about a task of the first stage,
--   DiskIter/Invariant to DiskIter/Steps are the invariant, DiskIter/Deliver is about what the iterator
--   gives and its going on, DiskIter/Cost and DiskIter/Ends about its end.
-- Iter: src/iter/block_iter.rs, over the crate par_iter_sync, whose promise is a law.
--
-- Tests: examples, with toy functions for the other crates and files in memory.
--
-- Bounds: a usize has 64 bits. `checks` says whether the build checks overflow, and each addition
-- that can overflow is written with it, the u32 numbers of outputs too. The loop of `read_varint` has
-- as fuel the number of bytes left and one, since each round takes a byte; `build_chain` has a round
-- for each height down to 0.
-- The outcome `stuck` stands for fuel that runs out.
--
-- Not modelled: how the crate par_iter_sync hands out its tasks and its results, which the steps of
-- the iterators allow in every order that it promises; the options of RocksDB; debug output and
-- serialisation; the wrappers of LevelDB's keys; what only logs.
pub mod Common
pub mod Error
pub mod External
pub mod Reader
pub mod BlockIndex
pub mod Xor
pub mod BlkFile
pub mod Script
pub mod TxIndex
pub mod Block
pub mod Connected
pub mod Api
pub mod Utxo
pub mod DiskUtxo
pub mod SharedUtxo
pub mod ConnectedIter
pub mod DiskIter
pub mod Iter
pub mod Tests
