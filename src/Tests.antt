-- ===== src/Tests.antt =====
-- Examples: the theorems at concrete inputs.
pub mod Sample
mod Index
mod Files
mod Scripts
mod Connected
mod Api
mod Utxo
mod Disk
mod Shared
mod Iterator
mod DiskIterator
mod Scan
