-- ===== src/Storage.antt =====
-- The storage engine: the write-ahead log of storage/wal.go.
pub mod Wal
pub mod SkipList
pub mod Entries
pub mod Format
pub mod Merger
pub mod SsTable
pub mod MemTable
pub mod Merge
pub mod Bloom
mod Tests
mod FileTests
