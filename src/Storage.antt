-- ===== src/Storage.antt =====
-- The storage engine: src/storage and include/kvstore/storage.
pub mod Time
pub mod Heap
pub mod Shard
pub mod View
pub mod Store
pub mod TtlSweeper
