-- ===== src/Filters/Cache.antt =====
-- filters/cache/: the storage of the cache filter.
pub mod Shard
pub mod Storage
mod Tests
