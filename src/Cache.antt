-- ===== src/Cache.antt =====
-- The cache of addresses and what is admitted to it.
pub mod Policy
pub mod Shard
pub mod Shards
mod Examples
