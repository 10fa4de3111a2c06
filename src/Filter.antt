-- ===== src/Filter.antt =====
-- The filtering data structures: RadixTree, CuckooFilter and DomainBlocklist.
pub mod RadixTree
pub mod Cuckoo
pub mod Blocklist
mod Examples
