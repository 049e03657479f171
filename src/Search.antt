-- ===== src/Search.antt =====
-- storage/search.rs: the search index of an events file. The children have the index and how it
-- grows, the search for a term, and the Bloom filter.
pub mod File
pub mod Index
pub mod Terms
pub mod Bloom
