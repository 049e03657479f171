-- ===== src/Examples.antt =====
-- The theorems at concrete inputs.
mod Data
mod Finder
mod Shown
mod Files
mod Terms
mod Others
mod Bloom
mod Days
mod Dispatch
mod Filters
mod Lmdb
mod Store
mod Dump
mod Cursors
mod Sidecars
mod Queries
mod Matchers
mod Reindexed
mod Rebuilt
