-- ===== src/Visibility.antt =====
-- storage/visibility.rs: which stored events a query shows. This file has the data and the
-- summary of a batch of packets; the children have the text of tags and keys, the persistent
-- store, and the theorems.
pub mod Hex
pub mod Address
pub mod Summary
pub mod Index
pub mod Order
pub mod Gather
pub mod DeletedIds
pub mod Merged
pub mod Shown
pub mod Store
pub mod Authors
pub mod DeletedAddresses
pub mod Pairwise
