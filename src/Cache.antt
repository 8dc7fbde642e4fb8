-- ===== src/Cache.antt =====
-- crates/shared/src/cache.rs: the order book and the balances in Valkey.
pub mod Scale
pub mod Double
pub mod Crates
pub mod Fields
pub mod Valkey
pub mod Memory
pub mod Script
pub mod Match
pub mod Book
pub mod Seed
pub mod Snapshot
pub mod Balance
