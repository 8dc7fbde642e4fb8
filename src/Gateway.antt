-- ===== src/Gateway.antt =====
-- crates/gateway: the HTTP side.
pub mod Orders
pub mod Broadcasts
pub mod UserCache
pub mod Reads
pub mod Manage
