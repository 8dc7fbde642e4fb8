-- ===== src/Worker.antt =====
-- crates/gateway/src/worker.rs: an order from its message to Valkey and PostgreSQL.
pub mod Message
pub mod Persist
pub mod Process
pub mod Views
