-- ===== src/Api.antt =====
-- The worker of the older deployment, crates/api.
pub mod Cancel
pub mod Orders
pub mod Persist
