-- ===== src/Ws.antt =====
-- crates/ws-handler: the WebSocket handler.
pub mod Sets
pub mod Sessions
pub mod Push
