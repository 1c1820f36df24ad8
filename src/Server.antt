-- ===== src/Server.antt =====
-- src/server/server.js: the signalling server, run without Redis.
pub mod State
pub mod Sessions
pub mod Push
pub mod Discovery
pub mod Signalling
pub mod Heartbeat
pub mod Agent
pub mod Reach
