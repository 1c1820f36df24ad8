-- ===== src/Peer.antt =====
-- src/services/PeerService.ts: peers, their channels, the outbox and the public room.
pub mod State
pub mod Outbox
pub mod Links
pub mod Room
pub mod Mesh
pub mod Restore
pub mod Flush
pub mod Profiles
pub mod Inbox
pub mod Files
