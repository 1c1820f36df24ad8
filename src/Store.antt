-- ===== src/Store.antt =====
-- src/services/IndexedDBService.ts: the browser database and the service over it.
pub mod Types
pub mod Exec
pub mod Reactions
pub mod Messages
pub mod Deletion
pub mod PublicCache
pub mod Tables
