-- ===== src/Sync.antt =====
-- The synchronous layer over the wire protocol: src/mongo-sync.c and src/mongo-sync-cursor.c.
pub mod Connection
pub mod Cursor
pub mod Master
pub mod Members
pub mod Reply
pub mod Send
pub mod Nonce
pub mod Authenticate
pub mod Reconnect
pub mod Recover
pub mod LastError
pub mod Insert
pub mod Commands
mod Examples
