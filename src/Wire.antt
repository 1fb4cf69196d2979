-- ===== src/Wire.antt =====
-- src/mongo-wire.c.
pub mod Packet
pub mod Commands
pub mod Layout
pub mod Batches
pub mod Reply
pub mod Documents
pub mod Rebuilt
mod Examples
