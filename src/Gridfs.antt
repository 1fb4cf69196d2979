-- ===== src/Gridfs.antt =====
-- src/sync-gridfs-stream.c and src/sync-gridfs-chunk.c: files that are stored as chunks.
mod Examples
pub mod Server
pub mod Document
pub mod Writer
pub mod Reader
pub mod File
pub mod Find
pub mod Stream
pub mod Upload
pub mod Stored
pub mod RoundTrip
