-- ===== src/Util.antt =====
-- src/mongo-utils.c.
pub mod Address
pub mod Hosts
pub mod Oid
mod Examples
