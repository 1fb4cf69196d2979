-- ===== src/Bson.antt =====
-- src/bson.c and the inline functions of src/bson.h.
pub mod Types
pub mod Object
pub mod Append
pub mod Element
pub mod Build
pub mod Cursor
pub mod Get
mod Examples
