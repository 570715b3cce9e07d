-- ===== src/Tree.antt =====
-- shar/core/tree.rs.
pub mod File
pub mod Search
pub mod Insert
pub mod Delete
pub mod Document
pub mod Load
pub mod Directory
pub mod Edit
pub mod Youngest
