-- ===== src/Merkle.antt =====
-- The Merkle trees of circuits/src/incremental_merkle.rs and core/src/merkle.rs.
pub mod Levels
pub mod Incremental
pub mod Tree
pub mod Agreement
