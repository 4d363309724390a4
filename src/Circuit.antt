-- ===== src/Circuit.antt =====
-- The circuit that the zkVM runs: circuits/src/bitcoin.rs and circuits/src/bridge.rs.
pub mod Constants
pub mod Work
pub mod Transaction
pub mod Commitment
pub mod MerkleProof
pub mod Blocks
pub mod Bridge
