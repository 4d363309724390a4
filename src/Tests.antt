-- ===== src/Tests.antt =====
-- Concrete runs, and the theorems at concrete inputs.
mod Toy
mod Merkle
mod Work
mod Wire
mod Blocks
mod Bridge
mod Claim
mod Database
mod Operator
mod Path
mod Host
mod Builder
mod Setup
mod Deposit
mod Withdrawals
mod Proving
