-- ===== src/Lib.antt =====
-- Clementine: a Bitcoin bridge whose operator proves to its verifiers, in a zkVM, that it paid the
-- withdrawals on the chain with the most work.
--
-- The host (core/src) keeps the operator's Merkle trees and writes headers, transactions and Merkle
-- proofs into an environment, a queue of typed values; the guest (circuits/src) reads them in the
-- same order, recomputes every hash, and panics unless they fit together.
--
-- Common        numbers, bytes, lists and computations that may panic
-- Hash          circuits/src/hashes.rs, over SHA-256 and the key tweak as parameters
-- Bitcoin       the types and the encoding of the crate `bitcoin`, a parameter
-- Env           circuits/src/env.rs; Env.Tape is the contract of an environment, Env.Mock is
--               core/src/mock_env.rs, which meets it
-- Merkle        the two trees against one specification (Levels): Incremental is
--               circuits/src/incremental_merkle.rs, Tree is core/src/merkle.rs
-- Circuit       circuits/src/bitcoin.rs and circuits/src/bridge.rs: Work (targets), Transaction,
--               Commitment, MerkleProof, Blocks, Bridge (`bridge_proof`)
--               Transaction.Pays, MerkleProof.Climbs and Bridge.Withdrawals follow what an accepted
--               withdrawal proof has read, by the loop rules of Env.Loops
-- Writer        `ENVWriter` of core/src/env_writer.rs, and its round trips with the circuit
-- Claim         the reveal indices and the claim proof root of core/src/utils.rs
-- Database      core/src/db/common.rs over a disk that is a parameter
-- Errors        core/src/errors.rs, and the results and sequencing of the host's code
-- Script        core/src/script_builder.rs
-- Builder       core/src/transaction_builder.rs: addresses, Transactions, Connector (the trees)
-- Actor, Rpc    core/src/actor.rs and core/src/extended_rpc.rs; Rpc.Deposit has the deposit's checks
--               and the witnesses of core/src/utils.rs and core/src/user.rs
-- Operator      core/src/operator.rs and core/src/db/operator.rs: State, Setup, Deposit with Claims,
--               Payments with Split (withdrawals, inscriptions, spending), Proving: Prove is `prove`,
--               Produces, Mined, Withdrawals, Payments, Period, Periods and Loop follow its loop
--               over the periods, Challenges what it writes after it
-- Verifier      core/src/verifier.rs and core/src/db/verifier.rs
-- Tests         concrete runs
--
-- Functions keep the names of the source. A panic is `none`; code that is generic in the
-- environment is a function of its state (`Prog`). Loops are structural: over the counter that the
-- source counts down or over the list, so no fuel is needed. The depth of a tree is an argument
-- where the source has a const generic. A u32 wraps as in a release build, and a U256 is a number
-- below 2 ^ 256. Bitcoin's target of a header is that of the crate `bitcoin`, with the mantissa's
-- sign. A hasher that is fed in pieces is the bytes it was given.
--
-- The operator works on a `World`: its disk, its two other fields and its node. A step of the host is
-- a function of that state into a result and the state after it, so an error keeps what was done
-- before it. The node answers questions from its state, which only sending and mining change: what
-- others do to it between two calls of one operation is not modelled. `prove` only reads the world,
-- and its state is the environment. Scripts are lists of pushes; the crates `bitcoin` and
-- `secp256k1` and the client of Bitcoin Core are parameters (ScriptCrate, TaprootCrate, Secp, Client).
--
-- Not modelled: the keys' file, the programs, logging, and the proof system of the zkVM itself.
pub mod Common
pub mod Hash
pub mod Merkle
pub mod Env
pub mod Bitcoin
pub mod Circuit
pub mod Claim
pub mod Database
pub mod Operator
pub mod Errors
pub mod Constants
pub mod Script
pub mod Builder
pub mod Actor
pub mod Rpc
pub mod Verifier
pub mod Writer
mod Tests
