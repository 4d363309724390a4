-- ===== src/Writer/MerklePath/Witness.antt =====
-- `write_witness_merkle_path` of core/src/env_writer.rs, over the witness root and the partial Merkle
-- tree of the crate `bitcoin`.
use clementine_citeria.Common.{ℕ, suc, Option, List, [], ◌∷◌, ◌==◌, if◌then◌else◌, replicate, ◌⊎◌}
use clementine_citeria.Common.Bytes.{Bytes, bytes_eq}
use clementine_citeria.Hash.{Crypto}
use clementine_citeria.Bitcoin.{Header, Transaction, BitcoinCrate}
use clementine_citeria.Env.{Environment, Prog, lift, ◌>>=◌}
use clementine_citeria.Rpc.{Block}
use clementine_citeria.Writer.MerklePath.{MerkleBlock, PathError}
use clementine_citeria.Writer.MerklePath.Wire.{write_bitcoin_merkle_path}

-- `Block::witness_root` and `MerkleBlock::from_header_txids_with_predicate`, for one hash.
pub record WitnessBlocks : Type 0 where
  pub witness_root : Block → Option Bytes
  pub from_header_txids : Header → List Bytes → Bytes → MerkleBlock

-- The hashes of the transactions from the index `i` on, the first one's replaced with zeros.
unfoldable pub witness_hashes : ℕ → List Bytes → List Bytes
witness_hashes i [] = []
witness_hashes i (wtxid ∷ wtxids) =
    (if i == 0 then replicate 32 0 else wtxid) ∷ witness_hashes (suc i) wtxids

module _ ⦃c : Crypto⦄ ⦃b : BitcoinCrate⦄ where
  -- `wtxid`, which the last transaction with the txid sets.
  unfoldable pub wtxid_of : Bytes → List Transaction → List Bytes → Bytes → Bytes
  wtxid_of txid (t ∷ txdata) (hash ∷ wtxids) wtxid =
      wtxid_of txid txdata wtxids (if bytes_eq (b.txid t) txid then hash else wtxid)
  wtxid_of txid [] wtxids wtxid = wtxid
  wtxid_of txid (t ∷ txdata) [] wtxid = wtxid

  unfoldable pub write_witness_merkle_path :
      ⦃e : Environment⦄ → ⦃m : WitnessBlocks⦄ → Bytes → Block → Prog (PathError ⊎ Unit {0})
  write_witness_merkle_path ⦃m = m⦄ txid block = do
    witness_root ← lift (m.witness_root block)
    let dummy_header = record block.header { merkle_root = witness_root }
    let wtxid = wtxid_of txid block.txdata block.wtxids (replicate 32 0)
    write_bitcoin_merkle_path
        (m.from_header_txids dummy_header (witness_hashes 0 block.wtxids) wtxid)
