-- ===== src/Circuit/Bridge/Withdrawals.antt =====
-- What is known of a withdrawal that `read_withdrawal_proof` accepted.
use clementine_citeria.Common.{ℕ, ◌≡◌, List, length}
use clementine_citeria.Common.Bytes.{Bytes}
use clementine_citeria.Hash.{Crypto, double_sha256_hash}
use clementine_citeria.Bitcoin.{Header, encode_header}
use clementine_citeria.Merkle.Incremental
use clementine_citeria.Merkle.Tree.Paths.{climb}
use clementine_citeria.Circuit.Constants.{blockhash_merkle_tree_depth, bridge_amount_sats}
use clementine_citeria.Circuit.Transaction.Pays.{taproot_output, Contains}
use clementine_citeria.Circuit.MerkleProof.Wire.{climb_double}

module _ ⦃c : Crypto⦄ where
  -- The bytes of a transaction that pays the bridge amount to the address, and the hashes that lead
  -- from it over a block's header to the root of the tree of the block hashes.
  pub record Withdrawn (block_mt_root address : Bytes) : Type 0 where
    pub tx : Bytes
    pub pays : Contains (taproot_output bridge_amount_sats address) tx
    pub index : ℕ
    pub path : List Bytes
    pub header : Header
    pub in_block : climb_double path index (double_sha256_hash tx) ≡ header.merkle_root
    pub position : ℕ
    pub siblings : List Bytes
    pub depth : length siblings ≡ blockhash_merkle_tree_depth
    pub in_tree :
        climb siblings position (double_sha256_hash (encode_header header)) ≡ block_mt_root
