-- ===== src/Circuit/MerkleProof.antt =====
-- `read_merkle_tree_proof` of circuits/src/bridge.rs and `read_and_verify_bitcoin_merkle_path` of
-- circuits/src/bitcoin.rs.
pub mod Wire
pub mod Climbs
pub mod Binding
use clementine_citeria.Common.{
  ℕ, zero, suc, ◌/◌, ◌%◌, ◌++◌, Option, none, some, ◌==◌, if◌then◌else◌,
}
use clementine_citeria.Common.Bytes.{Bytes}
use clementine_citeria.Hash.{Crypto, hash_pair, double_sha256_hash}
use clementine_citeria.Env.{Environment, Prog, pure, ◌>>=◌, for_range}

module _ ⦃c : Crypto⦄ ⦃e : Environment⦄ where
  -- One round of `for _ in 0..D`: the hash and `level_idx`.
  unfoldable pub proof_round : ℕ → Bytes × ℕ → Prog (Bytes × ℕ)
  proof_round i (hash, level_idx) = do
    sibling ← e.read_32bytes
    pure (
      (if level_idx % 2 == 0 then hash_pair hash sibling else hash_pair sibling hash),
      level_idx / 2,
    )

  unfoldable pub index_or_read : Option ℕ → Prog ℕ
  index_or_read none = e.read_u32
  index_or_read (some index) = pure index

  unfoldable pub read_merkle_tree_proof : ℕ → Bytes → Option ℕ → Prog Bytes
  read_merkle_tree_proof depth leaf index = do
    level_idx ← index_or_read index
    (hash, rest) ← for_range depth 0 proof_round (leaf, level_idx)
    pure hash

  -- One round of `for _ in 0..levels`: the hash and the index.
  unfoldable pub path_round : ℕ → Bytes × ℕ → Prog (Bytes × ℕ)
  path_round i (hash, index) = do
    node ← e.read_32bytes
    pure (
      (if index % 2 == 0
          then double_sha256_hash (hash ++ node)
          else double_sha256_hash (node ++ hash)),
      index / 2,
    )

  unfoldable pub read_and_verify_bitcoin_merkle_path : Bytes → Prog Bytes
  read_and_verify_bitcoin_merkle_path txid = do
    index ← e.read_u32
    levels ← e.read_u32
    (hash, rest) ← for_range levels 0 path_round (txid, index)
    pure hash
