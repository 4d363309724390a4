-- ===== src/Operator/Proving.antt =====
-- What `prove` of core/src/operator.rs writes for the circuit: the blocks and the withdrawals of a
-- period, the light client values and the challenge. The operator's world is only read; the state
-- is the environment.
pub mod Prove
pub mod Produces
pub mod Mined
pub mod Withdrawals
pub mod Payments
pub mod Period
pub mod Periods
pub mod Loop
pub mod Challenges
use clementine_citeria.Common.{
  ℕ, zero, suc, ◌+◌, ◌-◌, ◌*◌, ◌%◌, ◌^◌, List, [], ◌∷◌, Option, none, some, ◌⊎◌, inl, inr, length,
  get_elem?, replicate,
}
use clementine_citeria.Common.Bytes.{Bytes, bytes_eq}
use clementine_citeria.Common.Words.{to_le_bytes}
use clementine_citeria.Hash.{Crypto}
use clementine_citeria.Env
use clementine_citeria.Env.{Environment, Prog}
use clementine_citeria.Bitcoin.{Header, BitcoinCrate}
use clementine_citeria.Merkle.Tree
use clementine_citeria.Merkle.Tree.{MerkleTree}
use clementine_citeria.Circuit.Constants.{blockhash_merkle_tree_depth, max_block_handle_ops}
use clementine_citeria.Circuit.Bridge.{Challenge}
use clementine_citeria.Database.{Dbms, WithdrawalPayment}
use clementine_citeria.Errors
use clementine_citeria.Errors.{
  Result, ok, err, panic, ok_or, unwrap, unwrap_result, collect_map, Host, block_not_found,
  blockhash_not_found, merkle_block_error, merkle_proof_error,
}
use clementine_citeria.Errors.Binds.{pure, lift, ◌>>=◌, ◌>>◌}
use clementine_citeria.Rpc.{
  Client, Block, get_block_hash, get_block_header, get_raw_transaction, get_transaction,
}
use clementine_citeria.Writer.{
  write_block_header_without_mt_root, write_tx_to_env, write_merkle_tree_proof,
  write_blocks_and_add_to_merkle_tree,
}
use clementine_citeria.Writer.MerklePath.{MerkleBlock, PathError, extract_error}
use clementine_citeria.Writer.MerklePath.Wire.{write_bitcoin_merkle_path}

-- `MerkleBlock::from_block_with_predicate` of the crate `bitcoin`, for a txid.
pub record MerkleBlocks : Type 0 where
  pub from_block : Block → Bytes → MerkleBlock

-- `start..end`, with `n` numbers left.
unfoldable pub range : ℕ → ℕ → List ℕ
range zero i = []
range (suc n) i = i ∷ range n (suc i)

-- `?` on the writer's result.
abbrev pub path_result : PathError ⊎ Unit {0} → Result (Unit {0})
path_result (inl PathError.extract_error) = err merkle_block_error
path_result (inl PathError.merkle_proof_error) = err Errors.merkle_proof_error
path_result (inr u) = ok u

module _ ⦃r : Client⦄ where
  unfoldable pub header_at : r.Node → ℕ → Result Header
  header_at node i =
      Errors.◌>>=◌ (get_block_hash node i) λ blockhash. get_block_header node blockhash

  unfoldable pub headers_between : r.Node → ℕ → ℕ → Result (List Header)
  headers_between node start end_height =
      collect_map (header_at node) (range (end_height - start) start)

  -- `get_block`, where every error is `BlockNotFound`.
  unfoldable pub block_of : r.Node → Bytes → Result Block
  block_of node blockhash = ok_or block_not_found (r.block node blockhash)

module _ ⦃e : Environment⦄ where
  -- A write to the environment, which may panic.
  unfoldable pub run : {A : Type 0} → Prog A → Host e.State A
  run m s = elim (m s) [ none ↦ (panic, s) | some (a, s') ↦ (ok a, s') ]

  unfoldable pub write_lc_proof : Bytes → Bytes → Host e.State (Unit {0})
  write_lc_proof lc_blockhash withdrawal_mt_root = do
    run (e.write_32bytes lc_blockhash)
    run (e.write_32bytes withdrawal_mt_root)

  -- The four parts of the proof are zeros; `challenge.1.to_le_bytes()`.
  unfoldable pub write_verifiers_challenge_proof : List Bytes → Challenge → Host e.State (Unit {0})
  write_verifiers_challenge_proof proof challenge = do
    run (Env.for_each proof e.write_32bytes)
    run (e.write_32bytes challenge.last_finalized_blockhash)
    run (e.write_32bytes (to_le_bytes 32 challenge.verifiers_pow))
    run (e.write_u32 challenge.period)

module _ ⦃c : Crypto⦄ ⦃b : BitcoinCrate⦄ ⦃e : Environment⦄ ⦃r : Client⦄ ⦃m : MerkleBlocks⦄ where
  -- The hash of the block before the last ones; the index wraps below zero and panics.
  unfoldable pub lc_cutoff_blockhash : List Header → Result Bytes
  lc_cutoff_blockhash block_headers =
      Errors.◌>>=◌
        (unwrap (
          get_elem? block_headers
            ((length block_headers + 2 ^ 64 - 1 - max_block_handle_ops) % 2 ^ 64)))
        λ header. ok (b.block_hash header)

  unfoldable pub write_blocks_between :
      r.Node → ℕ → ℕ → MerkleTree → Host e.State (MerkleTree × Bytes)
  write_blocks_between node start_block_height end_block_height blockhashes_mt = do
    block_headers ← lift (headers_between node start_block_height end_block_height)
    cutoff ← lift (lc_cutoff_blockhash block_headers)
    mt ← run (write_blocks_and_add_to_merkle_tree block_headers blockhashes_mt)
    pure (mt, cutoff)

  -- The block of a transaction: its path, its header and the proof of its hash.
  unfoldable pub write_inclusion : r.Node → Bytes → Bytes → MerkleTree → Host e.State (Unit {0})
  write_inclusion node txid blockhash blockhash_mt = do
    block ← lift (block_of node blockhash)
    written ← run (write_bitcoin_merkle_path (m.from_block block txid))
    lift (path_result written)
    run (write_block_header_without_mt_root block.header)
    run (write_merkle_tree_proof blockhash_merkle_tree_depth blockhash none blockhash_mt)

  unfoldable pub write_withdrawal :
      r.Node → WithdrawalPayment → MerkleTree → MerkleTree → Host e.State MerkleTree
  write_withdrawal node (txid, hash) withdrawal_mt blockhash_mt = do
    run (e.write_32bytes hash)
    tx ← lift (get_raw_transaction node txid)
    run (write_tx_to_env tx)
    get_transaction_result ← lift (get_transaction node txid)
    blockhash ← lift (ok_or blockhash_not_found get_transaction_result.blockhash)
    write_inclusion node txid blockhash blockhash_mt
    lift (unwrap (Tree.add withdrawal_mt hash))

  -- `for (txid, hash) in withdrawal_payments`
  unfoldable pub write_each_withdrawal :
      r.Node → List WithdrawalPayment → MerkleTree → MerkleTree → Host e.State MerkleTree
  write_each_withdrawal node [] withdrawal_mt blockhash_mt = pure withdrawal_mt
  write_each_withdrawal node (payment ∷ rest) withdrawal_mt blockhash_mt = do
    mt ← write_withdrawal node payment withdrawal_mt blockhash_mt
    write_each_withdrawal node rest mt blockhash_mt

  unfoldable pub write_withdrawals_and_add_to_merkle_tree :
      r.Node → List WithdrawalPayment → MerkleTree → MerkleTree → Host e.State MerkleTree
  write_withdrawals_and_add_to_merkle_tree node withdrawal_payments withdrawal_mt blockhash_mt = do
    run (e.write_u32 (length withdrawal_payments % 2 ^ 32))
    write_each_withdrawal node withdrawal_payments withdrawal_mt blockhash_mt
