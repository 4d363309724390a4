-- ===== src/Operator/Proving/Prove.antt =====
-- `prove` and `prove_test` of core/src/operator.rs.
use clementine_citeria.Common.{
  ℕ, zero, suc, ◌+◌, ◌-◌, ◌%◌, ◌^◌, List, [], ◌∷◌, ◌++◌, some, length, get_elem?, replicate, ◌==◌,
  if◌then◌else◌,
}
use clementine_citeria.Common.Bytes.{Bytes}
use clementine_citeria.Hash.{Crypto, sha256_hash}
use clementine_citeria.Env.{Environment}
use clementine_citeria.Bitcoin.{BitcoinCrate}
use clementine_citeria.Merkle.Tree
use clementine_citeria.Merkle.Tree.{MerkleTree, root}
use clementine_citeria.Circuit.Constants.{
  blockhash_merkle_tree_depth, withdrawal_merkle_tree_depth, claim_merkle_tree_depth,
}
use clementine_citeria.Circuit.Bridge.{Challenge}
use clementine_citeria.Database.{
  Dbms, get_start_block_height, get_period_relative_block_heights, get_inscription_txs,
  get_withdrawals_payment_for_period, get_inscribed_preimages, get_claim_proof_merkle_tree,
}
use clementine_citeria.Errors
use clementine_citeria.Errors.{
  Result, ok, ok_or, unwrap, unwrap_result, collect_map, Host, blockhash_not_found,
}
use clementine_citeria.Errors.Binds.{pure, lift, ◌>>=◌, ◌>>◌}
use clementine_citeria.Rpc.{
  Client, get_block_count, get_block_hash, get_raw_transaction, get_raw_transaction_info,
}
use clementine_citeria.Writer.{
  write_tx_to_env, write_merkle_tree_proof, write_blocks, write_preimages,
}
use clementine_citeria.Operator.State.{World, Operator, query}
use clementine_citeria.Operator.Proving.{
  MerkleBlocks, range, header_at, run, write_lc_proof, write_verifiers_challenge_proof,
  write_blocks_between, write_inclusion, write_withdrawals_and_add_to_merkle_tree,
}

-- The variables of the loop over the periods.
pub record Proved : Type 0 where
  pub blockhashes_mt : MerkleTree
  pub withdrawal_mt : MerkleTree
  pub lc_blockhash : Bytes
  pub end_height : ℕ
  pub total_num_withdrawals : ℕ

module _ ⦃c : Crypto⦄ where
  -- The hasher over the hashes of the preimages.
  unfoldable pub preimage_hashes : List Bytes → Bytes
  preimage_hashes [] = []
  preimage_hashes (preimage ∷ rest) = sha256_hash preimage ++ preimage_hashes rest

-- The height at which the period `i` starts.
unfoldable pub period_start : ℕ → List ℕ → ℕ → Result ℕ
period_start start_block_height heights zero = ok start_block_height
period_start start_block_height heights (suc i) =
    Errors.◌>>=◌ (unwrap (get_elem? heights i))
      λ height. ok ((start_block_height + height) % 2 ^ 64)

module _ ⦃c : Crypto⦄ ⦃b : BitcoinCrate⦄ ⦃e : Environment⦄ ⦃d : Dbms⦄ ⦃r : Client⦄
    ⦃m : MerkleBlocks⦄ where
  -- The body of `for i in 0..last_period + 1`.
  unfoldable pub prove_period : World → ℕ → List ℕ → ℕ → ℕ → Proved → Host e.State Proved
  prove_period w start_block_height heights last_period i s = do
    start_height ← lift (period_start start_block_height heights i)
    height ← lift (unwrap (get_elem? heights i))
    let end_height = (start_block_height + height) % 2 ^ 64
    (blockhashes_mt, lc_blockhash) ←
        write_blocks_between w.node start_height end_height s.blockhashes_mt
    payments ← lift (query (get_withdrawals_payment_for_period i) w.disk)
    withdrawal_mt ←
        write_withdrawals_and_add_to_merkle_tree w.node payments s.withdrawal_mt blockhashes_mt
    if i == last_period then pure tt else run (e.write_u32 0)
    pure (record {
      blockhashes_mt = blockhashes_mt;
      withdrawal_mt = withdrawal_mt;
      lc_blockhash = lc_blockhash;
      end_height = end_height;
      total_num_withdrawals = s.total_num_withdrawals + length payments;
    })

  -- The loop, with `n` periods left from `i` on.
  unfoldable pub prove_periods : World → ℕ → List ℕ → ℕ → ℕ → ℕ → Proved → Host e.State Proved
  prove_periods w start_block_height heights last_period zero i s = pure s
  prove_periods w start_block_height heights last_period (suc n) i s = do
    s' ← prove_period w start_block_height heights last_period i s
    prove_periods w start_block_height heights last_period n (suc i) s'

  -- The blocks from the end of the last period on, up to the node's height.
  unfoldable pub write_remaining_blocks : World → ℕ → Host e.State (Unit {0})
  write_remaining_blocks w end_height = do
    cur_block_height ← lift (unwrap_result (get_block_count w.node))
    k_deep_blocks ← lift (
        unwrap_result
          (collect_map (header_at w.node) (range (cur_block_height - end_height) end_height)))
    run (write_blocks k_deep_blocks)

  -- The inscription: the commit and the reveal transaction, and the block of the latter.
  unfoldable pub write_inscription : World → ℕ → MerkleTree → Host e.State (Unit {0})
  write_inscription w last_period blockhashes_mt = do
    inscriptions ← lift (query get_inscription_txs w.disk)
    (commit_utxo, reveal_txid) ← lift (unwrap (get_elem? inscriptions last_period))
    commit_tx ← lift (get_raw_transaction w.node commit_utxo.0)
    reveal_tx ← lift (get_raw_transaction w.node reveal_txid)
    run (write_tx_to_env commit_tx)
    first_input ← lift (unwrap (get_elem? reveal_tx.input 0))
    run (e.write_u32 first_input.vout)
    run (write_tx_to_env reveal_tx)
    info ← lift (unwrap_result (get_raw_transaction_info w.node reveal_txid))
    blockhash ← lift (ok_or blockhash_not_found info.blockhash)
    write_inclusion w.node reveal_txid blockhash blockhashes_mt

  -- From the challenge on.
  unfoldable pub prove_claim : Operator → World → Challenge → ℕ → Proved → Host e.State (Unit {0})
  prove_claim operator w challenge last_period s = do
    let zeros : Bytes = replicate 32 0
    write_verifiers_challenge_proof (replicate 4 zeros) challenge
    write_remaining_blocks w s.end_height
    withdrawal_root ← lift (unwrap (root withdrawal_merkle_tree_depth s.withdrawal_mt))
    write_lc_proof s.lc_blockhash withdrawal_root
    preimages ← lift (query (get_inscribed_preimages last_period) w.disk)
    run (write_preimages operator.signer.xonly_public_key preimages)
    let preimage_hash = sha256_hash (preimage_hashes preimages)
    write_inscription w last_period s.blockhashes_mt
    claim_tree ← lift (query (get_claim_proof_merkle_tree last_period) w.disk)
    run (
        write_merkle_tree_proof claim_merkle_tree_depth preimage_hash
          (some (s.total_num_withdrawals % 2 ^ 32)) claim_tree)

  -- `inscription_txs.len() - 1` and `start_block_height - 1` wrap.
  unfoldable pub prove : Operator → World → Challenge → Host e.State (Unit {0})
  prove operator w challenge = do
    start_block_height ← lift (query get_start_block_height w.disk)
    heights ← lift (query get_period_relative_block_heights w.disk)
    inscriptions ← lift (query get_inscription_txs w.disk)
    start_blockhash ← lift (get_block_hash w.node ((start_block_height + 2 ^ 64 - 1) % 2 ^ 64))
    run (e.write_32bytes start_blockhash)
    let last_period = (length inscriptions + 2 ^ 64 - 1) % 2 ^ 64
    s ← prove_periods w start_block_height heights last_period (length inscriptions) 0 (record {
      blockhashes_mt = Tree.new blockhash_merkle_tree_depth;
      withdrawal_mt = Tree.new withdrawal_merkle_tree_depth;
      lc_blockhash = replicate 32 0;
      end_height = 0;
      total_num_withdrawals = 0;
    })
    run (e.write_u32 1)
    prove_claim operator w challenge last_period s

  unfoldable pub prove_test : Operator → World → Host e.State (Unit {0})
  prove_test operator w = do
    inscriptions ← lift (query get_inscription_txs w.disk)
    let last_period = (length inscriptions + 2 ^ 64 - 1) % 2 ^ 64
    preimages ← lift (query (get_inscribed_preimages last_period) w.disk)
    run (write_preimages operator.signer.xonly_public_key preimages)
