-- ===== src/Circuit/Bridge.antt =====
-- `bridge_proof` and what it is made of, from circuits/src/bridge.rs.
pub mod Withdrawals
pub mod Checks
use clementine_citeria.Common.{
  ℕ, zero, suc, ◌+◌, ◌%◌, ◌^◌, List, [], ◌∷◌, Option, none, some, Bool, true, ◌==◌, ltb,
  if◌then◌else◌, assert, replicate, get_elem?,
}
use clementine_citeria.Common.Bytes.{Bytes, bytes_eq}
use clementine_citeria.Common.Words.{from_le_bytes}
use clementine_citeria.Hash.{Crypto}
use clementine_citeria.Env.{Environment, Prog, pure, lift, ◌>>=◌, ◌>>◌, for_range}
use clementine_citeria.Merkle.Incremental
use clementine_citeria.Merkle.Incremental.{IncrementalMerkleTree}
use clementine_citeria.Circuit.Constants.{
  blockhash_merkle_tree_depth, withdrawal_merkle_tree_depth, claim_merkle_tree_depth,
  max_block_handle_ops, num_rounds, bridge_amount_sats, period_claim_mt_roots,
}
use clementine_citeria.Circuit.Transaction.{read_tx_and_calculate_txid}
use clementine_citeria.Circuit.Commitment.{read_preimages_and_calculate_commit_taproot}
use clementine_citeria.Circuit.MerkleProof.{
  read_merkle_tree_proof, read_and_verify_bitcoin_merkle_path,
}
use clementine_citeria.Circuit.Blocks.{
  ChainWithTree, read_header_except_root_and_calculate_blockhash, read_blocks_and_calculate_work,
  read_blocks_and_add_to_merkle_tree,
}

-- `verify_challenge_proof` accepts every proof for now.
unfoldable pub verify_challenge_proof : List Bytes → Bool
verify_challenge_proof proof = true

-- The journal: the verifier's work, its last finalized block hash and its period.
pub record Challenge : Type 0 where
  pub verifiers_pow : ℕ
  pub last_finalized_blockhash : Bytes
  pub period : ℕ

-- The variables of the loop over the periods.
pub record Periods : Type 0 where
  pub blockhashes_mt : IncrementalMerkleTree
  pub withdrawal_mt : IncrementalMerkleTree
  pub total_pow : ℕ
  pub cur_block_hash : Bytes
  pub lc_blockhash : Bytes
  pub total_num_withdrawals : ℕ
  pub last_period : ℕ

-- `if claimed != proved { if total_pow > verifiers_pow { win() } else { panic!() } }`; `win` does
-- nothing, so the code goes on.
unfoldable pub settle : Bool → ℕ → ℕ → Option (Unit {0})
settle agree total_pow verifiers_pow =
    if agree then some tt else assert (ltb verifiers_pow total_pow)

module _ ⦃c : Crypto⦄ ⦃e : Environment⦄ where
  -- The withdrawal tree that it is given, with the output's address.
  unfoldable pub read_withdrawal_proof : Bytes → IncrementalMerkleTree → Prog IncrementalMerkleTree
  read_withdrawal_proof block_mt_root imt = do
    output_address ← e.read_32bytes
    txid ← read_tx_and_calculate_txid none (some (some bridge_amount_sats, output_address))
    block_tx_mt_root ← read_and_verify_bitcoin_merkle_path txid
    calculated_blockhash ← read_header_except_root_and_calculate_blockhash block_tx_mt_root
    root ← read_merkle_tree_proof blockhash_merkle_tree_depth calculated_blockhash none
    lift (assert (bytes_eq block_mt_root root))
    pure (Incremental.add imt output_address)

  unfoldable pub read_and_verify_lc_proof : Bytes → Bytes → Prog (Unit {0})
  read_and_verify_lc_proof lc_blockhash withdrawal_mt_root = do
    read_lc_blockhash ← e.read_32bytes
    lift (assert (bytes_eq read_lc_blockhash lc_blockhash))
    read_withdrawal_mt_root ← e.read_32bytes
    lift (assert (bytes_eq read_withdrawal_mt_root withdrawal_mt_root))

  -- `period_num as u8` keeps the low byte.
  unfoldable pub read_and_verify_verifiers_challenge_proof : Prog Challenge
  read_and_verify_verifiers_challenge_proof = do
    p0 ← e.read_32bytes
    p1 ← e.read_32bytes
    p2 ← e.read_32bytes
    p3 ← e.read_32bytes
    lc_cutoff_blockhash ← e.read_32bytes
    max_pow_bytes ← e.read_32bytes
    period_num ← e.read_u32
    lift (assert (verify_challenge_proof (p0 ∷ p1 ∷ p2 ∷ p3 ∷ [])))
    pure (record {
      verifiers_pow = from_le_bytes max_pow_bytes;
      last_finalized_blockhash = lc_cutoff_blockhash;
      period = period_num % 256;
    })

  -- The body of the loop over the periods, up to the question whether to go on: the variables, and
  -- `do_you_want_to_end_proving`. `total_num_withdrawals` is a `u32`.
  unfoldable pub read_period : Periods → Prog (Periods × ℕ)
  read_period s = do
    blocks ←
        read_blocks_and_add_to_merkle_tree s.cur_block_hash s.blockhashes_mt max_block_handle_ops
    num_withdrawals ← e.read_u32
    withdrawal_mt ←
        for_range num_withdrawals 0 (λ _ mt. read_withdrawal_proof blocks.imt.root mt)
          s.withdrawal_mt
    do_you_want_to_end_proving ← e.read_u32
    pure (
      record s {
        blockhashes_mt = blocks.imt;
        withdrawal_mt = withdrawal_mt;
        total_pow = (s.total_pow + blocks.total_work) % 2 ^ 256;
        cur_block_hash = blocks.curr_prev_block_hash;
        lc_blockhash = blocks.lc_block_hash;
        total_num_withdrawals = (s.total_num_withdrawals + num_withdrawals) % 2 ^ 32;
      },
      do_you_want_to_end_proving,
    )

  -- `for period_count in 0..NUM_ROUNDS`, with `rounds` left. A loop that is not ended by the input
  -- leaves `last_period` as it was.
  unfoldable pub read_periods : ℕ → ℕ → Periods → Prog Periods
  read_periods zero period_count s = pure s
  read_periods (suc rounds) period_count s = do
    (s', do_you_want_to_end_proving) ← read_period s
    if do_you_want_to_end_proving == 1
        then pure (record s' { last_period = period_count })
        else read_periods rounds (suc period_count) s'

  -- From `read_and_verify_lc_proof` on: the commitment, its inclusion and the claim proof tree.
  unfoldable pub read_claim : Periods → ℕ → Prog (Unit {0})
  read_claim s verifiers_challenge_period = do
    read_and_verify_lc_proof s.lc_blockhash s.withdrawal_mt.root
    (commit_taproot_addr, claim_proof_tree_leaf) ← read_preimages_and_calculate_commit_taproot
    commit_taproot_txid ← read_tx_and_calculate_txid none (some (none, commit_taproot_addr))
    vout ← e.read_u32
    reveal_txid ← read_tx_and_calculate_txid (some (commit_taproot_txid, vout)) none
    calculated_merkle_root ← read_and_verify_bitcoin_merkle_path reveal_txid
    calculated_blockhash ← read_header_except_root_and_calculate_blockhash calculated_merkle_root
    root ← read_merkle_tree_proof blockhash_merkle_tree_depth calculated_blockhash none
    lift (assert (bytes_eq s.blockhashes_mt.root root))
    period_root ← lift (get_elem? period_claim_mt_roots verifiers_challenge_period)
    claim_root ←
        read_merkle_tree_proof claim_merkle_tree_depth claim_proof_tree_leaf
          (some s.total_num_withdrawals)
    lift (assert (bytes_eq period_root claim_root))

  unfoldable pub bridge_proof : Prog Challenge
  bridge_proof = do
    first_block_hash ← e.read_32bytes
    s ← read_periods num_rounds 0 (record {
      blockhashes_mt = Incremental.new blockhash_merkle_tree_depth;
      withdrawal_mt = Incremental.new withdrawal_merkle_tree_depth;
      total_pow = 0;
      cur_block_hash = first_block_hash;
      lc_blockhash = replicate 32 0;
      total_num_withdrawals = 0;
      last_period = 0;
    })
    challenge ← read_and_verify_verifiers_challenge_proof
    k_deep_work ← read_blocks_and_calculate_work s.cur_block_hash
    let total_pow = (s.total_pow + k_deep_work) % 2 ^ 256
    lift (settle (challenge.period == s.last_period % 256) total_pow challenge.verifiers_pow)
    lift (
        settle (bytes_eq challenge.last_finalized_blockhash s.cur_block_hash) total_pow
          challenge.verifiers_pow)
    read_claim s challenge.period
    pure challenge
