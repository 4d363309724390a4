-- ===== src/Builder/Connector.antt =====
-- The connector trees of core/src/transaction_builder.rs: the source transactions, one to a round,
-- and the binary tree of unspent outputs below the root of each.
use clementine_citeria.Common.{
  ℕ, zero, suc, ◌+◌, ◌-◌, ◌*◌, ◌%◌, ◌^◌, List, [], ◌∷◌, length, get_elem?,
}
use clementine_citeria.Common.Bytes.{Bytes}
use clementine_citeria.Hash.{Crypto}
use clementine_citeria.Bitcoin.{Transaction, BitcoinCrate}
use clementine_citeria.Merkle.Tree
use clementine_citeria.Merkle.Tree.{MerkleTree, root}
use clementine_citeria.Circuit.Constants.{claim_merkle_tree_depth, num_rounds}
use clementine_citeria.Constants.{
  connector_tree_depth, dust_value, min_relay_fee, k_deep, max_bitvm_challenge_response_blocks,
}
use clementine_citeria.Claim.{get_claim_proof_tree_leaf}
use clementine_citeria.Database.{OutPoint}
use clementine_citeria.Errors.{Result, ok, unwrap, ◌>>=◌}
use clementine_citeria.Script.{ScriptCrate}
use clementine_citeria.Builder.{
  TaprootCrate, amount_sub, calculate_amount, create_btc_tx, create_tx_ins,
  create_tx_ins_with_sequence, create_tx_outs, create_connector_tree_source_address,
  create_connector_tree_node_address,
}

unfoldable pub create_connector_tree_tx : OutPoint → ℕ → Bytes → Bytes → Result Transaction
create_connector_tree_tx utxo depth first_address second_address = do
  first_amount ← calculate_amount depth dust_value min_relay_fee
  second_amount ← calculate_amount depth dust_value min_relay_fee
  ok (
      create_btc_tx (create_tx_ins_with_sequence (utxo ∷ []))
        (create_tx_outs ((first_amount, first_address) ∷ (second_amount, second_address) ∷ [])))

-- `for j in 0..2_usize.pow(CONNECTOR_TREE_DEPTH)`, with `n` leaves left from `j` on.
unfoldable pub add_claim_leaves :
    ⦃c : Crypto⦄ → ℕ → ℕ → List (List Bytes) → MerkleTree → Result MerkleTree
add_claim_leaves zero j hashes tree = ok tree
add_claim_leaves (suc n) j hashes tree = do
  hash ← unwrap (get_claim_proof_tree_leaf claim_merkle_tree_depth j hashes)
  tree' ← unwrap (Tree.add tree hash)
  add_claim_leaves n (suc j) hashes tree'

-- What `create_all_connector_trees` returns.
pub record ConnectorTrees : Type 0 where
  pub claim_proof_merkle_roots : List Bytes
  pub root_utxos : List OutPoint
  pub utxo_trees : List (List (List OutPoint))
  pub claim_proof_merkle_trees : List MerkleTree

module _ ⦃c : Crypto⦄ ⦃b : BitcoinCrate⦄ ⦃k : ScriptCrate⦄ ⦃t : TaprootCrate⦄ where
  -- `for (j, utxo) in utxo_tree_previous_level.iter().enumerate()`, from the position `j` on; the
  -- hashes are those of the level below, and `depth` is what is left there.
  unfoldable pub utxo_level : Bytes → List Bytes → ℕ → ℕ → List OutPoint → Result (List OutPoint)
  utxo_level xonly_public_key hashes depth j [] = ok []
  utxo_level xonly_public_key hashes depth j (utxo ∷ utxos) = do
    first_hash ← unwrap (get_elem? hashes (2 * j))
    (first_address, _) ← create_connector_tree_node_address xonly_public_key first_hash
    second_hash ← unwrap (get_elem? hashes (2 * j + 1))
    (second_address, _) ← create_connector_tree_node_address xonly_public_key second_hash
    tx ← create_connector_tree_tx utxo depth first_address second_address
    let txid = b.txid tx
    rest ← utxo_level xonly_public_key hashes depth (suc j) utxos
    ok ((txid, 0) ∷ (txid, 1) ∷ rest)

  -- `for i in 0..depth`, with `n` levels left. The source looks the hashes up once for each node;
  -- no level is empty.
  unfoldable pub utxo_levels :
      ℕ → ℕ → Bytes → List (List Bytes) → List OutPoint → Result (List (List OutPoint))
  utxo_levels zero i xonly_public_key hashes previous_level = ok []
  utxo_levels (suc n) i xonly_public_key hashes previous_level = do
    level_hashes ← unwrap (get_elem? hashes (i + 1))
    current_level ← utxo_level xonly_public_key level_hashes n 0 previous_level
    rest ← utxo_levels n (suc i) xonly_public_key hashes current_level
    ok (current_level ∷ rest)

  unfoldable pub create_connector_binary_tree :
      Bytes → OutPoint → ℕ → List (List Bytes) → Result (List (List OutPoint))
  create_connector_binary_tree xonly_public_key root_utxo depth connector_tree_hashes = do
    _ ← calculate_amount depth dust_value min_relay_fee
    root_level ← unwrap (get_elem? connector_tree_hashes 0)
    root_hash ← unwrap (get_elem? root_level 0)
    _ ← create_connector_tree_node_address xonly_public_key root_hash
    levels ← utxo_levels depth 0 xonly_public_key connector_tree_hashes (root_utxo ∷ [])
    ok ((root_utxo ∷ []) ∷ levels)

  -- `start_block_height + (heights[i] + MAX_BITVM_CHALLENGE_RESPONSE_BLOCKS + K_DEEP) as u64`
  unfoldable pub source_height : ℕ → ℕ → ℕ
  source_height start_block_height height =
      (start_block_height + (height + max_bitvm_challenge_response_blocks + k_deep) % 2 ^ 32)
      % 2 ^ 64

  -- The transaction that pays the next source and the root of the round's tree.
  unfoldable pub source_tx :
      List Bytes → ℕ → OutPoint → ℕ → ℕ → List (List Bytes) → Result Transaction
  source_tx verifiers_pks single_tree_amount cur_source_utxo cur_amount take_after tree_hashes = do
    (next_source_address, _) ← create_connector_tree_source_address verifiers_pks take_after
    operator_pk ← unwrap (get_elem? verifiers_pks (length verifiers_pks - 1))
    root_level ← unwrap (get_elem? tree_hashes 0)
    root_hash ← unwrap (get_elem? root_level 0)
    (root_address, _) ← create_connector_tree_node_address operator_pk root_hash
    next_amount ← amount_sub cur_amount single_tree_amount
    root_amount ← amount_sub single_tree_amount min_relay_fee
    ok (
        create_btc_tx (create_tx_ins (cur_source_utxo ∷ []))
          (create_tx_outs ((next_amount, next_source_address) ∷ (root_amount, root_address) ∷ [])))

  -- `for i in 0..NUM_ROUNDS`, with `n` rounds left: `i`, the source and the amount are variables.
  unfoldable pub create_rounds :
      List Bytes
      → List (List (List Bytes))
      → ℕ
      → List ℕ
      → ℕ
      → ℕ
      → ℕ
      → OutPoint
      → ℕ
      → Result ConnectorTrees
  create_rounds pks hashes start heights single zero i cur_source_utxo cur_amount = ok (record {
    claim_proof_merkle_roots = [];
    root_utxos = [];
    utxo_trees = [];
    claim_proof_merkle_trees = [];
  })
  create_rounds pks hashes start heights single (suc n) i cur_source_utxo cur_amount = do
    tree_hashes ← unwrap (get_elem? hashes i)
    claim_tree ←
        add_claim_leaves (2 ^ connector_tree_depth) 0 tree_hashes (Tree.new claim_merkle_tree_depth)
    claim_root ← unwrap (root claim_merkle_tree_depth claim_tree)
    height ← unwrap (get_elem? heights (i + 1))
    tx ← source_tx pks single cur_source_utxo cur_amount (source_height start height) tree_hashes
    let txid = b.txid tx
    operator_pk ← unwrap (get_elem? pks (length pks - 1))
    utxo_tree ← create_connector_binary_tree operator_pk (txid, 1) connector_tree_depth tree_hashes
    next_amount ← amount_sub cur_amount single
    rest ← create_rounds pks hashes start heights single n (suc i) (txid, 0) next_amount
    ok (record {
      claim_proof_merkle_roots = claim_root ∷ rest.claim_proof_merkle_roots;
      root_utxos = (txid, 1) ∷ rest.root_utxos;
      utxo_trees = utxo_tree ∷ rest.utxo_trees;
      claim_proof_merkle_trees = claim_tree ∷ rest.claim_proof_merkle_trees;
    })

  unfoldable pub create_all_connector_trees :
      List Bytes → List (List (List Bytes)) → OutPoint → ℕ → List ℕ → Result ConnectorTrees
  create_all_connector_trees verifiers_pks connector_tree_hashes first_source_utxo
        start_block_height period_relative_block_heights =
      do
        single_tree_amount ← calculate_amount connector_tree_depth dust_value min_relay_fee
        let total_amount = single_tree_amount * num_rounds % 2 ^ 64
        create_rounds verifiers_pks connector_tree_hashes start_block_height
            period_relative_block_heights single_tree_amount num_rounds 0 first_source_utxo
            total_amount
