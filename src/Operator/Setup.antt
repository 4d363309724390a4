-- ===== src/Operator/Setup.antt =====
-- `initial_setup` of core/src/operator.rs.
pub mod Stored
pub mod Agreement
use clementine_citeria.Common.{
  ℕ, zero, suc, ◌+◌, ◌*◌, ◌%◌, ◌^◌, List, [], ◌∷◌, not, get_elem?, ◌==◌,
}
use clementine_citeria.Common.Bytes.{Bytes}
use clementine_citeria.Hash.{Crypto}
use clementine_citeria.Bitcoin.{BitcoinCrate}
use clementine_citeria.Merkle.Tree.{MerkleTree}
use clementine_citeria.Circuit.Constants.{num_rounds}
use clementine_citeria.Constants.{
  connector_tree_depth, dust_value, min_relay_fee, period_block_count,
}
use clementine_citeria.Database.{
  Dbms, OutPoint, get_start_block_height, set_start_block_height, set_period_relative_block_heights,
  set_connector_tree_hashes, set_claim_proof_merkle_trees, set_connector_tree_utxos,
}
use clementine_citeria.Errors.{Host, already_initialized, unwrap, unwrap_result}
use clementine_citeria.Errors.Binds.{pure, lift, ask, ◌>>=◌, ◌>>◌}
use clementine_citeria.Script.{ScriptCrate}
use clementine_citeria.Builder.{
  TaprootCrate, calculate_amount, create_connector_tree_source_address,
}
use clementine_citeria.Builder.Connector.{ConnectorTrees, source_height, create_all_connector_trees}
use clementine_citeria.Rpc.{Client, get_block_height, get_raw_transaction, send_to_address}
use clementine_citeria.Rpc.Deposit.{fail_if}
use clementine_citeria.Operator.{Rng, create_all_rounds_connector_preimages}
use clementine_citeria.Operator.State.{
  World, Operator, query, db, rpc, rpc_unwrap, set_connector_tree_preimages,
}

-- `(0..NUM_ROUNDS as u32 + 1).map(|i| PERIOD_BLOCK_COUNT * (i + 1))`, with `n` left from `i` on.
unfoldable pub period_heights : ℕ → ℕ → List ℕ
period_heights zero i = []
period_heights (suc n) i = period_block_count * (i + 1) % 2 ^ 32 ∷ period_heights n (suc i)

-- What `initial_setup` returns.
pub record Setup : Type 0 where
  pub first_source_utxo : OutPoint
  pub start_block_height : ℕ
  pub connector_tree_hashes : List (List (List Bytes))
  pub period_relative_block_heights : List ℕ
  pub claim_proof_merkle_trees : List MerkleTree

module _ ⦃c : Crypto⦄ ⦃b : BitcoinCrate⦄ ⦃k : ScriptCrate⦄ ⦃t : TaprootCrate⦄ ⦃d : Dbms⦄
    ⦃r : Client⦄ ⦃g : Rng⦄ where
  -- From the connector trees on.
  unfoldable pub store_trees :
      Operator → ℕ → List ℕ → List (List (List Bytes)) → OutPoint → Host World Setup
  store_trees operator start heights hashes first_source_utxo = do
    trees ← lift (
        unwrap_result (
          create_all_connector_trees operator.verifiers_pks hashes first_source_utxo start heights))
    db (set_claim_proof_merkle_trees trees.claim_proof_merkle_trees)
    db (set_connector_tree_utxos trees.utxo_trees)
    pure (record {
      first_source_utxo = first_source_utxo;
      start_block_height = start;
      connector_tree_hashes = hashes;
      period_relative_block_heights = heights;
      claim_proof_merkle_trees = trees.claim_proof_merkle_trees;
    })

  -- The first source, which is paid by the node's wallet.
  unfoldable pub fund_source : Operator → ℕ → List ℕ → Host World OutPoint
  fund_source operator start heights = do
    single_tree_amount ← lift (calculate_amount connector_tree_depth dust_value min_relay_fee)
    let total_amount = (min_relay_fee + single_tree_amount) * num_rounds % 2 ^ 64
    height ← lift (unwrap (get_elem? heights 0))
    (source_address, _) ← lift (
        unwrap_result (
          create_connector_tree_source_address operator.verifiers_pks (source_height start height)))
    first_source_utxo ← rpc_unwrap (send_to_address source_address total_amount)
    _ ← ask (λ (w : World). get_raw_transaction w.node first_source_utxo.0)
    pure first_source_utxo

  -- The state of the generator afterwards is not returned.
  unfoldable pub initial_setup : Operator → g.Seed → Host World Setup
  initial_setup operator seed = do
    blockheight ← ask (λ (w : World). query get_start_block_height w.disk)
    lift (fail_if (not (blockheight == 0)) already_initialized)
    start_block_height ← ask (λ (w : World). get_block_height w.node)
    db (set_start_block_height start_block_height)
    let heights = period_heights (num_rounds + 1) 0
    db (set_period_relative_block_heights heights)
    let trees = create_all_rounds_connector_preimages connector_tree_depth num_rounds seed
    set_connector_tree_preimages trees.0
    db (set_connector_tree_hashes trees.1)
    first_source_utxo ← fund_source operator start_block_height heights
    store_trees operator start_block_height heights trees.1 first_source_utxo
