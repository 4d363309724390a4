-- ===== src/Tests/Setup.antt =====
-- A set-up of the operator, and a verifier that is told of it.
use clementine_citeria.Common.{◌≡◌, refl, [], ◌∷◌}
use clementine_citeria.Database
use clementine_citeria.Database.{
  DatabaseContent, empty_content, content_of, outcome_of, read, write, get_start_block_height,
  set_start_block_height, set_period_relative_block_heights, set_connector_tree_hashes,
  set_claim_proof_merkle_trees, set_connector_tree_utxos,
}
use clementine_citeria.Database.Laws.{Stored}
use clementine_citeria.Merkle.Tree
use clementine_citeria.Merkle.Tree.{root, siblings, zeros_within, write_node}
use clementine_citeria.Merkle.Levels.{zeroes}
use clementine_citeria.Hash.{hash_pair}
use clementine_citeria.Claim.{get_claim_reveal_indices, revealed_hashes, get_claim_proof_tree_leaf}
use clementine_citeria.Errors.{ok}
use clementine_citeria.Errors.Binds
use clementine_citeria.Script.{
  generate_timelock_script, generate_absolute_timelock_script, generate_script_n_of_n,
  push_verifiers,
}
use clementine_citeria.Builder.{
  calculate_amount, amount_add, amount_mul, amount_sub, create_taproot_address, taproot_builder,
  finish, add_leaves, leaf_depth, create_connector_tree_node_address,
  create_connector_tree_source_address, create_btc_tx, create_tx_ins, create_tx_ins_with_sequence,
  create_tx_outs,
}
use clementine_citeria.Builder.Connector.{
  create_connector_tree_tx, add_claim_leaves, utxo_level, utxo_levels, create_connector_binary_tree,
  source_height, source_tx, create_rounds, create_all_connector_trees,
}
use clementine_citeria.Writer.MerklePath.{log2_within}
use clementine_citeria.Rpc.{
  get_block_height, get_blockchain_info, get_raw_transaction, get_transaction, send_to_address,
  call,
}
use clementine_citeria.Operator.{
  create_level, create_levels, create_connector_tree_preimages_and_hashes,
  create_all_rounds_connector_preimages,
}
use clementine_citeria.Operator.State.{
  World, Operator, from_outcome, query, db, rpc_unwrap, set_connector_tree_preimages,
}
use clementine_citeria.Operator.Setup.{
  Setup, period_heights, store_trees, fund_source, initial_setup,
}
use clementine_citeria.Operator.Setup.Agreement.{Agree, connector_roots_created-Agree}
use clementine_citeria.Verifier.{Verifier, connector_roots_created}
use clementine_citeria.Tests.Database.{memory, memory_works, fresh, fresh-Stored}
use clementine_citeria.Tests.Host.{
  result_or, flat, flat_bitcoin, short_scripts, leaf_list, one_deposit, one_preimage, sk_of,
  actor_of,
}

abbrev operator : Operator
operator = record {
  signer = actor_of 2;
  verifiers_pks = sk_of 1 ∷ sk_of 2 ∷ [];
  verifier_connector = [];
}

abbrev verifier : Verifier
verifier = record { signer = actor_of 1; verifiers = sk_of 1 ∷ sk_of 2 ∷ []; operator_pk = sk_of 2 }

abbrev start : World
start = record { disk = fresh; deposit_take_sigs = []; connector_tree_preimages = []; node = 100 }

abbrev nothing : Setup
nothing = record {
  first_source_utxo = ([], 0);
  start_block_height = 0;
  connector_tree_hashes = [];
  period_relative_block_heights = [];
  claim_proof_merkle_trees = [];
}

abbrev set_up : Setup
set_up = result_or (initial_setup operator tt start).0 nothing

abbrev after : World
after = (initial_setup operator tt start).1

set_up-ok : initial_setup operator tt start ≡ (ok set_up, after)
unfolding initial_setup Binds.◌>>=◌ query from_outcome get_start_block_height Database.◌>>=◌ read
    content_of empty_content get_block_height get_blockchain_info db set_start_block_height write
    outcome_of set_period_relative_block_heights set_connector_tree_preimages
    set_connector_tree_hashes add_claim_leaves create_all_connector_trees
    create_connector_binary_tree create_connector_tree_tx create_rounds source_height source_tx
    utxo_level utxo_levels add_leaves amount_add amount_mul amount_sub calculate_amount
    create_btc_tx create_connector_tree_node_address create_connector_tree_source_address
    create_taproot_address create_tx_ins create_tx_ins_with_sequence create_tx_outs finish
    leaf_depth taproot_builder get_claim_proof_tree_leaf get_claim_reveal_indices revealed_hashes
    set_claim_proof_merkle_trees set_connector_tree_utxos hash_pair zeroes Tree.add Tree.add_levels
    Tree.new root siblings write_node zeros_within fund_source period_heights store_trees rpc_unwrap
    create_all_rounds_connector_preimages create_connector_tree_preimages_and_hashes create_level
    create_levels call get_raw_transaction get_transaction send_to_address
    generate_absolute_timelock_script generate_script_n_of_n generate_timelock_script push_verifiers
    log2_within
set_up-ok = refl

connector_roots_created-Agree_example :
    (s' : memory.Disk) × (co : DatabaseContent) × (cv : DatabaseContent) × (connector_roots_created
        verifier set_up.connector_tree_hashes set_up.first_source_utxo set_up.start_block_height
        set_up.period_relative_block_heights fresh
      ≡ (ok tt, s'))
    × Stored after.disk co
    × Stored s' cv
    × Agree co cv
connector_roots_created-Agree_example =
    connector_roots_created-Agree operator tt start verifier fresh fresh-Stored fresh-Stored refl
      set_up-ok
