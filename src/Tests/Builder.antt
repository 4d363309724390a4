-- ===== src/Tests/Builder.antt =====
-- The amounts and the shapes of the builder's transactions.
use clementine_citeria.Common.{
  ℕ, ◌+◌, ◌%◌, ◌^◌, ◌≡◌, ◌≢◌, ◌≤◌, refl, List, [], ◌∷◌, some, get_elem?, arith,
}
use clementine_citeria.Common.Bytes.{Bytes}
use clementine_citeria.Bitcoin.{TxOut, Transaction}
use clementine_citeria.Constants.{dust_value, min_relay_fee}
use clementine_citeria.Database.{OutPoint}
use clementine_citeria.Errors.{ok}
use clementine_citeria.Script.{op_return_txout, anyone_can_spend_txout, dust_txout}
use clementine_citeria.Builder.{
  calculate_amount, amount_add, amount_mul, amount_sub, create_taproot_address, taproot_builder,
  finish, add_leaves, leaf_depth, tree_depth, lower_leaves, create_connector_tree_node_address,
  create_connector_tree_source_address, generate_bridge_address, generate_deposit_address,
}
use clementine_citeria.Builder.Transactions.{
  CreateTxOutputs, create_move_tx, create_operator_claim_tx, bridge_value, claim_value,
  create_operator_claim_tx_prevouts,
}
use clementine_citeria.Builder.Connector.{
  create_connector_tree_tx, source_tx, create_connector_binary_tree,
}
use clementine_citeria.Builder.Amounts.{
  claim_prevout-move_output, root_split-overspends, node_split-no_fee,
}
use clementine_citeria.Builder.Shape.{Accepts, SplitDown, create_connector_binary_tree-SplitDown}
use clementine_citeria.Builder.Taproot.{weights, leaf_depth-full}
use clementine_citeria.Writer.MerklePath.{log2_within}
use clementine_citeria.Tests.Toy.{hash_of}
use clementine_citeria.Tests.Host.{
  result_or, flat, flat_bitcoin, short_scripts, leaf_list, sk_of, some_tx,
}

leaf_depth-full_example :
    (weights (tree_depth 5) (lower_leaves 5) 5 0 ≡ 2 ^ tree_depth 5)
    × (lower_leaves 5 % 2 ≡ 0)
    × (lower_leaves 5 ≤ 5)
    × (5 ≤ 2 ^ tree_depth 5)
leaf_depth-full_example = leaf_depth-full 5 (omega arith) (omega arith)

-- Two of five leaves at the depth 3, and three at the depth 2.
five_leaves : leaf_depth (tree_depth 5) (lower_leaves 5) 1 ≡ 3
unfolding leaf_depth log2_within
five_leaves = refl

abbrev utxo : OutPoint
utxo = (hash_of 7, 0)

abbrev keys : List Bytes
keys = sk_of 1 ∷ sk_of 2 ∷ []

abbrev no_outputs : CreateTxOutputs
no_outputs = record {
  tx = some_tx;
  witnesses = [];
  prevouts = [];
  scripts = [];
  taproot_spend_infos = [];
}

abbrev moved : CreateTxOutputs
moved = result_or (create_move_tx keys utxo (sk_of 9) (sk_of 8)) no_outputs

abbrev claimed : CreateTxOutputs
claimed =
    result_or (create_operator_claim_tx keys utxo utxo (sk_of 6) (sk_of 2) (hash_of 7)) no_outputs

moved-ok : create_move_tx keys utxo (sk_of 9) (sk_of 8) ≡ ok moved
unfolding create_move_tx generate_bridge_address generate_deposit_address finish bridge_value
    amount_sub dust_txout op_return_txout anyone_can_spend_txout
moved-ok = refl

claimed-ok : create_operator_claim_tx keys utxo utxo (sk_of 6) (sk_of 2) (hash_of 7) ≡ ok claimed
unfolding create_operator_claim_tx create_connector_tree_node_address create_taproot_address
    taproot_builder add_leaves leaf_depth log2_within finish generate_bridge_address claim_value
    amount_mul amount_sub amount_add create_operator_claim_tx_prevouts dust_txout op_return_txout
    anyone_can_spend_txout
claimed-ok = refl

dust_pays : (op_return_txout (sk_of 9)).value ≡ 330
unfolding op_return_txout dust_txout
dust_pays = refl

claim_prevout-move_output_example :
    (output prevout : TxOut) × (get_elem? moved.tx.output 0 ≡ some output)
    × (get_elem? claimed.prevouts 0 ≡ some prevout)
    × (prevout.script_pubkey ≡ output.script_pubkey)
    × (prevout.value ≡ output.value + (op_return_txout (sk_of 9)).value)
    × (prevout.value ≢ output.value)
claim_prevout-move_output_example =
    claim_prevout-move_output keys utxo (sk_of 9) (sk_of 8) utxo utxo (sk_of 6) (sk_of 2)
      (hash_of 7) moved-ok claimed-ok (omega (arith, dust_pays))

abbrev hash_tree : List (List Bytes)
hash_tree = (hash_of 7 ∷ []) ∷ (hash_of 7 ∷ hash_of 7 ∷ []) ∷ []

abbrev source : Transaction
source = result_or (source_tx keys 3000 utxo 12000 58 hash_tree) some_tx

source-ok : source_tx keys 3000 utxo 12000 58 hash_tree ≡ ok source
unfolding source_tx create_connector_tree_source_address create_connector_tree_node_address
    create_taproot_address taproot_builder add_leaves leaf_depth log2_within finish amount_sub
source-ok = refl

abbrev split : ℕ → Transaction
split depth = result_or (create_connector_tree_tx utxo depth (sk_of 3) (sk_of 4)) some_tx

split-ok : create_connector_tree_tx utxo 0 (sk_of 3) (sk_of 4) ≡ ok (split 0)
unfolding create_connector_tree_tx calculate_amount amount_add amount_mul
split-ok = refl

split-ok_above : create_connector_tree_tx utxo 1 (sk_of 3) (sk_of 4) ≡ ok (split 1)
unfolding create_connector_tree_tx calculate_amount amount_add amount_mul
split-ok_above = refl

amount-ok : calculate_amount 1 dust_value min_relay_fee ≡ ok 3000
unfolding calculate_amount amount_add amount_mul
amount-ok = refl

root_split-overspends_example :
    (r : TxOut) × (x : TxOut) × (y : TxOut) × (get_elem? source.output 1 ≡ some r)
    × ((split 0).output ≡ x ∷ y ∷ [])
    × (x.value + y.value ≡ r.value + min_relay_fee)
root_split-overspends_example =
    root_split-overspends keys 3000 utxo 12000 58 hash_tree utxo 0 (sk_of 3) (sk_of 4) (omega arith)
      amount-ok source-ok split-ok

node_split-no_fee_example :
    (o : TxOut) × (x : TxOut) × (y : TxOut) × (o' : TxOut) × ((split 1).output ≡ o ∷ o' ∷ [])
    × ((split 0).output ≡ x ∷ y ∷ [])
    × (x.value + y.value ≡ o.value)
    × (x.value + y.value ≡ o'.value)
node_split-no_fee_example =
    node_split-no_fee utxo utxo 0 (sk_of 3) (sk_of 4) (sk_of 3) (sk_of 4) (omega arith)
      split-ok_above split-ok

accepts : Accepts (sk_of 2)
unfolding create_connector_tree_node_address create_taproot_address taproot_builder add_leaves
    leaf_depth log2_within finish
accepts hash = (result_or (create_connector_tree_node_address (sk_of 2) hash) ([], []), refl)

create_connector_binary_tree-SplitDown_example :
    (levels : List (List OutPoint)) × (create_connector_binary_tree (sk_of 2) utxo 1 hash_tree
      ≡ ok ((utxo ∷ []) ∷ levels))
    × SplitDown 1 (utxo ∷ []) levels
create_connector_binary_tree-SplitDown_example =
    create_connector_binary_tree-SplitDown (sk_of 2) utxo 1 hash_tree accepts (omega arith)
      (refl, (refl, tt)) refl
