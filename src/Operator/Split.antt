-- ===== src/Operator/Split.antt =====
-- The transaction that splits a node of the connector tree, in `spend_connector_tree_utxo` of
-- core/src/operator.rs.
use clementine_citeria.Common.{
  ℕ, suc, ◌+◌, ◌-◌, ◌*◌, ◌/◌, ◌%◌, ◌^◌, List, [], ◌∷◌, Option, none, some, if◌then◌else◌,
}
use clementine_citeria.Common.Bytes.{Bytes, bytes_eq}
use clementine_citeria.Bitcoin.{TxOut, Transaction}
use clementine_citeria.Constants.{dust_value, min_relay_fee}
use clementine_citeria.Database.{Dbms, OutPoint, get_connector_tree_hash}
use clementine_citeria.Errors.{Result, ok, ok_or, unwrap, preimage_not_found, ◌>>=◌}
use clementine_citeria.Script.{ScriptCrate, generate_timelock_script}
use clementine_citeria.Builder.{TaprootCrate, create_connector_tree_node_address}
use clementine_citeria.Builder.Connector.{create_connector_tree_tx}
use clementine_citeria.Actor.{Secp, sign_taproot_script_spend_tx}
use clementine_citeria.Rpc.{Client}
use clementine_citeria.Rpc.Deposit.{handle_taproot_witness}
use clementine_citeria.Operator.State.{World, Operator, query, get_connector_tree_preimages_level}
use clementine_citeria.Writer.MerklePath.{ilog2}

-- `iter().position(|x| *x == preimage)`, from the position `i` on.
unfoldable pub position_from : ℕ → List Bytes → Bytes → Option ℕ
position_from i [] preimage = none
position_from i (x ∷ xs) preimage =
    let rest = position_from (suc i) xs preimage in if bytes_eq x preimage then some i else rest

-- The depth of an output's subtree, from its value.
unfoldable pub depth_of_value : ℕ → Result ℕ
depth_of_value value =
    unwrap (ilog2 ((value + min_relay_fee) % 2 ^ 64 / (dust_value + min_relay_fee) % 2 ^ 32))

module _ ⦃d : Dbms⦄ ⦃r : Client⦄ ⦃k : ScriptCrate⦄ ⦃t : TaprootCrate⦄ ⦃p : Secp⦄ where
  -- From the output's value on: the transaction, and its witness.
  unfoldable pub split_tx :
      Operator
      → World
      → ℕ
      → OutPoint
      → Bytes
      → ℕ
      → TxOut
      → t.TaprootSpendInfo
      → Result (Transaction × List (List Bytes))
  split_tx operator w period utxo preimage tree_depth output tree_info = do
    depth ← depth_of_value output.value
    let level = (tree_depth + 2 ^ 64 - depth) % 2 ^ 64
    preimages ← get_connector_tree_preimages_level w period level
    index ← ok_or preimage_not_found (position_from 0 preimages preimage)
    first_hash ← query (get_connector_tree_hash period (level + 1) (2 * index)) w.disk
    second_hash ← query (get_connector_tree_hash period (level + 1) (2 * index + 1)) w.disk
    let xonly = operator.signer.xonly_public_key
    let timelock_script = generate_timelock_script xonly 1
    (first_address, _) ← create_connector_tree_node_address xonly first_hash
    (second_address, _) ← create_connector_tree_node_address xonly second_hash
    tx ← create_connector_tree_tx utxo ((depth + 2 ^ 64 - 1) % 2 ^ 64) first_address second_address
    sig ← sign_taproot_script_spend_tx operator.signer tx (output ∷ []) timelock_script 0
    witnesses ← handle_taproot_witness ([] ∷ []) 0 (sig ∷ []) timelock_script tree_info
    ok (tx, witnesses)
