-- ===== src/Builder/Transactions.antt =====
-- The transactions that move, claim and inscribe, of core/src/transaction_builder.rs.
use clementine_citeria.Common.{ℕ, ◌*◌, List, [], ◌∷◌, replicate}
use clementine_citeria.Common.Bytes.{Bytes}
use clementine_citeria.Bitcoin.{TxOut, Transaction}
use clementine_citeria.Circuit.Constants.{bridge_amount_sats}
use clementine_citeria.Constants.{dust_value, min_relay_fee}
use clementine_citeria.Database.{OutPoint}
use clementine_citeria.Errors.{Result, ok, ◌>>=◌}
use clementine_citeria.Script.{
  ScriptCrate, anyone_can_spend_txout, op_return_txout, generate_script_n_of_n,
  create_deposit_script,
}
use clementine_citeria.Builder.{
  TaprootCrate, amount_add, amount_sub, amount_mul, create_btc_tx, create_tx_ins,
  generate_deposit_address, generate_bridge_address, create_connector_tree_node_address,
  create_inscription_commit_address,
}

-- The witnesses of the inputs stand beside the transaction.
pub record CreateTxOutputs ⦃t : TaprootCrate⦄ : Type 0 where
  pub tx : Transaction
  pub witnesses : List (List Bytes)
  pub prevouts : List TxOut
  pub scripts : List Bytes
  pub taproot_spend_infos : List t.TaprootSpendInfo

module _ ⦃k : ScriptCrate⦄ where
  -- The value of the bridge output of a move transaction.
  unfoldable pub bridge_value : Bytes → Result ℕ
  bridge_value evm_address = do
    v1 ← amount_sub bridge_amount_sats min_relay_fee
    v2 ← amount_sub v1 anyone_can_spend_txout.value
    amount_sub v2 (op_return_txout evm_address).value

  -- `EVMAddress::default()` is twenty zeros.
  unfoldable pub claim_value : Result ℕ
  claim_value = do
    fees ← amount_mul min_relay_fee 2
    v1 ← amount_sub bridge_amount_sats fees
    outs ← amount_mul anyone_can_spend_txout.value 2
    v2 ← amount_sub v1 outs
    v3 ← amount_sub v2 (op_return_txout (replicate 20 0)).value
    amount_add v3 dust_value

  unfoldable pub create_operator_claim_tx_prevouts : Bytes → Bytes → Result (List TxOut)
  create_operator_claim_tx_prevouts bridge_address connector_tree_leaf_address = do
    v1 ← amount_sub bridge_amount_sats min_relay_fee
    v2 ← amount_sub v1 anyone_can_spend_txout.value
    ok (
        record { value = v2; script_pubkey = bridge_address }
        ∷ record { value = dust_value; script_pubkey = connector_tree_leaf_address }
        ∷ [])

  module _ ⦃t : TaprootCrate⦄ where
    unfoldable pub create_move_tx : List Bytes → OutPoint → Bytes → Bytes → Result CreateTxOutputs
    create_move_tx verifiers_pks deposit_utxo evm_address return_address = do
      (bridge_address, _) ← generate_bridge_address verifiers_pks
      (deposit_address, deposit_taproot_spend_info) ←
          generate_deposit_address verifiers_pks return_address evm_address
      value ← bridge_value evm_address
      ok (record {
        tx = create_btc_tx (create_tx_ins (deposit_utxo ∷ [])) (
            record { value = value; script_pubkey = bridge_address }
            ∷ op_return_txout evm_address
            ∷ anyone_can_spend_txout
            ∷ []);
        witnesses = [] ∷ [];
        prevouts = record { script_pubkey = deposit_address; value = bridge_amount_sats } ∷ [];
        scripts = create_deposit_script verifiers_pks evm_address ∷ [];
        taproot_spend_infos = deposit_taproot_spend_info ∷ [];
      })

    unfoldable pub create_operator_claim_tx :
        List Bytes → OutPoint → OutPoint → Bytes → Bytes → Bytes → Result CreateTxOutputs
    create_operator_claim_tx verifiers_pks bridge_utxo connector_utxo operator_address
          operator_xonly hash =
        do
          (connector_tree_leaf_address, connector_leaf_taproot_spend_info) ←
              create_connector_tree_node_address operator_xonly hash
          (bridge_address, bridge_taproot_spend_info) ← generate_bridge_address verifiers_pks
          value ← claim_value
          prevouts ← create_operator_claim_tx_prevouts bridge_address connector_tree_leaf_address
          ok (record {
            tx = create_btc_tx (create_tx_ins (bridge_utxo ∷ connector_utxo ∷ [])) (
                record { value = value; script_pubkey = operator_address }
                ∷ anyone_can_spend_txout
                ∷ []);
            witnesses = [] ∷ [] ∷ [];
            prevouts = prevouts;
            scripts = generate_script_n_of_n verifiers_pks ∷ [];
            taproot_spend_infos =
                bridge_taproot_spend_info ∷ connector_leaf_taproot_spend_info ∷ [];
          })

    unfoldable pub create_inscription_reveal_tx :
        OutPoint → Bytes → List Bytes → Result CreateTxOutputs
    create_inscription_reveal_tx commit_utxo sender_xonly preimages_to_be_revealed = do
      (commit_address, commit_tree_info, inscribe_preimage_script) ←
          create_inscription_commit_address sender_xonly preimages_to_be_revealed
      ok (record {
        tx = create_btc_tx (create_tx_ins (commit_utxo ∷ [])) (anyone_can_spend_txout ∷ []);
        witnesses = [] ∷ [];
        prevouts = record { script_pubkey = commit_address; value = dust_value * 2 } ∷ [];
        scripts = inscribe_preimage_script ∷ [];
        taproot_spend_infos = commit_tree_info ∷ [];
      })
