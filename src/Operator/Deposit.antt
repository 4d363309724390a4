-- ===== src/Operator/Deposit.antt =====
-- `new_deposit` of core/src/operator.rs.
pub mod Checks
pub mod Sent
pub mod Presigns
pub mod Sound
pub mod Complete
use clementine_citeria.Common.{
  ℕ, zero, suc, ◌%◌, ◌^◌, List, [], ◌∷◌, ◌++◌, Bool, true, false, not, map, get_elem?,
}
use clementine_citeria.Common.Bytes.{Bytes}
use clementine_citeria.Hash.{Crypto}
use clementine_citeria.Bitcoin.{BitcoinCrate}
use clementine_citeria.Circuit.Constants.{bridge_amount_sats, num_rounds}
use clementine_citeria.Constants.{connector_tree_depth}
use clementine_citeria.Database.{Dbms, OutPoint, get_connector_tree_utxo, get_connector_tree_hash}
use clementine_citeria.Errors
use clementine_citeria.Errors.{
  Result, ok, err, panic, unwrap, failed_to_get_presigns, secpk256_error, collect_map, Host,
}
use clementine_citeria.Errors.Binds.{pure, lift, ask, ◌>>=◌, ◌>>◌}
use clementine_citeria.Script.{ScriptCrate}
use clementine_citeria.Builder.{TaprootCrate}
use clementine_citeria.Builder.Transactions.{create_move_tx, create_operator_claim_tx}
use clementine_citeria.Actor.{Secp, sighash_taproot_script_spend, sign_taproot_script_spend_tx_new}
use clementine_citeria.Rpc.{Client, send_raw_transaction}
use clementine_citeria.Rpc.Deposit.{fail_if, check_deposit_utxo, handle_taproot_witness_new}
use clementine_citeria.Operator.Claims.{verify_claims, collect_presigns}
use clementine_citeria.Operator.State.{
  World, Operator, DepositPresigns, NewDeposit, query, rpc, get_deposit_index,
  add_deposit_take_sigs,
}
use clementine_citeria.Writer.MerklePath.{reverse}

module _ ⦃c : Crypto⦄ ⦃b : BitcoinCrate⦄ ⦃k : ScriptCrate⦄ ⦃t : TaprootCrate⦄ ⦃d : Dbms⦄
    ⦃r : Client⦄ ⦃p : Secp⦄ where
  -- The move transaction, signed by all and sent.
  unfoldable pub send_move_tx :
      Operator → OutPoint → Bytes → Bytes → List DepositPresigns → Host World OutPoint
  send_move_tx operator start_utxo return_address evm_address presigns = do
    move_tx ← lift (create_move_tx operator.verifiers_pks start_utxo evm_address return_address)
    sig ← lift (sign_taproot_script_spend_tx_new operator.signer move_tx 0)
    let move_signatures = reverse (map (λ (s : DepositPresigns). s.move_sign) presigns ++ sig ∷ [])
    signed ← lift (handle_taproot_witness_new move_tx move_signatures 0)
    rpc_move_txid ← rpc (send_raw_transaction signed.tx signed.witnesses)
    pure (rpc_move_txid, 0)

  -- From the move transaction on, with the presigns of all the verifiers.
  unfoldable pub accept_deposit :
      Operator → OutPoint → Bytes → Bytes → ℕ → List DepositPresigns → Host World OutPoint
  accept_deposit operator start_utxo return_address evm_address deposit_index presigns = do
    move_utxo ← send_move_tx operator start_utxo return_address evm_address presigns
    add_deposit_take_sigs (map (λ (s : DepositPresigns). s.operator_claim_sign) presigns)
    ask (λ (w : World). verify_claims operator w.disk move_utxo deposit_index presigns num_rounds 0)
    pure move_utxo

  unfoldable pub new_deposit : Operator → OutPoint → Bytes → Bytes → Host World OutPoint
  new_deposit operator start_utxo return_address evm_address = do
    ask (λ (w : World).
        check_deposit_utxo w.node operator.verifiers_pks start_utxo return_address evm_address
          bridge_amount_sats)
    deposit_index ← ask (λ (w : World). ok (get_deposit_index w))
    presigns ← ask (λ (w : World).
        collect_presigns operator w.node start_utxo return_address deposit_index evm_address)
    accept_deposit operator start_utxo return_address evm_address deposit_index presigns
