-- ===== src/Rpc/Deposit.antt =====
-- `check_deposit_utxo` of core/src/utils.rs, the deposit of core/src/user.rs, and the witnesses of a
-- taproot script spend.
use clementine_citeria.Common.{ℕ, List, [], ◌∷◌, ◌++◌, Bool, true, false, not, ltb, get_elem?, set?}
use clementine_citeria.Common.Bytes.{Bytes}
use clementine_citeria.Circuit.Constants.{bridge_amount_sats}
use clementine_citeria.Constants.{confirmation_block_count}
use clementine_citeria.Database.{OutPoint}
use clementine_citeria.Errors.{
  BridgeError, Result, ok, err, ok_or, unwrap, Host, deposit_not_finalized, invalid_deposit_utxo,
  utxo_spent, tx_input_not_found, control_block_error, ◌>>=◌, ◌>>◌,
}
use clementine_citeria.Errors.Binds
use clementine_citeria.Script.{ScriptCrate}
use clementine_citeria.Builder.{TaprootCrate, generate_deposit_address}
use clementine_citeria.Builder.Transactions.{CreateTxOutputs}
use clementine_citeria.Actor.{Actor}
use clementine_citeria.Rpc.{
  Client, confirmation_blocks, check_utxo_address_and_amount, is_utxo_spent, send_to_address,
}

-- `if test { return Err(e) }`
abbrev pub fail_if : Bool → BridgeError → Result (Unit {0})
fail_if true e = err e
fail_if false e = ok tt

module _ ⦃r : Client⦄ ⦃k : ScriptCrate⦄ ⦃t : TaprootCrate⦄ where
  unfoldable pub check_deposit_utxo :
      r.Node → List Bytes → OutPoint → Bytes → Bytes → ℕ → Result (Unit {0})
  check_deposit_utxo node verifiers_pks outpoint return_address evm_address amount_sats = do
    confirmations ← confirmation_blocks node outpoint.0
    fail_if (ltb confirmations confirmation_block_count) deposit_not_finalized
    (deposit_address, _) ← generate_deposit_address verifiers_pks return_address evm_address
    paid ← check_utxo_address_and_amount node outpoint deposit_address amount_sats
    fail_if (not paid) invalid_deposit_utxo
    spent ← is_utxo_spent node outpoint
    fail_if spent utxo_spent

  -- `User::deposit_tx` of core/src/user.rs.
  unfoldable pub deposit_tx : List Bytes → Actor → Bytes → Host r.Node (OutPoint × Bytes × Bytes)
  deposit_tx verifiers_pks signer evm_address =
      Binds.◌>>=◌
        (Binds.lift (generate_deposit_address verifiers_pks signer.xonly_public_key evm_address))
        λ deposit.
          Binds.◌>>=◌ (send_to_address deposit.0 bridge_amount_sats)
            λ deposit_utxo. Binds.pure (deposit_utxo, signer.xonly_public_key, evm_address)

module _ ⦃t : TaprootCrate⦄ where
  -- The witness of the input `index` gets the elements, the script and the control block.
  unfoldable pub handle_taproot_witness :
      List (List Bytes) → ℕ → List Bytes → Bytes → t.TaprootSpendInfo → Result (List (List Bytes))
  handle_taproot_witness witnesses index witness_elements script tree_info = do
    witness ← ok_or tx_input_not_found (get_elem? witnesses index)
    spend_control_block ← ok_or control_block_error (t.control_block tree_info script)
    unwrap
        (set? witnesses index (witness ++ (witness_elements ++ script ∷ spend_control_block ∷ [])))

  unfoldable pub handle_taproot_witness_new :
      CreateTxOutputs → List Bytes → ℕ → Result CreateTxOutputs
  handle_taproot_witness_new tx witness_elements index = do
    witness ← ok_or tx_input_not_found (get_elem? tx.witnesses index)
    tree_info ← unwrap (get_elem? tx.taproot_spend_infos index)
    script ← unwrap (get_elem? tx.scripts index)
    spend_control_block ← ok_or control_block_error (t.control_block tree_info script)
    witnesses ← unwrap (
        set? tx.witnesses index
          (witness ++ (witness_elements ++ script ∷ spend_control_block ∷ [])))
    ok (record tx { witnesses = witnesses })
