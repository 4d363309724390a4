-- ===== src/Operator/Payments.antt =====
-- `new_withdrawal`, `inscribe_connector_tree_preimages` and `spend_connector_tree_utxo` of
-- core/src/operator.rs.
pub mod Withdrawals
use clementine_citeria.Common.{
  ℕ, suc, ◌+◌, ◌-◌, ◌*◌, ◌/◌, ◌%◌, ◌^◌, List, [], ◌∷◌, Option, none, some, Bool, not, length, drop,
  get_elem?, ◌==◌, if◌then◌else◌,
}
use clementine_citeria.Common.Bytes.{Bytes, bytes_eq}
use clementine_citeria.Hash.{Crypto, sha256_hash}
use clementine_citeria.Bitcoin.{TxOut, Transaction}
use clementine_citeria.Constants.{connector_tree_depth, dust_value, min_relay_fee}
use clementine_citeria.Claim.{get_claim_reveal_indices}
use clementine_citeria.Database.{
  Dbms, OutPoint, get_inscription_txs_len, add_to_inscription_txs, add_inscribed_preimages,
  get_withdrawals_merkle_tree_index, add_to_withdrawals_merkle_tree,
  add_to_withdrawals_payment_txids, get_connector_tree_hash,
}
use clementine_citeria.Errors
use clementine_citeria.Errors.{
  Result, ok, err, panic, ok_or, unwrap, unwrap_result, collect_map, Host, invalid_period,
  withdrawal_period_mismatch, preimage_reveal_period_mismatch, inscription_period_mismatch,
  try_from_slice_error, preimage_not_found,
}
use clementine_citeria.Errors.Binds.{pure, lift, ask, ◌>>=◌, ◌>>◌}
use clementine_citeria.Script.{ScriptCrate, generate_timelock_script}
use clementine_citeria.Builder.{
  TaprootCrate, create_connector_tree_node_address, create_inscription_commit_address,
}
use clementine_citeria.Builder.Transactions.{create_inscription_reveal_tx}
use clementine_citeria.Builder.Connector.{create_connector_tree_tx}
use clementine_citeria.Actor.{Secp, sign_taproot_script_spend_tx, sign_taproot_script_spend_tx_new}
use clementine_citeria.Rpc.{
  Client, get_block_count, get_raw_transaction, send_to_address, send_raw_transaction,
}
use clementine_citeria.Rpc.Deposit.{fail_if, handle_taproot_witness, handle_taproot_witness_new}
use clementine_citeria.Operator.{get_current_withdrawal_period, get_current_preimage_reveal_period}
use clementine_citeria.Operator.Split.{split_tx}
use clementine_citeria.Operator.State.{
  World, Operator, query, db, rpc, get_connector_tree_preimages_level, get_connector_tree_preimages,
}
use clementine_citeria.Writer.MerklePath.{ilog2}

module _ ⦃d : Dbms⦄ ⦃r : Client⦄ where
  -- The periods at the height of the node, with their errors.
  unfoldable pub withdrawal_period : World → Result ℕ
  withdrawal_period w = Errors.◌>>=◌ (unwrap_result (get_block_count w.node)) λ cur_block_height.
      Errors.◌>>=◌ (query (get_current_withdrawal_period cur_block_height) w.disk)
        λ period. ok_or (invalid_period withdrawal_period_mismatch) period

  unfoldable pub preimage_reveal_period : World → Result ℕ
  preimage_reveal_period w =
      Errors.◌>>=◌ (unwrap_result (get_block_count w.node)) λ cur_block_height.
        Errors.◌>>=◌ (query (get_current_preimage_reveal_period cur_block_height) w.disk)
          λ period. ok_or (invalid_period preimage_reveal_period_mismatch) period

  -- `try_into` of the script to `[u8; 34]`, and of its end to `[u8; 32]`.
  unfoldable pub taproot_hash : Bytes → Result Bytes
  taproot_hash script = if length script == 34 then ok (drop 2 script) else err try_from_slice_error

  unfoldable pub new_withdrawal : ⦃c : Crypto⦄ → Bytes → Host World (Unit {0})
  new_withdrawal withdrawal_address = do
    hash ← lift (taproot_hash withdrawal_address)
    db (add_to_withdrawals_merkle_tree hash)
    paid ← rpc (send_to_address withdrawal_address 100_000_000)
    current_withdrawal_period ← ask withdrawal_period
    db (add_to_withdrawals_payment_txids current_withdrawal_period (paid.0, hash))

  -- `unwrap()`; the period is not used.
  unfoldable pub get_num_withdrawals_for_period : World → ℕ → Result ℕ
  get_num_withdrawals_for_period w period =
      unwrap_result (query get_withdrawals_merkle_tree_index w.disk)

  -- The preimages that a number of claims reveals.
  unfoldable pub revealed_preimages : World → ℕ → ℕ → Result (List Bytes)
  revealed_preimages w period number_of_funds_claim =
      Errors.◌>>=◌ (unwrap (get_claim_reveal_indices connector_tree_depth number_of_funds_claim))
        λ indices.
          collect_map (λ (node : ℕ × ℕ). get_connector_tree_preimages w period node.0 node.1)
            indices

  module _ ⦃k : ScriptCrate⦄ ⦃t : TaprootCrate⦄ ⦃p : Secp⦄ where
    -- The commit output and the transaction that reveals.
    unfoldable pub send_inscription : Operator → List Bytes → Host World (Bytes × OutPoint × Bytes)
    send_inscription operator preimages = do
      (commit_address, _, _) ←
          lift (create_inscription_commit_address operator.signer.xonly_public_key preimages)
      commit_utxo ← rpc (send_to_address commit_address (dust_value * 2))
      reveal_tx ←
          lift (create_inscription_reveal_tx commit_utxo operator.signer.xonly_public_key preimages)
      sig ← lift (sign_taproot_script_spend_tx_new operator.signer reveal_tx 0)
      signed ← lift (handle_taproot_witness_new reveal_tx (sig ∷ []) 0)
      reveal_txid ← rpc (send_raw_transaction signed.tx signed.witnesses)
      pure (commit_address, commit_utxo, reveal_txid)

    unfoldable pub inscribe_connector_tree_preimages : Operator → Host World (List Bytes × Bytes)
    inscribe_connector_tree_preimages operator = do
      period ← ask preimage_reveal_period
      inscribed ← ask (λ (w : World). query get_inscription_txs_len w.disk)
      lift (fail_if (not (inscribed == period)) (invalid_period inscription_period_mismatch))
      number_of_funds_claim ← ask (λ (w : World). get_num_withdrawals_for_period w period)
      preimages ← ask (λ (w : World). revealed_preimages w period number_of_funds_claim)
      (commit_address, commit_utxo, reveal_txid) ← send_inscription operator preimages
      db (add_to_inscription_txs (commit_utxo, reveal_txid))
      db (add_inscribed_preimages period preimages)
      pure (preimages, commit_address)

    -- The node's refusal is not passed on.
    unfoldable pub send_and_forget : Transaction × List (List Bytes) → Host World (Unit {0})
    send_and_forget (tx, witnesses) w =
        (ok tt, record w { node = (r.broadcast tx witnesses w.node).1 })

    -- Where the output's transaction is not found there is nothing to do.
    unfoldable pub split_utxo :
        ⦃c : Crypto⦄
        → Operator
        → ℕ
        → OutPoint
        → Bytes
        → ℕ
        → t.TaprootSpendInfo
        → Option Transaction
        → Host World (Unit {0})
    split_utxo operator period utxo preimage tree_depth tree_info none = pure tt
    split_utxo operator period utxo preimage tree_depth tree_info (some base_tx) = do
      output ← lift (unwrap (get_elem? base_tx.output utxo.1))
      signed ←
          ask (λ (w : World). split_tx operator w period utxo preimage tree_depth output tree_info)
      send_and_forget signed

    -- The transaction is asked for twice, of the same node.
    unfoldable pub spend_connector_tree_utxo :
        ⦃c : Crypto⦄ → Operator → ℕ → OutPoint → Bytes → ℕ → Host World (Unit {0})
    spend_connector_tree_utxo operator period utxo preimage tree_depth = do
      (_, tree_info) ← lift (
          create_connector_tree_node_address operator.signer.xonly_public_key
            (sha256_hash preimage))
      base_tx ← ask (λ (w : World). ok (r.raw_transaction w.node utxo.0))
      split_utxo operator period utxo preimage tree_depth tree_info base_tx
