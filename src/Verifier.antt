-- ===== src/Verifier.antt =====
-- core/src/verifier.rs over its database, `VerifierMockDB` of core/src/db/verifier.rs, which is the
-- common one, and the node.
use clementine_citeria.Common.{
  ℕ, zero, suc, ◌+◌, ◌-◌, ◌%◌, ◌^◌, List, [], ◌∷◌, Bool, false, ◌||◌, not, length, get_elem?,
}
use clementine_citeria.Common.Bytes.{Bytes, bytes_eq}
use clementine_citeria.Hash.{Crypto}
use clementine_citeria.Bitcoin.{BitcoinCrate}
use clementine_citeria.Circuit.Constants.{bridge_amount_sats, num_rounds}
use clementine_citeria.Circuit.Bridge.{Challenge}
use clementine_citeria.Database.{
  Dbms, Db, OutPoint, get_start_block_height, get_period_relative_block_heights,
  set_connector_tree_utxos, set_connector_tree_hashes, set_claim_proof_merkle_trees,
  set_start_block_height, set_period_relative_block_heights,
}
use clementine_citeria.Errors.{Result, ok, unwrap, public_key_not_found, Host, ◌>>=◌, ◌>>◌}
use clementine_citeria.Errors.Binds
use clementine_citeria.Script.{ScriptCrate}
use clementine_citeria.Builder.{TaprootCrate}
use clementine_citeria.Builder.Transactions.{create_move_tx}
use clementine_citeria.Builder.Connector.{create_all_connector_trees}
use clementine_citeria.Actor.{Secp, Actor, new_actor, sign_taproot_script_spend_tx_new}
use clementine_citeria.Rpc.{
  Client, get_block_count, get_block_hash, calculate_total_work_between_blocks,
}
use clementine_citeria.Rpc.Deposit.{fail_if, check_deposit_utxo}
use clementine_citeria.Operator.State.{DepositPresigns, query, from_outcome, claim_tx}

pub record Verifier : Type 0 where
  pub signer : Actor
  pub verifiers : List Bytes
  pub operator_pk : Bytes

unfoldable pub contains : List Bytes → Bytes → Bool
contains [] key = false
contains (x ∷ xs) key = bytes_eq x key || contains xs key

-- `Verifier::new`; the key of the signer is that of the secret key.
unfoldable pub new_verifier : ⦃p : Secp⦄ → ⦃t : TaprootCrate⦄ → List Bytes → Bytes → Result Verifier
new_verifier ⦃p⦄ all_xonly_pks sk = do
  fail_if (not (contains all_xonly_pks (p.x_only_public_key sk))) public_key_not_found
  operator_pk ← unwrap (get_elem? all_xonly_pks (length all_xonly_pks - 1))
  ok (record { signer = new_actor sk; verifiers = all_xonly_pks; operator_pk = operator_pk })

module _ ⦃c : Crypto⦄ ⦃b : BitcoinCrate⦄ ⦃k : ScriptCrate⦄ ⦃t : TaprootCrate⦄ ⦃d : Dbms⦄
    ⦃r : Client⦄ ⦃p : Secp⦄ where
  -- `for i in 0..NUM_ROUNDS`, with `n` rounds left from `i` on: the claim of the deposit in each.
  unfoldable pub claim_signatures :
      Verifier → d.Disk → OutPoint → ℕ → Bytes → ℕ → ℕ → Result (List Bytes)
  claim_signatures verifier disk move_utxo deposit_index operator_address zero i = ok []
  claim_signatures verifier disk move_utxo deposit_index operator_address (suc n) i = do
    operator_claim_tx ←
        claim_tx verifier.verifiers operator_address verifier.operator_pk disk move_utxo
          deposit_index i
    op_claim_sig ← sign_taproot_script_spend_tx_new verifier.signer operator_claim_tx 0
    rest ← claim_signatures verifier disk move_utxo deposit_index operator_address n (suc i)
    ok (op_claim_sig ∷ rest)

  -- `new_deposit`, with the verifier's disk.
  unfoldable pub give_presigns :
      Verifier → d.Disk → r.Node → OutPoint → Bytes → ℕ → Bytes → Bytes → Result DepositPresigns
  give_presigns verifier disk node start_utxo return_address deposit_index evm_address
        operator_address =
      do
        check_deposit_utxo node verifier.verifiers start_utxo return_address evm_address
            bridge_amount_sats
        move_tx ← create_move_tx verifier.verifiers start_utxo evm_address return_address
        let move_txid = b.txid move_tx.tx
        move_sig ← sign_taproot_script_spend_tx_new verifier.signer move_tx 0
        op_claim_sigs ←
            claim_signatures verifier disk (move_txid, 0) deposit_index operator_address num_rounds
              0
        ok (record { move_sign = move_sig; operator_claim_sign = op_claim_sigs })

module _ ⦃d : Dbms⦄ ⦃r : Client⦄ where
  -- `challenge_operator`: the height before the end of the period, which wraps.
  unfoldable pub challenge_operator : d.Disk → r.Node → ℕ → Result Challenge
  challenge_operator disk node period = do
    last_blockheight ← get_block_count node
    start ← query get_start_block_height disk
    heights ← query get_period_relative_block_heights disk
    height ← unwrap (get_elem? heights period)
    last_blockhash ← get_block_hash node ((start + height + 2 ^ 64 - 1) % 2 ^ 64)
    total_work ← calculate_total_work_between_blocks node start last_blockheight
    ok (record {
      verifiers_pow = total_work;
      last_finalized_blockhash = last_blockhash;
      period = period;
    })

module _ ⦃d : Dbms⦄ where
  -- An operation of the database.
  unfoldable pub verifier_db : {A : Type 0} → Db A → Host d.Disk A
  verifier_db m disk = (from_outcome (m disk).0, (m disk).1)

  module _ ⦃c : Crypto⦄ ⦃b : BitcoinCrate⦄ ⦃k : ScriptCrate⦄ ⦃t : TaprootCrate⦄ where
    unfoldable pub connector_roots_created :
        Verifier → List (List (List Bytes)) → OutPoint → ℕ → List ℕ → Host d.Disk (Unit {0})
    connector_roots_created verifier connector_tree_hashes first_source_utxo start_blockheight
          period_relative_block_heights =
        Binds.◌>>=◌
          (Binds.lift (
            create_all_connector_trees verifier.verifiers connector_tree_hashes first_source_utxo
              start_blockheight period_relative_block_heights))
          λ trees. Binds.◌>>◌ (verifier_db (set_connector_tree_utxos trees.utxo_trees)) (
            Binds.◌>>◌ (verifier_db (set_connector_tree_hashes connector_tree_hashes)) (
              Binds.◌>>◌ (verifier_db (set_claim_proof_merkle_trees trees.claim_proof_merkle_trees))
                (Binds.◌>>◌ (verifier_db (set_start_block_height start_blockheight))
                  (verifier_db (set_period_relative_block_heights period_relative_block_heights)))))
