-- ===== src/Operator/Claims.antt =====
-- The presigns of the verifiers, and their check by the operator, in `new_deposit` of
-- core/src/operator.rs.
use clementine_citeria.Common.{ℕ, zero, suc, ◌%◌, ◌^◌, List, [], ◌∷◌, not, get_elem?}
use clementine_citeria.Common.Bytes.{Bytes}
use clementine_citeria.Database.{Dbms, OutPoint}
use clementine_citeria.Errors.{
  BridgeError, Result, ok, err, panic, unwrap, failed_to_get_presigns, secpk256_error, collect_map,
  ◌>>=◌, ◌>>◌,
}
use clementine_citeria.Script.{ScriptCrate}
use clementine_citeria.Builder.{TaprootCrate}
use clementine_citeria.Actor.{Secp, sighash_taproot_script_spend}
use clementine_citeria.Rpc.{Client}
use clementine_citeria.Rpc.Deposit.{fail_if}
use clementine_citeria.Operator.State.{Operator, DepositPresigns, NewDeposit, claim_tx}

-- `map_err`, where every error becomes one.
abbrev pub map_err : {A : Type 0} → BridgeError → Result A → Result A
map_err e (ok a) = ok a
map_err e (err x) = err e
map_err e panic = panic

module _ ⦃p : Secp⦄ where
  -- `for (idx, sig) in op_claim_sigs_for_period_i.iter().enumerate()`, from `idx` on.
  unfoldable pub verify_sigs : List Bytes → Bytes → ℕ → List Bytes → Result (Unit {0})
  verify_sigs verifiers_pks sig_hash idx [] = ok tt
  verify_sigs verifiers_pks sig_hash idx (sig ∷ sigs) = do
    pk ← unwrap (get_elem? verifiers_pks idx)
    fail_if (not (p.verify_schnorr sig sig_hash pk)) secpk256_error
    verify_sigs verifiers_pks sig_hash (suc idx) sigs

-- The signature of each verifier for the period `i`.
unfoldable pub sigs_of_period : ℕ → List DepositPresigns → Result (List Bytes)
sigs_of_period i = collect_map (λ s. unwrap (get_elem? s.operator_claim_sign i))

module _ ⦃k : ScriptCrate⦄ ⦃t : TaprootCrate⦄ ⦃d : Dbms⦄ ⦃r : Client⦄ ⦃p : Secp⦄ where
  -- The message that the verifiers signed for the period `i`.
  unfoldable pub claim_sighash : Operator → d.Disk → OutPoint → ℕ → ℕ → Result Bytes
  claim_sighash operator disk move_utxo deposit_index i = do
    operator_claim_tx ←
        claim_tx operator.verifiers_pks operator.signer.address operator.signer.xonly_public_key
          disk move_utxo deposit_index i
    sighash_taproot_script_spend operator_claim_tx 0

  -- `for i in 0..NUM_ROUNDS`, with `n` rounds left from `i` on.
  unfoldable pub verify_claims :
      Operator → d.Disk → OutPoint → ℕ → List DepositPresigns → ℕ → ℕ → Result (Unit {0})
  verify_claims operator disk move_utxo deposit_index presigns zero i = ok tt
  verify_claims operator disk move_utxo deposit_index presigns (suc n) i = do
    sig_hash ← claim_sighash operator disk move_utxo deposit_index i
    sigs ← sigs_of_period i presigns
    verify_sigs operator.verifiers_pks sig_hash 0 sigs
    verify_claims operator disk move_utxo deposit_index presigns n (suc i)

module _ ⦃r : Client⦄ where
  -- The presigns of all the verifiers.
  unfoldable pub collect_presigns :
      Operator → r.Node → OutPoint → Bytes → ℕ → Bytes → Result (List DepositPresigns)
  collect_presigns operator node start_utxo return_address deposit_index evm_address =
      collect_map
        (λ (verifier : NewDeposit). map_err failed_to_get_presigns (
          verifier node start_utxo return_address (deposit_index % 2 ^ 32) evm_address
            operator.signer.address))
        operator.verifier_connector
