-- ===== src/Operator/Deposit/Complete.antt =====
-- A deposit with honest verifiers: their presigns pass the operator's check.
use clementine_citeria.Common.{ℕ, ◌<◌, ◌≡◌, refl, ap, ◌∙◌, List, ◌∷◌, map, some, get_elem?, ◌^◌}
use clementine_citeria.Common.Bytes.{Bytes}
use clementine_citeria.Hash.{Crypto}
use clementine_citeria.Bitcoin.{BitcoinCrate}
use clementine_citeria.Circuit.Constants.{num_rounds, bridge_amount_sats}
use clementine_citeria.Database.{Dbms, OutPoint}
use clementine_citeria.Errors.{ok}
use clementine_citeria.Errors.Binds.{ask, bind-run}
use clementine_citeria.Script.{ScriptCrate}
use clementine_citeria.Builder.{TaprootCrate}
use clementine_citeria.Actor.{Secp}
use clementine_citeria.Rpc.{Client}
use clementine_citeria.Rpc.Deposit.{check_deposit_utxo}
use clementine_citeria.Operator.State.{World, Operator, DepositPresigns, get_deposit_index}
use clementine_citeria.Operator.Claims.{verify_claims, collect_presigns}
use clementine_citeria.Operator.Deposit.{send_move_tx, new_deposit}
use clementine_citeria.Verifier.{Verifier, give_presigns}
use clementine_citeria.Operator.Deposit.Sent.{
  with_sigs, accept_deposit-sent, send_move_tx-world, AnswersTxid, send_move_tx-txid,
}
use clementine_citeria.Operator.Deposit.Presigns.{HonestVerifier, presigns-verified}

module _ ⦃c : Crypto⦄ ⦃b : BitcoinCrate⦄ ⦃k : ScriptCrate⦄ ⦃t : TaprootCrate⦄ ⦃d : Dbms⦄
    ⦃r : Client⦄ ⦃p : Secp⦄ where
  -- With honest verifiers, fewer than 2^32 deposits and a node that answers with transaction ids: when
  -- the checks passed, the presigns were given and the node took the move transaction, the deposit is
  -- accepted with that transaction's first output, and only the presigns are stored after that.
  pub new_deposit_complete :
      (operator : Operator) (v0 : Verifier × d.Disk) (vs : List (Verifier × d.Disk))
      (start_utxo : OutPoint) (return_address evm_address : Bytes) (w w1 : World)
      (presigns : List DepositPresigns) (move_utxo : OutPoint)
      → AnswersTxid
      → operator.verifier_connector
        ≡ map (λ (v : Verifier × d.Disk). give_presigns v.0 v.1) (v0 ∷ vs)
      → ((idx : ℕ) (v : Verifier × d.Disk)
          → get_elem? (v0 ∷ vs) idx ≡ some v
          → HonestVerifier operator w.disk idx v.0 v.1)
      → get_deposit_index w < 2 ^ 32
      → check_deposit_utxo w.node operator.verifiers_pks start_utxo return_address evm_address
          bridge_amount_sats
        ≡ ok tt
      → collect_presigns operator w.node start_utxo return_address (get_deposit_index w) evm_address
        ≡ ok presigns
      → send_move_tx operator start_utxo return_address evm_address presigns w ≡ (ok move_utxo, w1)
      → new_deposit operator start_utxo return_address evm_address w
        ≡ (ok move_utxo, with_sigs w1 presigns)
  unfolding new_deposit
  new_deposit_complete operator v0 vs start_utxo return_address evm_address w w1 presigns move_utxo
        answers connectors honest small checked collected sent =
      let index = get_deposit_index w in
      let (m, em, eu) =
        send_move_tx-txid operator start_utxo return_address evm_address presigns w answers sent in
      let (disk, _) =
        send_move_tx-world operator start_utxo return_address evm_address presigns w sent in
      let verified =
        presigns-verified operator v0 vs start_utxo return_address evm_address w presigns m
          connectors honest small em collected in
      let verified' =
        ap (λ s. verify_claims operator s move_utxo index presigns num_rounds 0) disk
        ∙ (ap (λ u. verify_claims operator w.disk u index presigns num_rounds 0) eu ∙ verified) in
      let w2 = with_sigs w1 presigns in
      bind-run _ _ w w tt (ap (λ x. (x, w)) checked)
      ∙ (bind-run (ask (λ (x : World). ok (get_deposit_index x))) _ w w index refl
          ∙ (bind-run _ _ w w presigns (ap (λ x. (x, w)) collected)
              ∙ (accept_deposit-sent operator start_utxo return_address evm_address index presigns w
                    w1 move_utxo sent
                  ∙ bind-run _ _ w2 w2 tt (ap (λ x. (x, w2)) verified'))))
