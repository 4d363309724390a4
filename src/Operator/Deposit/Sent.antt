-- ===== src/Operator/Deposit/Sent.antt =====
-- What sending the move transaction returns and changes.
use clementine_citeria.Common.{
  ℕ, ◌≡◌, refl, ap, sym, ◌∙◌, List, [], ◌∷◌, ◌++◌, map, some, none, get_elem?, Option, set?,
}
use clementine_citeria.Common.Bytes.{Bytes}
use clementine_citeria.Hash.{Crypto}
use clementine_citeria.Bitcoin.{BitcoinCrate, Transaction}
use clementine_citeria.Circuit.Constants.{num_rounds}
use clementine_citeria.Database.{Dbms, OutPoint}
use clementine_citeria.Errors.{
  BridgeError, Result, ok, err, unwrap, secpk256_error, collect_map, panic, ok_or, Host,
  failed_to_get_presigns, bitcoin_sighash_error, tx_input_not_found, control_block_error,
}
use clementine_citeria.Errors.Binds.{
  result-inv, ok-eq, ask, pure, ◌>>=◌, bind-inv, bind-run, ask-inv,
}
use clementine_citeria.Script.{ScriptCrate}
use clementine_citeria.Builder.{TaprootCrate}
use clementine_citeria.Actor.{Secp}
use clementine_citeria.Rpc.{Client, call, send_raw_transaction}
use clementine_citeria.Rpc.Deposit.{handle_taproot_witness_new}
use clementine_citeria.Operator.State.{World, Operator, DepositPresigns, rpc, add_deposit_take_sigs}
use clementine_citeria.Operator.Claims.{verify_claims}
use clementine_citeria.Operator.Deposit.{send_move_tx, accept_deposit}
use clementine_citeria.Builder.Transactions.{CreateTxOutputs, create_move_tx}
use clementine_citeria.Errors

module _ ⦃c : Crypto⦄ ⦃b : BitcoinCrate⦄ ⦃k : ScriptCrate⦄ ⦃t : TaprootCrate⦄ ⦃d : Dbms⦄
    ⦃r : Client⦄ ⦃p : Secp⦄ where
  pub send_move_tx-world :
      (operator : Operator) (start_utxo : OutPoint) (return_address evm_address : Bytes)
      (presigns : List DepositPresigns) (w : World) {w' : World} {u : OutPoint}
      → send_move_tx operator start_utxo return_address evm_address presigns w ≡ (ok u, w')
      → (w'.disk ≡ w.disk) × (w'.deposit_take_sigs ≡ w.deposit_take_sigs)
  unfolding send_move_tx rpc
  send_move_tx-world operator start_utxo return_address evm_address presigns w h =
      let (tx, e1, h1) = ask-inv _ _ w h in
      let (sig, e2, h2) = ask-inv _ _ w h1 in
      let (signed, e3, h3) = ask-inv _ _ w h2 in
      let (txid, w1, e4, h4) = bind-inv (rpc _) _ w h3 in
      (
        sym (ap (λ p. p.1.disk) h4) ∙ sym (ap (λ p. p.1.disk) e4),
        sym (ap (λ p. p.1.deposit_take_sigs) h4) ∙ sym (ap (λ p. p.1.deposit_take_sigs) e4),
      )

  -- The world after the move transaction was sent and the presigns were stored.
  abbrev pub with_sigs : World → List DepositPresigns → World
  with_sigs w presigns = record w {
    deposit_take_sigs =
        w.deposit_take_sigs ++ map (λ (s : DepositPresigns). s.operator_claim_sign) presigns ∷ [];
  }

  -- What follows the move transaction, once it was sent.
  pub accept_deposit-sent :
      (operator : Operator) (start_utxo : OutPoint) (return_address evm_address : Bytes) (index : ℕ)
      (presigns : List DepositPresigns) (w w1 : World) (move_utxo : OutPoint)
      → send_move_tx operator start_utxo return_address evm_address presigns w ≡ (ok move_utxo, w1)
      → accept_deposit operator start_utxo return_address evm_address index presigns w
        ≡ (ask (λ (x : World). verify_claims operator x.disk move_utxo index presigns num_rounds 0)
              >>= λ _. pure move_utxo)
            (with_sigs w1 presigns)
  unfolding accept_deposit add_deposit_take_sigs
  accept_deposit-sent operator start_utxo return_address evm_address index presigns w w1 move_utxo
        h =
      bind-run (send_move_tx operator start_utxo return_address evm_address presigns) _ w w1
        move_utxo h
      ∙ bind-run
          (add_deposit_take_sigs (map (λ (s : DepositPresigns). s.operator_claim_sign) presigns)) _
          w1 (with_sigs w1 presigns) tt refl

  -- The node answers a transaction that it takes with its id.
  abbrev pub AnswersTxid : Type 0
  AnswersTxid =
      (tx : Transaction) (witnesses : List (List Bytes)) (node : r.Node) (txid : Bytes)
      → (r.broadcast tx witnesses node).0 ≡ some txid
      → txid ≡ b.txid tx

  witness-tx :
      (tx : CreateTxOutputs) (elements : List Bytes) (i : ℕ) {signed : CreateTxOutputs}
      → handle_taproot_witness_new tx elements i ≡ ok signed
      → signed.tx ≡ tx.tx
  unfolding handle_taproot_witness_new
  witness-tx tx elements i h =
      let (witness, e1, h1) =
        result-inv (ok_or tx_input_not_found (get_elem? tx.witnesses i)) _ h in
      let (info, e2, h2) = result-inv (unwrap (get_elem? tx.taproot_spend_infos i)) _ h1 in
      let (script, e3, h3) = result-inv (unwrap (get_elem? tx.scripts i)) _ h2 in
      let (block, e4, h4) =
        result-inv (ok_or control_block_error (t.control_block info script)) _ h3 in
      let (witnesses, e5, h5) = result-inv (unwrap (set? tx.witnesses i _)) _ h4 in
      sym (ap (λ (x : CreateTxOutputs). x.tx) (ok-eq h5))

  sent-txid :
      (tx : Transaction) (witnesses : List (List Bytes)) (w : World) {txid : Bytes} {w' : World}
      → AnswersTxid
      → rpc (send_raw_transaction tx witnesses) w ≡ (ok txid, w')
      → txid ≡ b.txid tx
  unfolding rpc send_raw_transaction call
  sent-txid tx witnesses w {txid} answers h =
      answers tx witnesses w.node txid
        (answered (r.broadcast tx witnesses w.node).0 (ap (λ p. p.0) h))
    where
      answered : (o : Option Bytes) → ok_or Errors.bitcoin_rpc_error o ≡ ok txid → o ≡ some txid
      answered none e = cc
      answered (some x) e = ap some (ok-eq e)

  pub send_move_tx-txid :
      (operator : Operator) (start_utxo : OutPoint) (return_address evm_address : Bytes)
      (presigns : List DepositPresigns) (w : World) {w' : World} {u : OutPoint}
      → AnswersTxid
      → send_move_tx operator start_utxo return_address evm_address presigns w ≡ (ok u, w')
      → (m : CreateTxOutputs) × (create_move_tx operator.verifiers_pks start_utxo evm_address
            return_address
          ≡ ok m)
        × (u ≡ (b.txid m.tx, 0))
  unfolding send_move_tx
  send_move_tx-txid operator start_utxo return_address evm_address presigns w answers h =
      let (m, e1, h1) = ask-inv _ _ w h in
      let (sig, e2, h2) = ask-inv _ _ w h1 in
      let (signed, e3, h3) = ask-inv _ _ w h2 in
      let (txid, w1, e4, h4) = bind-inv (rpc _) _ w h3 in
      let same = sent-txid signed.tx signed.witnesses w answers e4 in
      (
        m,
        e1,
        sym (ok-eq (ap (λ p. p.0) h4)) ∙ ap (λ x. (x, 0)) (same ∙ ap b.txid (witness-tx m _ 0 e3)),
      )
