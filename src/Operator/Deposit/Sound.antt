-- ===== src/Operator/Deposit/Sound.antt =====
-- What a deposit that the operator accepted has checked.
use clementine_citeria.Common.{
  ℕ, ◌+◌, ◌<◌, ◌≡◌, refl, ap, sym, ◌∙◌, subst, List, [], ◌∷◌, ◌++◌, map, some, arith, get_elem?,
}
use clementine_citeria.Common.Bytes.{Bytes}
use clementine_citeria.Hash.{Crypto}
use clementine_citeria.Bitcoin.{BitcoinCrate}
use clementine_citeria.Circuit.Constants.{num_rounds, bridge_amount_sats}
use clementine_citeria.Database.{Dbms, OutPoint}
use clementine_citeria.Errors.{ok}
use clementine_citeria.Errors.Binds.{ok-eq, ask, bind-inv, bind-run, ask-inv}
use clementine_citeria.Script.{ScriptCrate}
use clementine_citeria.Builder.{TaprootCrate}
use clementine_citeria.Actor.{Secp}
use clementine_citeria.Rpc.{Client}
use clementine_citeria.Rpc.Deposit.{check_deposit_utxo}
use clementine_citeria.Operator.State.{World, Operator, DepositPresigns, get_deposit_index}
use clementine_citeria.Operator.Claims.{verify_claims, collect_presigns}
use clementine_citeria.Operator.Deposit.{send_move_tx, accept_deposit, new_deposit}
use clementine_citeria.Operator.Deposit.Sent.{with_sigs, accept_deposit-sent, send_move_tx-world}
use clementine_citeria.Operator.Deposit.Checks.{Signed, verify_claims-inv}

module _ ⦃c : Crypto⦄ ⦃b : BitcoinCrate⦄ ⦃k : ScriptCrate⦄ ⦃t : TaprootCrate⦄ ⦃d : Dbms⦄
    ⦃r : Client⦄ ⦃p : Secp⦄ where
  accept_deposit-inv :
      (operator : Operator) (start_utxo : OutPoint) (return_address evm_address : Bytes) (index : ℕ)
      (presigns : List DepositPresigns) (w : World) {w' : World} {move_utxo : OutPoint}
      → accept_deposit operator start_utxo return_address evm_address index presigns w
        ≡ (ok move_utxo, w')
      → (verify_claims operator w.disk move_utxo index presigns num_rounds 0 ≡ ok tt)
        × (w'.deposit_take_sigs
            ≡ w.deposit_take_sigs
              ++ map (λ (s : DepositPresigns). s.operator_claim_sign) presigns ∷ [])
        × (w'.disk ≡ w.disk)
  unfolding accept_deposit
  accept_deposit-inv operator start_utxo return_address evm_address index presigns w h =
      let (mu, w1, e, _) =
        bind-inv (send_move_tx operator start_utxo return_address evm_address presigns) _ w h in
      let (disk, sigs) =
        send_move_tx-world operator start_utxo return_address evm_address presigns w e in
      let h' =
        sym (
          accept_deposit-sent operator start_utxo return_address evm_address index presigns w w1 mu
            e)
        ∙ h in
      let (u, e1, h1) = ask-inv _ _ (with_sigs w1 presigns) h' in
      let same = ok-eq (ap (λ p. p.0) h1) in
      (
        subst (λ m. verify_claims operator w.disk m index presigns num_rounds 0 ≡ ok tt) same
            (ap (λ s. verify_claims operator s mu index presigns num_rounds 0) (sym disk) ∙ e1),
        sym (ap (λ p. p.1.deposit_take_sigs) h1)
            ∙ ap (λ l. l ++ map (λ (s : DepositPresigns). s.operator_claim_sign) presigns ∷ [])
                sigs,
        sym (ap (λ p. p.1.disk) h1) ∙ disk,
      )

  -- A deposit that the operator accepted: the checks of the output held, the verifiers' presigns
  -- were stored as those of the next deposit, the database is as it was, and in every period the
  -- presign of each verifier is a valid signature, under the key at that verifier's position, of
  -- the claim of this deposit.
  pub new_deposit_sound :
      (operator : Operator) (start_utxo : OutPoint) (return_address evm_address : Bytes) (w : World)
      {w' : World} {move_utxo : OutPoint}
      → new_deposit operator start_utxo return_address evm_address w ≡ (ok move_utxo, w')
      → (presigns : List DepositPresigns) × (check_deposit_utxo w.node operator.verifiers_pks
            start_utxo return_address evm_address bridge_amount_sats
          ≡ ok tt)
        × (collect_presigns operator w.node start_utxo return_address
              (get_deposit_index w)
              evm_address
            ≡ ok presigns)
        × (w'.deposit_take_sigs
            ≡ w.deposit_take_sigs
              ++ map (λ (s : DepositPresigns). s.operator_claim_sign) presigns ∷ [])
        × (w'.disk ≡ w.disk)
        × ((i idx : ℕ) (presign : DepositPresigns)
            → i < num_rounds
            → get_elem? presigns idx ≡ some presign
            → Signed operator w.disk move_utxo (get_deposit_index w) i idx presign)
  unfolding new_deposit
  new_deposit_sound operator start_utxo return_address evm_address w {move_utxo = move_utxo} h =
      let (u, e1, h1) = ask-inv _ _ w h in
      let index = get_deposit_index w in
      let h2 =
        sym (bind-run (ask (λ (x : World). ok (get_deposit_index x))) _ w w index refl) ∙ h1 in
      let (presigns, e3, h3) = ask-inv _ _ w h2 in
      let (checked, sigs, disk) =
        accept_deposit-inv operator start_utxo return_address evm_address index presigns w h3 in
      (
        presigns,
        e1,
        e3,
        sigs,
        disk,
        λ i idx presign small e.
            let zero_plus : 0 + i ≡ i = omega arith in
            rw (← zero_plus) (
              verify_claims-inv operator w.disk move_utxo index presigns num_rounds 0 i idx checked
                small e),
      )
