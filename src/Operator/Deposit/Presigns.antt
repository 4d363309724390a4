-- ===== src/Operator/Deposit/Presigns.antt =====
-- The presigns that an honest verifier gives.
use clementine_citeria.Common.{
  ℕ, zero, suc, ◌+◌, ◌<◌, ◌≡◌, refl, ap, sym, ◌∙◌, subst, List, ◌∷◌, true, map, some, arith,
  get_elem?, ◌%◌, ◌^◌,
}
use clementine_citeria.Common.Bytes.{Bytes}
use clementine_citeria.Hash.{Crypto}
use clementine_citeria.Bitcoin.{BitcoinCrate}
use clementine_citeria.Circuit.Constants.{num_rounds, bridge_amount_sats}
use clementine_citeria.Database.{Dbms, OutPoint}
use clementine_citeria.Errors.{
  BridgeError, Result, ok, err, unwrap, panic, ok_or, failed_to_get_presigns, bitcoin_sighash_error,
}
use clementine_citeria.Errors.Binds.{result-inv, ok-eq}
use clementine_citeria.Script.{ScriptCrate}
use clementine_citeria.Builder.{TaprootCrate}
use clementine_citeria.Actor.{
  Secp, Actor, sign, sighash_taproot_script_spend, sign_taproot_script_spend_tx_new,
}
use clementine_citeria.Rpc.{Client}
use clementine_citeria.Rpc.Deposit.{check_deposit_utxo}
use clementine_citeria.Operator.State.{
  World, Operator, DepositPresigns, get_deposit_index, NewDeposit, claim_tx,
}
use clementine_citeria.Operator.Claims.{claim_sighash, verify_claims, collect_presigns, map_err}
use clementine_citeria.Builder.Transactions.{CreateTxOutputs, create_move_tx}
use clementine_citeria.Verifier.{Verifier, claim_signatures, give_presigns}
use clementine_citeria.Errors.Collect.{collect_map-inv, collect_map-from, get_elem?-map}
use clementine_citeria.Operator.Deposit.Checks.{Signed, verify_claims-ok}

map_err-inv : {A : Type 0} (e : BridgeError) (m : Result A) {a : A} → map_err e m ≡ ok a → m ≡ ok a
map_err-inv e (ok a) h = h
map_err-inv e (err x) h = cc
map_err-inv e panic h = cc

module _ ⦃c : Crypto⦄ ⦃b : BitcoinCrate⦄ ⦃k : ScriptCrate⦄ ⦃t : TaprootCrate⦄ ⦃d : Dbms⦄
    ⦃r : Client⦄ ⦃p : Secp⦄ where
  sign-sighash :
      (actor : Actor) (tx : CreateTxOutputs) (i : ℕ) {sig : Bytes}
      → sign_taproot_script_spend_tx_new actor tx i ≡ ok sig
      → (h : Bytes) × (sighash_taproot_script_spend tx i ≡ ok h) × (sig ≡ sign actor h)
  unfolding sign_taproot_script_spend_tx_new sighash_taproot_script_spend
  sign-sighash actor tx i h =
      let (script, e1, h1) = result-inv (unwrap (get_elem? tx.scripts i)) _ h in
      let hash = p.taproot_script_spend_signature_hash tx.tx i tx.prevouts script in
      let (m, e2, h2) = result-inv (ok_or bitcoin_sighash_error hash) _ h1 in
      (m, rw e1 e2, sym (ok-eq h2))

  claim_signatures-inv :
      (v : Verifier) (disk : d.Disk) (move_utxo : OutPoint) (index : ℕ) (address : Bytes)
      (n i j : ℕ) {sigs : List Bytes}
      → claim_signatures v disk move_utxo index address n i ≡ ok sigs
      → j < n
      → (tx : CreateTxOutputs) × (h : Bytes) × (claim_tx v.verifiers address v.operator_pk disk
            move_utxo index
            (i + j)
          ≡ ok tx)
        × (sighash_taproot_script_spend tx 0 ≡ ok h)
        × (get_elem? sigs j ≡ some (sign v.signer h))
  unfolding claim_signatures
  claim_signatures-inv v disk move_utxo index address zero i j h small = absurd (omega arith)
  claim_signatures-inv v disk move_utxo index address (suc n) i zero h small =
      let (tx, e1, h1) =
        result-inv (claim_tx v.verifiers address v.operator_pk disk move_utxo index i) _ h in
      let (sig, e2, h2) = result-inv (sign_taproot_script_spend_tx_new v.signer tx 0) _ h1 in
      let (rest, e3, h3) =
        result-inv (claim_signatures v disk move_utxo index address n (suc i)) _ h2 in
      let (m, e4, e5) = sign-sighash v.signer tx 0 e2 in
      let here : i + 0 ≡ i = omega arith in
      (tx, m, rw here e1, e4, ap (λ l. get_elem? l 0) (sym (ok-eq h3)) ∙ ap some e5)
  claim_signatures-inv v disk move_utxo index address (suc n) i (suc j) h small =
      let (tx, e1, h1) =
        result-inv (claim_tx v.verifiers address v.operator_pk disk move_utxo index i) _ h in
      let (sig, e2, h2) = result-inv (sign_taproot_script_spend_tx_new v.signer tx 0) _ h1 in
      let (rest, e3, h3) =
        result-inv (claim_signatures v disk move_utxo index address n (suc i)) _ h2 in
      let (tx', m, e4, e5, e6) =
        claim_signatures-inv v disk move_utxo index address n (suc i) j e3 (omega arith) in
      let next : i + suc j ≡ suc i + j = omega arith in
      (tx', m, rw next e4, e5, ap (λ l. get_elem? l (suc j)) (sym (ok-eq h3)) ∙ e6)

  give_presigns-inv :
      (v : Verifier) (disk : d.Disk) (node : r.Node) (start_utxo : OutPoint)
      (return_address : Bytes) (index : ℕ) (evm_address address : Bytes) {s : DepositPresigns}
      → give_presigns v disk node start_utxo return_address index evm_address address ≡ ok s
      → (m : CreateTxOutputs) × (create_move_tx v.verifiers start_utxo evm_address return_address
          ≡ ok m)
        × (claim_signatures v disk (b.txid m.tx, 0) index address num_rounds 0
            ≡ ok s.operator_claim_sign)
  unfolding give_presigns
  give_presigns-inv v disk node start_utxo return_address index evm_address address h =
      let (u, e1, h1) =
        result-inv
          (check_deposit_utxo node v.verifiers start_utxo return_address evm_address
            bridge_amount_sats)
          _ h in
      let (m, e2, h2) =
        result-inv (create_move_tx v.verifiers start_utxo evm_address return_address) _ h1 in
      let (sig, e3, h3) = result-inv (sign_taproot_script_spend_tx_new v.signer m 0) _ h2 in
      let (sigs, e4, h4) =
        result-inv (claim_signatures v disk (b.txid m.tx, 0) index address num_rounds 0) _ h3 in
      (m, e2, e4 ∙ ap (λ (s : DepositPresigns). ok s.operator_claim_sign) (ok-eq h4))

  -- The verifier at a position: its key is the one at that position, it has the operator's keys, and
  -- the claims that it reads off its database are the operator's.
  pub record HonestVerifier (operator : Operator) (disk : d.Disk) (idx : ℕ) (v : Verifier)
      (own : d.Disk) : Type 0 where
    pub key : get_elem? operator.verifiers_pks idx ≡ some (p.x_only_public_key v.signer.secret_key)
    pub same_keys : v.verifiers ≡ operator.verifiers_pks
    pub same_operator : v.operator_pk ≡ operator.signer.xonly_public_key
    pub same_claims :
        (move_utxo : OutPoint) (index i : ℕ)
        → claim_tx operator.verifiers_pks operator.signer.address operator.signer.xonly_public_key
            own move_utxo index i
          ≡ claim_tx operator.verifiers_pks operator.signer.address operator.signer.xonly_public_key
              disk move_utxo index i

  -- The presign of one honest verifier, in the period `j`.
  honest-Signed :
      (operator : Operator) (disk : d.Disk) (idx : ℕ) (v : Verifier) (own : d.Disk) (node : r.Node)
      (start_utxo : OutPoint) (return_address evm_address : Bytes) (index j : ℕ)
      {s : DepositPresigns} {m : CreateTxOutputs}
      → HonestVerifier operator disk idx v own
      → create_move_tx operator.verifiers_pks start_utxo evm_address return_address ≡ ok m
      → give_presigns v own node start_utxo return_address index evm_address operator.signer.address
        ≡ ok s
      → j < num_rounds
      → Signed operator disk (b.txid m.tx, 0) index j idx s
  unfolding claim_sighash sign
  honest-Signed operator disk idx v own node start_utxo return_address evm_address index j {s} {m}
        honest em h small =
      let address = operator.signer.address in
      let (m', em', es) =
        give_presigns-inv v own node start_utxo return_address index evm_address address h in
      let keys = honest.same_keys in
      let same_m : m' ≡ m = ok-eq (
        sym em'
        ∙ (ap (λ pks. create_move_tx pks start_utxo evm_address return_address) keys ∙ em)) in
      let move_utxo : OutPoint = (b.txid m.tx, 0) in
      let es' =
        subst
          (λ (x : CreateTxOutputs).
            claim_signatures v own (b.txid x.tx, 0) index address num_rounds 0
            ≡ ok s.operator_claim_sign)
          same_m es in
      let (tx, hash, e1, e2, e3) =
        claim_signatures-inv v own move_utxo index address num_rounds 0 j es' small in
      let zero_plus : 0 + j ≡ j = omega arith in
      let made =
        ap (λ pks. claim_tx pks address operator.signer.xonly_public_key own move_utxo index j)
          (sym keys)
        ∙ (ap (λ pk. claim_tx v.verifiers address pk own move_utxo index j)
              (sym honest.same_operator)
            ∙ rw zero_plus at e1) in
      let made' = sym (honest.same_claims move_utxo index j) ∙ made in
      (
        hash,
        sign v.signer hash,
        p.x_only_public_key v.signer.secret_key,
        rw made' e2,
        e3,
        honest.key,
        p.verify-sign hash v.signer.secret_key,
      )

  -- The presigns of honest verifiers pass the operator's check.
  pub presigns-verified :
      (operator : Operator) (v0 : Verifier × d.Disk) (vs : List (Verifier × d.Disk))
      (start_utxo : OutPoint) (return_address evm_address : Bytes) (w : World)
      (presigns : List DepositPresigns) (m : CreateTxOutputs)
      → operator.verifier_connector
        ≡ map (λ (v : Verifier × d.Disk). give_presigns v.0 v.1) (v0 ∷ vs)
      → ((idx : ℕ) (v : Verifier × d.Disk)
          → get_elem? (v0 ∷ vs) idx ≡ some v
          → HonestVerifier operator w.disk idx v.0 v.1)
      → get_deposit_index w < 2 ^ 32
      → create_move_tx operator.verifiers_pks start_utxo evm_address return_address ≡ ok m
      → collect_presigns operator w.node start_utxo return_address (get_deposit_index w) evm_address
        ≡ ok presigns
      → verify_claims operator w.disk (b.txid m.tx, 0) (get_deposit_index w) presigns num_rounds 0
        ≡ ok tt
  unfolding collect_presigns
  presigns-verified operator v0 vs start_utxo return_address evm_address w presigns m connectors
        honest small em collected =
      let index = get_deposit_index w in
      let address = operator.signer.address in
      let low : index % 2 ^ 32 ≡ index = omega arith in
      let give = λ (v : Verifier × d.Disk). give_presigns v.0 v.1 in
      let asked = λ (f : NewDeposit).
        map_err failed_to_get_presigns
          (f w.node start_utxo return_address (index % 2 ^ 32) evm_address address) in
      let collected' = rw connectors at collected in
      let signed =
        λ (idx : ℕ) (s : DepositPresigns) (found : get_elem? presigns idx ≡ some s) (j : ℕ)
            (in_range : j < num_rounds).
          let (f, ef, es) = collect_map-from asked (map give (v0 ∷ vs)) idx collected' found in
          let (v, ev, same) = get_elem?-map give (v0 ∷ vs) idx ef in
          let given = map_err-inv failed_to_get_presigns _ (ap asked same ∙ es) in
          honest-Signed operator w.disk idx v.0 v.1 w.node start_utxo return_address evm_address
            index j (honest idx v ev) em (rw low at given) in_range in
      let (s0, _, found0) = collect_map-inv asked (map give (v0 ∷ vs)) 0 collected' refl in
      verify_claims-ok operator w.disk (b.txid m.tx, 0) index presigns num_rounds 0
        λ j small_j.
          let zero_plus : 0 + j ≡ j = omega arith in
          let (h0, sig0, pk0, eh0, es0, ep0, good0) = signed 0 s0 found0 j small_j in
          rw zero_plus (
            h0,
            eh0,
            λ idx s found.
                let (h1, sig1, pk1, eh1, es1, ep1, good1) = signed idx s found j small_j in
                let same : h1 ≡ h0 = ok-eq (sym eh1 ∙ eh0) in
                (sig1, pk1, es1, ep1, subst (λ h. p.verify_schnorr sig1 h pk1 ≡ true) same good1),
          )
