-- ===== src/Operator/Deposit/Checks.antt =====
-- The operator's check of the presigns: what it says of each of them, and when it passes.
use clementine_citeria.Common.{
  ℕ, zero, suc, ◌+◌, ◌<◌, ◌≡◌, refl, ap, sym, ◌∙◌, subst, List, [], ◌∷◌, Bool, true, false, not,
  some, none, arith, get_elem?,
}
use clementine_citeria.Common.Bytes.{Bytes}
use clementine_citeria.Hash.{Crypto}
use clementine_citeria.Bitcoin.{BitcoinCrate}
use clementine_citeria.Database.{Dbms, OutPoint}
use clementine_citeria.Errors.{BridgeError, ok, unwrap, secpk256_error}
use clementine_citeria.Errors.Binds.{result-inv, ok-eq}
use clementine_citeria.Script.{ScriptCrate}
use clementine_citeria.Builder.{TaprootCrate}
use clementine_citeria.Actor.{Secp}
use clementine_citeria.Rpc.{Client}
use clementine_citeria.Rpc.Deposit.{fail_if}
use clementine_citeria.Operator.State.{Operator, DepositPresigns}
use clementine_citeria.Operator.Claims.{verify_sigs, sigs_of_period, claim_sighash, verify_claims}
use clementine_citeria.Errors.Collect.{
  collect_map-inv, collect_map-from, collect_map-ok, unwrap-inv,
}

fail_if-inv : (test : Bool) (e : BridgeError) {u : Unit {0}} → fail_if test e ≡ ok u → test ≡ false
fail_if-inv true e h = cc
fail_if-inv false e h = refl

not-false : (t : Bool) → not t ≡ false → t ≡ true
not-false true h = refl
not-false false h = cc

module _ ⦃p : Secp⦄ where
  -- The signature at each position verifies under the key at that position, counted from `idx`.
  verify_sigs-inv :
      (pks : List Bytes) (sig_hash : Bytes) (idx : ℕ) (sigs : List Bytes) (j : ℕ) {u : Unit {0}}
      {sig : Bytes}
      → verify_sigs pks sig_hash idx sigs ≡ ok u
      → get_elem? sigs j ≡ some sig
      → (pk : Bytes) × (get_elem? pks (idx + j) ≡ some pk)
        × (p.verify_schnorr sig sig_hash pk ≡ true)
  unfolding verify_sigs
  verify_sigs-inv pks sig_hash idx [] j h e = absurd (none-ne e)
    where
      none-ne : {sig : Bytes} → none ≡ some sig → ⊥
      none-ne e = cc
  verify_sigs-inv pks sig_hash idx (x ∷ sigs) zero {sig = sig} h e =
      let (pk, e1, h1) = result-inv (unwrap (get_elem? pks idx)) _ h in
      let test = not (p.verify_schnorr x sig_hash pk) in
      let (u, e2, h2) = result-inv (fail_if test secpk256_error) _ h1 in
      let here : idx + 0 ≡ idx = omega arith in
      let same : x ≡ sig = cc in
      (
        pk,
        rw here (unwrap-inv pks idx e1),
        subst (λ s. p.verify_schnorr s sig_hash pk ≡ true) same
            (not-false _ (fail_if-inv test secpk256_error e2)),
      )
  verify_sigs-inv pks sig_hash idx (x ∷ sigs) (suc j) h e =
      let (pk, e1, h1) = result-inv (unwrap (get_elem? pks idx)) _ h in
      let test = not (p.verify_schnorr x sig_hash pk) in
      let (u, e2, h2) = result-inv (fail_if test secpk256_error) _ h1 in
      let next : idx + suc j ≡ suc idx + j = omega arith in
      rw next (verify_sigs-inv pks sig_hash (suc idx) sigs j h2 e)

  verify_sigs-ok :
      (pks : List Bytes) (sig_hash : Bytes) (idx : ℕ) (sigs : List Bytes)
      → ((j : ℕ) (sig : Bytes)
          → get_elem? sigs j ≡ some sig
          → (pk : Bytes) × (get_elem? pks (idx + j) ≡ some pk)
            × (p.verify_schnorr sig sig_hash pk ≡ true))
      → verify_sigs pks sig_hash idx sigs ≡ ok tt
  unfolding verify_sigs
  verify_sigs-ok pks sig_hash idx [] all = refl
  verify_sigs-ok pks sig_hash idx (sig ∷ sigs) all =
      let (pk, e, good) = all 0 sig refl in
      let here : idx + 0 ≡ idx = omega arith in
      let e' = rw here at e in
      let rest = verify_sigs-ok pks sig_hash (suc idx) sigs λ j s es.
        let next : suc idx + j ≡ idx + suc j = omega arith in rw next (all (suc j) s es) in
      rw (e', good) rest

module _ ⦃c : Crypto⦄ ⦃b : BitcoinCrate⦄ ⦃k : ScriptCrate⦄ ⦃t : TaprootCrate⦄ ⦃d : Dbms⦄
    ⦃r : Client⦄ ⦃p : Secp⦄ where
  -- The presign of the verifier at a position signs the claim of a deposit in a period.
  abbrev pub Signed : Operator → d.Disk → OutPoint → ℕ → ℕ → ℕ → DepositPresigns → Type 0
  Signed operator disk move_utxo deposit_index i idx presign =
      (sig_hash : Bytes) × (sig : Bytes) × (pk : Bytes) × (claim_sighash operator disk move_utxo
          deposit_index i
        ≡ ok sig_hash)
      × (get_elem? presign.operator_claim_sign i ≡ some sig)
      × (get_elem? operator.verifiers_pks idx ≡ some pk)
      × (p.verify_schnorr sig sig_hash pk ≡ true)

  pub verify_claims-inv :
      (operator : Operator) (disk : d.Disk) (move_utxo : OutPoint) (deposit_index : ℕ)
      (presigns : List DepositPresigns) (n i j idx : ℕ) {u : Unit {0}} {presign : DepositPresigns}
      → verify_claims operator disk move_utxo deposit_index presigns n i ≡ ok u
      → j < n
      → get_elem? presigns idx ≡ some presign
      → Signed operator disk move_utxo deposit_index (i + j) idx presign
  unfolding verify_claims sigs_of_period
  verify_claims-inv operator disk move_utxo deposit_index presigns zero i j idx h small e =
      absurd (omega arith)
  verify_claims-inv operator disk move_utxo deposit_index presigns (suc n) i zero idx
        {presign = presign} h small e =
      let (sig_hash, e1, h1) =
        result-inv (claim_sighash operator disk move_utxo deposit_index i) _ h in
      let (sigs, e2, h2) = result-inv (sigs_of_period i presigns) _ h1 in
      let (u, e3, h3) = result-inv (verify_sigs operator.verifiers_pks sig_hash 0 sigs) _ h2 in
      let (sig, e4, e5) = collect_map-inv _ presigns idx e2 e in
      let (pk, e6, ok_sig) = verify_sigs-inv operator.verifiers_pks sig_hash 0 sigs idx e3 e5 in
      let here : i + 0 ≡ i = omega arith in
      let zero_plus : 0 + idx ≡ idx = omega arith in
      rw here (
        sig_hash,
        sig,
        pk,
        e1,
        unwrap-inv presign.operator_claim_sign i e4,
        rw zero_plus at e6,
        ok_sig,
      )
  verify_claims-inv operator disk move_utxo deposit_index presigns (suc n) i (suc j) idx h small e =
      let (sig_hash, e1, h1) =
        result-inv (claim_sighash operator disk move_utxo deposit_index i) _ h in
      let (sigs, e2, h2) = result-inv (sigs_of_period i presigns) _ h1 in
      let (u, e3, h3) = result-inv (verify_sigs operator.verifiers_pks sig_hash 0 sigs) _ h2 in
      let next : i + suc j ≡ suc i + j = omega arith in
      rw next (
        verify_claims-inv operator disk move_utxo deposit_index presigns n (suc i) j idx h3
          (omega arith) e)

  -- Claims that can be made, and that each verifier signed, pass the check.
  pub verify_claims-ok :
      (operator : Operator) (disk : d.Disk) (move_utxo : OutPoint) (index : ℕ)
      (presigns : List DepositPresigns) (n i : ℕ)
      → ((j : ℕ)
          → j < n
          → (h : Bytes) × (claim_sighash operator disk move_utxo index (i + j) ≡ ok h)
            × ((idx : ℕ) (s : DepositPresigns)
                → get_elem? presigns idx ≡ some s
                → (sig : Bytes) × (pk : Bytes) × (get_elem? s.operator_claim_sign (i + j)
                    ≡ some sig)
                  × (get_elem? operator.verifiers_pks idx ≡ some pk)
                  × (p.verify_schnorr sig h pk ≡ true)))
      → verify_claims operator disk move_utxo index presigns n i ≡ ok tt
  unfolding verify_claims sigs_of_period
  verify_claims-ok operator disk move_utxo index presigns zero i all = refl
  verify_claims-ok operator disk move_utxo index presigns (suc n) i all =
      let (h, e, signed) = all 0 (omega arith) in
      let here : i + 0 ≡ i = omega arith in
      let e' = rw here at e in
      let signed' = rw here at signed in
      let (sigs, es) =
        collect_map-ok (λ (s : DepositPresigns). unwrap (get_elem? s.operator_claim_sign i))
          presigns
          λ idx s found. let (sig, pk, e1, e2, good) = signed' idx s found in (sig, rw e1 refl) in
      let good = verify_sigs-ok operator.verifiers_pks h 0 sigs λ idx sig found.
        let (s, es1, es2) =
          collect_map-from (λ (s : DepositPresigns). unwrap (get_elem? s.operator_claim_sign i))
            presigns idx es found in
        let (sig', pk, e1, e2, ok_sig) = signed' idx s es1 in
        let same : sig' ≡ sig = ok-eq (sym (ap unwrap e1) ∙ es2) in
        let zero_plus : 0 + idx ≡ idx = omega arith in
        (pk, rw zero_plus e2, subst (λ x. p.verify_schnorr x h pk ≡ true) same ok_sig) in
      let rest = verify_claims-ok operator disk move_utxo index presigns n (suc i) λ j small.
        let next : suc i + j ≡ i + suc j = omega arith in rw next (all (suc j) (omega arith)) in
      rw (e', es, good) rest
