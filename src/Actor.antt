-- ===== src/Actor.antt =====
-- core/src/actor.rs, over the crates `secp256k1` and `bitcoin::sighash`, which are parameters.
use clementine_citeria.Common.{ℕ, ◌≡◌, List, Option, none, Bool, true, get_elem?}
use clementine_citeria.Common.Bytes.{Bytes}
use clementine_citeria.Bitcoin.{TxOut, Transaction}
use clementine_citeria.Errors.{
  Result, ok, ok_or, unwrap, secpk256_error, bitcoin_sighash_error, ◌>>=◌,
}
use clementine_citeria.Builder.{TaprootCrate}
use clementine_citeria.Builder.Transactions.{CreateTxOutputs}

-- `sign_schnorr` stands for one of the signatures that the crate may make, which verifies. A
-- `sighash` is that of a script leaf with the default type, over all the spent outputs.
pub record Secp : Type 0 where
  pub public_key : Bytes → Bytes
  pub x_only_public_key : Bytes → Bytes
  pub sign_schnorr : Bytes → Bytes → Bytes
  pub verify_schnorr : Bytes → Bytes → Bytes → Bool
  pub verify-sign :
      (message secret_key : Bytes)
      → verify_schnorr (sign_schnorr message secret_key) message (x_only_public_key secret_key)
        ≡ true
  pub sign_ecdsa : Bytes → Bytes → Bytes
  -- `add_xonly_tweak` by the `TapTweakHash` of the key and a root
  pub tap_tweak : Bytes → Option Bytes → Option Bytes
  pub taproot_script_spend_signature_hash : Transaction → ℕ → List TxOut → Bytes → Option Bytes
  pub taproot_key_spend_signature_hash : Transaction → ℕ → List TxOut → Option Bytes

pub record Actor : Type 0 where
  pub secret_key : Bytes
  pub public_key : Bytes
  pub xonly_public_key : Bytes
  pub address : Bytes

module _ ⦃p : Secp⦄ where
  unfoldable pub sign : Actor → Bytes → Bytes
  sign actor sighash = p.sign_schnorr sighash actor.secret_key

  unfoldable pub sign_ecdsa : Actor → Bytes → Bytes
  sign_ecdsa actor message = p.sign_ecdsa message actor.secret_key

  unfoldable pub sign_with_tweak : Actor → Bytes → Option Bytes → Result Bytes
  sign_with_tweak actor sighash merkle_root = do
    tweaked ← ok_or secpk256_error (p.tap_tweak actor.secret_key merkle_root)
    ok (p.sign_schnorr sighash tweaked)

  unfoldable pub sign_taproot_script_spend_tx :
      Actor → Transaction → List TxOut → Bytes → ℕ → Result Bytes
  sign_taproot_script_spend_tx actor tx prevouts spend_script input_index = do
    sig_hash ←
        ok_or bitcoin_sighash_error
          (p.taproot_script_spend_signature_hash tx input_index prevouts spend_script)
    ok (sign actor sig_hash)

  unfoldable pub sign_taproot_pubkey_spend_tx : Actor → Transaction → List TxOut → ℕ → Result Bytes
  sign_taproot_pubkey_spend_tx actor tx prevouts input_index = do
    sig_hash ←
        ok_or bitcoin_sighash_error (p.taproot_key_spend_signature_hash tx input_index prevouts)
    sign_with_tweak actor sig_hash none

  module _ ⦃t : TaprootCrate⦄ where
    -- `Actor::new`; the network is in the address's text only.
    unfoldable pub new_actor : Bytes → Actor
    new_actor sk =
        let xonly = p.x_only_public_key sk in
        record {
          secret_key = sk;
          public_key = p.public_key sk;
          xonly_public_key = xonly;
          address = t.p2tr xonly none;
        }

    unfoldable pub sighash_taproot_script_spend : CreateTxOutputs → ℕ → Result Bytes
    sighash_taproot_script_spend tx input_index = do
      script ← unwrap (get_elem? tx.scripts input_index)
      ok_or bitcoin_sighash_error
          (p.taproot_script_spend_signature_hash tx.tx input_index tx.prevouts script)

    unfoldable pub sign_taproot_script_spend_tx_new : Actor → CreateTxOutputs → ℕ → Result Bytes
    sign_taproot_script_spend_tx_new actor tx input_index = do
      script ← unwrap (get_elem? tx.scripts input_index)
      sig_hash ←
          ok_or bitcoin_sighash_error
            (p.taproot_script_spend_signature_hash tx.tx input_index tx.prevouts script)
      ok (sign actor sig_hash)
