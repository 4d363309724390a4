-- ===== src/Errors.antt =====
-- core/src/errors.rs: `BridgeError`, and what a function of the host ends in. The errors of other
-- crates that a variant carries are not modelled.
pub mod Binds
pub mod Collect
use clementine_citeria.Common.{Option, none, some, List, [], ◌∷◌}
use clementine_citeria.Database.{DatabaseError}

pub data InvalidPeriodError : Type 0 where
  withdrawal_period_mismatch : InvalidPeriodError
  preimage_reveal_period_mismatch : InvalidPeriodError
  inscription_period_mismatch : InvalidPeriodError

pub data BridgeError : Type 0 where
  invalid_period : InvalidPeriodError → BridgeError
  secpk256_error bitcoin_sighash_error : BridgeError
  deposit_not_finalized invalid_deposit_utxo utxo_spent : BridgeError
  failed_to_get_presigns txid_not_found : BridgeError
  bitcoin_rpc_error no_confirmation_data : BridgeError
  vec_conversion_error try_from_slice_error : BridgeError
  bitcoin_transaction_error tx_input_not_found : BridgeError
  preimage_not_found taproot_builder_error taproot_script_error control_block_error : BridgeError
  pk_sk_length_mismatch public_key_not_found invalid_operator_key already_initialized : BridgeError
  blockhash_not_found block_not_found : BridgeError
  merkle_block_error merkle_proof_error invalid_key_pair : BridgeError
  database_error : DatabaseError → BridgeError

-- `Ok`, `Err` or a panic.
pub data Result {ℓ} (A : Type ℓ) : Type ℓ where
  ok : A → Result A
  err : BridgeError → Result A
  panic : Result A

-- `ok_or(e)?`, or `?` on an error that is converted to `e`.
abbrev pub ok_or {ℓ} : {A : Type ℓ} → BridgeError → Option A → Result A
ok_or e none = err e
ok_or e (some a) = ok a

-- `unwrap()`, or an index that may be out of bounds.
abbrev pub unwrap {ℓ} : {A : Type ℓ} → Option A → Result A
unwrap none = panic
unwrap (some a) = ok a

-- `unwrap()` of a result.
abbrev pub unwrap_result {ℓ} : {A : Type ℓ} → Result A → Result A
unwrap_result (ok a) = ok a
unwrap_result (err e) = panic
unwrap_result panic = panic

infixl 5 ◌>>=◌ ◌>>◌
abbrev pub ◌>>=◌ {ℓ κ} : {A : Type ℓ} {B : Type κ} → Result A → (A → Result B) → Result B
ok a >>= f = f a
err e >>= f = err e
panic >>= f = panic

abbrev pub ◌>>◌ {ℓ} : {B : Type ℓ} → Result (Unit {0}) → Result B → Result B
m >> k = m >>= λ _. k

-- `xs.iter().map(f).collect::<Result<Vec<_>, _>>()`
unfoldable pub collect_map : {A B : Type 0} → (A → Result B) → List A → Result (List B)
collect_map f [] = ok []
collect_map f (x ∷ xs) = do y ← f x; ys ← collect_map f xs; ok (y ∷ ys)

-- Code of the host that changes a state, `S`: an error or a panic leaves what was done.
abbrev pub Host : Type 0 → Type 0 → Type 0
Host S A = S → Result A × S
