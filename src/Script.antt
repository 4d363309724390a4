-- ===== src/Script.antt =====
-- core/src/script_builder.rs. The crate `bitcoin` is a parameter: its `Builder` is the list of the
-- pushes, `into_script` the bytes that they stand for.
use clementine_citeria.Common.{ℕ, List, [], ◌∷◌, ◌++◌}
use clementine_citeria.Common.Bytes.{Bytes}
use clementine_citeria.Bitcoin.{TxOut}

pub data Opcode : Type 0 where
  op_true op_false op_return op_checksig op_checksigverify op_if op_endif op_csv op_cltv : Opcode
  op_drop op_sha256 op_equal : Opcode

pub data Push : Type 0 where
  push_opcode : Opcode → Push
  push_slice : Bytes → Push
  push_x_only_key : Bytes → Push
  push_int : ℕ → Push

pub record ScriptCrate : Type 0 where
  pub into_script : List Push → Bytes
  pub to_p2wsh : Bytes → Bytes
  pub dust_value : Bytes → ℕ

-- `for vpk in self.verifiers_pks.clone()`
unfoldable pub push_verifiers : List Bytes → List Push
push_verifiers [] = []
push_verifiers (vpk ∷ rest) =
    push_x_only_key vpk ∷ push_opcode op_checksigverify ∷ push_verifiers rest

unfoldable pub push_slices : List Bytes → List Push
push_slices [] = []
push_slices (elem ∷ rest) = push_slice elem ∷ push_slices rest

module _ ⦃k : ScriptCrate⦄ where
  -- The output that pays its dust value to the hash of a script.
  unfoldable pub dust_txout : List Push → TxOut
  dust_txout script =
      let script_pubkey = k.to_p2wsh (k.into_script script) in
      record { script_pubkey = script_pubkey; value = k.dust_value script_pubkey }

  unfoldable pub anyone_can_spend_txout : TxOut
  anyone_can_spend_txout = dust_txout (push_opcode op_true ∷ [])

  unfoldable pub op_return_txout : Bytes → TxOut
  op_return_txout evm_address = dust_txout (push_opcode op_return ∷ push_slice evm_address ∷ [])

  -- `self.verifiers_pks` is an argument.
  unfoldable pub generate_script_n_of_n : List Bytes → Bytes
  generate_script_n_of_n verifiers_pks =
      k.into_script (push_verifiers verifiers_pks ++ push_opcode op_true ∷ [])

  unfoldable pub generate_script_n_of_n_with_user_pk : List Bytes → Bytes → Bytes
  generate_script_n_of_n_with_user_pk verifiers_pks user_pk = k.into_script (
      push_verifiers verifiers_pks
      ++ (push_x_only_key user_pk ∷ push_opcode op_checksigverify ∷ push_opcode op_true ∷ []))

  unfoldable pub create_deposit_script : List Bytes → Bytes → Bytes
  create_deposit_script verifiers_pks evm_address = k.into_script (
      push_verifiers verifiers_pks
      ++ (push_opcode op_true
          ∷ push_opcode op_false
          ∷ push_opcode op_if
          ∷ push_slice evm_address
          ∷ push_opcode op_endif
          ∷ []))

  unfoldable pub create_inscription_script_32_bytes : Bytes → List Bytes → Bytes
  create_inscription_script_32_bytes public_key elems = k.into_script (
      (push_x_only_key public_key
        ∷ push_opcode op_checksig
        ∷ push_opcode op_false
        ∷ push_opcode op_if
        ∷ [])
      ++ (push_slices elems ++ push_opcode op_endif ∷ []))

  unfoldable pub generate_timelock_script : Bytes → ℕ → Bytes
  generate_timelock_script actor_pk block_count = k.into_script (
      push_int block_count
      ∷ push_opcode op_csv
      ∷ push_opcode op_drop
      ∷ push_x_only_key actor_pk
      ∷ push_opcode op_checksig
      ∷ [])

  unfoldable pub generate_absolute_timelock_script : Bytes → ℕ → Bytes
  generate_absolute_timelock_script actor_pk block_count = k.into_script (
      push_int block_count
      ∷ push_opcode op_cltv
      ∷ push_opcode op_drop
      ∷ push_x_only_key actor_pk
      ∷ push_opcode op_checksig
      ∷ [])

  unfoldable pub generate_hash_script : Bytes → Bytes
  generate_hash_script hash =
      k.into_script (push_opcode op_sha256 ∷ push_slice hash ∷ push_opcode op_equal ∷ [])

  unfoldable pub generate_dust_script : Bytes → Bytes
  generate_dust_script evm_address =
      k.into_script (push_opcode op_return ∷ push_slice evm_address ∷ [])
