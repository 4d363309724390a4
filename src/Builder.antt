-- ===== src/Builder.antt =====
-- `TransactionBuilder` of core/src/transaction_builder.rs: its parts and addresses. The taproot
-- builder of the crate `bitcoin` is a parameter. An address is its script, and the builder's own
-- field, the keys of the verifiers with the operator's as the last, is an argument.
pub mod Transactions
pub mod Connector
pub mod Calculated
pub mod Amounts
pub mod Shape
pub mod Taproot
use clementine_citeria.Common.{
  ℕ, suc, ◌+◌, ◌-◌, ◌*◌, ◌%◌, ◌^◌, List, [], ◌∷◌, map, Option, length, get_elem?, leb, ltb, ◌==◌,
  if◌then◌else◌,
}
use clementine_citeria.Common.Bytes.{Bytes}
use clementine_citeria.Bitcoin.{TxIn, TxOut, Transaction}
use clementine_citeria.Errors.{
  Result, ok, err, panic, ok_or, unwrap, unwrap_result, taproot_builder_error, taproot_script_error,
  ◌>>=◌,
}
use clementine_citeria.Constants.{connector_tree_operator_takes_after, user_takes_after}
use clementine_citeria.Database.{OutPoint}
use clementine_citeria.Script.{
  ScriptCrate, push_opcode, push_slice, op_sha256, op_equal, generate_script_n_of_n,
  create_deposit_script, create_inscription_script_32_bytes, generate_timelock_script,
  generate_absolute_timelock_script,
}
use clementine_citeria.Writer.MerklePath.{log2_within}

-- `bitcoin::taproot`: `none` is an error of the crate. `p2tr` is the script of the address.
pub record TaprootCrate : Type 1 where
  pub TaprootBuilder : Type 0
  pub TaprootSpendInfo : Type 0
  pub new : TaprootBuilder
  pub add_leaf : TaprootBuilder → ℕ → Bytes → Option TaprootBuilder
  pub finalize : TaprootBuilder → Bytes → Option TaprootSpendInfo
  pub merkle_root : TaprootSpendInfo → Option Bytes
  pub p2tr : Bytes → Option Bytes → Bytes
  pub control_block : TaprootSpendInfo → Bytes → Option Bytes

-- The unspendable key of BIP 341.
abbrev pub internal_key : Bytes
internal_key =
    0x93 ∷ 0xc7 ∷ 0x37 ∷ 0x8d ∷ 0x96 ∷ 0x51 ∷ 0x8a ∷ 0x75 ∷ 0x44 ∷ 0x88 ∷ 0x21 ∷ 0xc4 ∷ 0xf7 ∷ 0xc8
    ∷ 0xf4 ∷ 0xba ∷ 0xe7 ∷ 0xce ∷ 0x60 ∷ 0xf8 ∷ 0x04 ∷ 0xd0 ∷ 0x3d ∷ 0x1f ∷ 0x06 ∷ 0x28 ∷ 0xdd
    ∷ 0x5d ∷ 0xd0 ∷ 0xf5 ∷ 0xde ∷ 0x51 ∷ []

-- `Amount` arithmetic, which panics where it leaves the u64.
unfoldable pub amount_add : ℕ → ℕ → Result ℕ
amount_add a b = if ltb (a + b) (2 ^ 64) then ok (a + b) else panic

unfoldable pub amount_sub : ℕ → ℕ → Result ℕ
amount_sub a b = if leb b a then ok (a - b) else panic

unfoldable pub amount_mul : ℕ → ℕ → Result ℕ
amount_mul a n = if ltb (a * n) (2 ^ 64) then ok (a * n) else panic

-- `2u64.pow(depth as u32)` wraps.
unfoldable pub calculate_amount : ℕ → ℕ → ℕ → Result ℕ
calculate_amount depth value fee = do
  total ← amount_add value fee
  amount_mul total (2 ^ (depth % 2 ^ 32) % 2 ^ 64)

unfoldable pub create_btc_tx : List TxIn → List TxOut → Transaction
create_btc_tx tx_ins tx_outs = record {
  version = 2;
  lock_time = 0;
  input = tx_ins;
  output = tx_outs;
}

-- `Sequence::ENABLE_RBF_NO_LOCKTIME`
unfoldable pub create_tx_ins : List OutPoint → List TxIn
create_tx_ins [] = []
create_tx_ins ((txid, vout) ∷ utxos) =
    record { txid = txid; vout = vout; script_sig = []; sequence = 0xfffffffd }
    ∷ create_tx_ins utxos

-- `Sequence::from_height`
unfoldable pub create_tx_ins_with_sequence : List OutPoint → List TxIn
create_tx_ins_with_sequence [] = []
create_tx_ins_with_sequence ((txid, vout) ∷ utxos) =
    record {
      txid = txid;
      vout = vout;
      script_sig = [];
      sequence = connector_tree_operator_takes_after;
    }
    ∷ create_tx_ins_with_sequence utxos

unfoldable pub create_tx_outs : List (ℕ × Bytes) → List TxOut
create_tx_outs [] = []
create_tx_outs ((value, script_pubkey) ∷ pairs) =
    record { value = value; script_pubkey = script_pubkey } ∷ create_tx_outs pairs

-- `m - ((i >= n - k) as u8)`, the depth of the leaf `i`, where the first `n - k` are lower.
unfoldable pub leaf_depth : ℕ → ℕ → ℕ → ℕ
leaf_depth m lower i = m - (if leb lower i then 1 else 0)

-- `m = ceil(log(n))`
abbrev pub tree_depth : ℕ → ℕ
tree_depth n = log2_within 64 (n - 1) + 1

-- `n - k` for `k = 2^m - n`
abbrev pub lower_leaves : ℕ → ℕ
lower_leaves n = n - (2 ^ tree_depth n - n)

module _ ⦃t : TaprootCrate⦄ where
  -- `(0..n).fold(...)`, from the leaf `i` on.
  unfoldable pub add_leaves : ℕ → ℕ → ℕ → List Bytes → t.TaprootBuilder → Result t.TaprootBuilder
  add_leaves m lower i [] acc = ok acc
  add_leaves m lower i (script ∷ scripts) acc = do
    acc' ← unwrap (t.add_leaf acc (leaf_depth m lower i) script)
    add_leaves m lower (suc i) scripts acc'

  unfoldable pub taproot_builder : List Bytes → Result t.TaprootBuilder
  taproot_builder [] = err taproot_script_error
  taproot_builder (script ∷ []) = ok_or taproot_builder_error (t.add_leaf t.new 0 script)
  taproot_builder (script ∷ other ∷ scripts) =
      let n = suc (suc (length scripts)) in
      add_leaves (tree_depth n % 256) (lower_leaves n) 0 (script ∷ other ∷ scripts) t.new

  -- `finalize` and `Address::p2tr`
  unfoldable pub finish : t.TaprootBuilder → Result (Bytes × t.TaprootSpendInfo)
  finish builder = do
    tree_info ← ok_or taproot_builder_error (t.finalize builder internal_key)
    ok (t.p2tr internal_key (t.merkle_root tree_info), tree_info)

  unfoldable pub create_taproot_address : List Bytes → Result (Bytes × t.TaprootSpendInfo)
  create_taproot_address scripts = do builder ← taproot_builder scripts; finish builder

  module _ ⦃k : ScriptCrate⦄ where
    unfoldable pub generate_deposit_address :
        List Bytes → Bytes → Bytes → Result (Bytes × t.TaprootSpendInfo)
    generate_deposit_address verifiers_pks user_pk user_evm_address = do
      let deposit_script = create_deposit_script verifiers_pks user_evm_address
      let script_timelock = generate_timelock_script user_pk user_takes_after
      first ← ok_or taproot_builder_error (t.add_leaf t.new 1 deposit_script)
      both ← ok_or taproot_builder_error (t.add_leaf first 1 script_timelock)
      finish both

    unfoldable pub generate_bridge_address : List Bytes → Result (Bytes × t.TaprootSpendInfo)
    generate_bridge_address verifiers_pks = do
      let script_n_of_n = generate_script_n_of_n verifiers_pks
      taproot ← ok_or taproot_builder_error (t.add_leaf t.new 0 script_n_of_n)
      finish taproot

    -- `self.verifiers_pks[self.verifiers_pks.len() - 1]`; the height is cut to a u32.
    unfoldable pub create_connector_tree_source_address :
        List Bytes → ℕ → Result (Bytes × t.TaprootSpendInfo)
    create_connector_tree_source_address verifiers_pks absolute_block_height_to_take_after = do
      operator_pk ← unwrap (get_elem? verifiers_pks (length verifiers_pks - 1))
      let timelock_script =
          generate_absolute_timelock_script operator_pk
            (absolute_block_height_to_take_after % 2 ^ 32)
      let script_n_of_n = generate_script_n_of_n verifiers_pks
      unwrap_result (create_taproot_address (timelock_script ∷ script_n_of_n ∷ []))

    unfoldable pub create_connector_tree_node_address :
        Bytes → Bytes → Result (Bytes × t.TaprootSpendInfo)
    create_connector_tree_node_address actor_pk hash = do
      let timelock_script = generate_timelock_script actor_pk connector_tree_operator_takes_after
      let preimage_script =
          k.into_script (push_opcode op_sha256 ∷ push_slice hash ∷ push_opcode op_equal ∷ [])
      create_taproot_address (timelock_script ∷ preimage_script ∷ [])

    -- The hash of the preimages that the source computes there is not used.
    unfoldable pub create_inscription_commit_address :
        Bytes → List Bytes → Result (Bytes × t.TaprootSpendInfo × Bytes)
    create_inscription_commit_address actor_pk preimages_to_be_revealed = do
      let inscribe_preimage_script =
          create_inscription_script_32_bytes actor_pk preimages_to_be_revealed
      (address, taproot_info) ← create_taproot_address (inscribe_preimage_script ∷ [])
      ok (address, taproot_info, inscribe_preimage_script)
