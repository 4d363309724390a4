-- ===== src/Rpc.antt =====
-- core/src/extended_rpc.rs over the client of Bitcoin Core, which is a parameter. Its questions do
-- not change the node, and what they fail with is not modelled.
pub mod Deposit
use clementine_citeria.Common.{
  ℕ, zero, suc, ◌+◌, ◌-◌, ◌%◌, ◌^◌, List, [], ◌∷◌, Option, none, some, Bool, true, false, ◌&&◌,
  ◌==◌, length, get_elem?, if◌then◌else◌,
}
use clementine_citeria.Common.Bytes.{Bytes, bytes_eq}
use clementine_citeria.Common.Words.{from_le_bytes}
use clementine_citeria.Bitcoin.{Header, TxOut, Transaction}
use clementine_citeria.Database.{OutPoint}
use clementine_citeria.Errors.{
  Result, ok, ok_or, unwrap, bitcoin_rpc_error, no_confirmation_data, vec_conversion_error,
  block_not_found, Host,
}
use clementine_citeria.Errors
use clementine_citeria.Errors.Binds.{◌>>=◌, ◌>>◌, pure}
use clementine_citeria.Writer.MerklePath.{reverse}

-- `bitcoin::Block`; the ids with the witnesses, which `Transaction` leaves out, stand beside them.
pub record Block : Type 0 where
  pub header : Header
  pub txdata : List Transaction
  pub wtxids : List Bytes

-- `GetRawTransactionResult`
pub record RawTransactionInfo : Type 0 where
  pub confirmations : Option ℕ
  pub blockhash : Option Bytes

-- `GetTransactionResult`, with the outputs of its details.
pub record WalletTransaction : Type 0 where
  pub blockhash : Option Bytes
  pub details : List ℕ

-- `GetBlockchainInfoResult`
pub record BlockchainInfo : Type 0 where
  pub blocks : ℕ
  pub chain_work : Bytes

-- `none` is an error of the client. `header_work` is `Header::work` of the crate `bitcoin`.
pub record Client : Type 1 where
  pub Node : Type 0
  pub header_work : Header → ℕ
  pub raw_transaction : Node → Bytes → Option Transaction
  pub raw_transaction_info : Node → Bytes → Option RawTransactionInfo
  pub wallet_transaction : Node → Bytes → Option WalletTransaction
  pub tx_out : Node → OutPoint → Option (Option TxOut)
  pub block_count : Node → Option ℕ
  pub block_hash : Node → ℕ → Option Bytes
  pub block_header : Node → Bytes → Option Header
  pub block : Node → Bytes → Option Block
  pub blockchain_info : Node → Option BlockchainInfo
  pub best_block_hash : Node → Option Bytes
  pub pay_to_address : Bytes → ℕ → Node → Option Bytes × Node
  pub broadcast : Transaction → List (List Bytes) → Node → Option Bytes × Node
  pub new_address : Node → Option Bytes × Node
  pub generate_to_address : ℕ → Bytes → Node → Option (List Bytes) × Node

-- `==` on `TxOut`
unfoldable pub txout_eq : TxOut → TxOut → Bool
txout_eq a b = a.value == b.value && bytes_eq a.script_pubkey b.script_pubkey

module _ ⦃r : Client⦄ where
  -- The wrappers: the error is converted where it is passed on.
  unfoldable pub get_block_hash : r.Node → ℕ → Result Bytes
  get_block_hash node blockheight = ok_or bitcoin_rpc_error (r.block_hash node blockheight)

  unfoldable pub get_block_header : r.Node → Bytes → Result Header
  get_block_header node block_hash = ok_or bitcoin_rpc_error (r.block_header node block_hash)

  unfoldable pub get_block : r.Node → Bytes → Result Block
  get_block node block_hash = ok_or bitcoin_rpc_error (r.block node block_hash)

  unfoldable pub get_block_count : r.Node → Result ℕ
  get_block_count node = ok_or bitcoin_rpc_error (r.block_count node)

  unfoldable pub get_best_block_hash : r.Node → Result Bytes
  get_best_block_hash node = ok_or bitcoin_rpc_error (r.best_block_hash node)

  unfoldable pub get_blockchain_info : r.Node → Result BlockchainInfo
  get_blockchain_info node = ok_or bitcoin_rpc_error (r.blockchain_info node)

  unfoldable pub get_raw_transaction : r.Node → Bytes → Result Transaction
  get_raw_transaction node txid = ok_or bitcoin_rpc_error (r.raw_transaction node txid)

  unfoldable pub get_raw_transaction_info : r.Node → Bytes → Result RawTransactionInfo
  get_raw_transaction_info node txid = ok_or bitcoin_rpc_error (r.raw_transaction_info node txid)

  unfoldable pub get_transaction : r.Node → Bytes → Result WalletTransaction
  get_transaction node txid = ok_or bitcoin_rpc_error (r.wallet_transaction node txid)

  -- A call that changes the node.
  unfoldable pub call : {A : Type 0} → (r.Node → Option A × r.Node) → Host r.Node A
  call f node = (ok_or bitcoin_rpc_error (f node).0, (f node).1)

  unfoldable pub send_raw_transaction : Transaction → List (List Bytes) → Host r.Node Bytes
  send_raw_transaction tx witnesses = call (r.broadcast tx witnesses)

  unfoldable pub confirmation_blocks : r.Node → Bytes → Result ℕ
  confirmation_blocks node txid =
      Errors.◌>>=◌ (get_raw_transaction_info node txid)
        λ info. ok_or no_confirmation_data info.confirmations

  -- `tx.output[outpoint.vout]` panics out of bounds.
  unfoldable pub check_utxo_address_and_amount : r.Node → OutPoint → Bytes → ℕ → Result Bool
  check_utxo_address_and_amount node outpoint address amount_sats =
      Errors.◌>>=◌ (get_raw_transaction node outpoint.0) λ tx.
        Errors.◌>>=◌ (unwrap (get_elem? tx.output outpoint.1)) λ current_output.
          ok (txout_eq (record { script_pubkey = address; value = amount_sats }) current_output)

  -- `res.is_none()`
  unfoldable pub is_utxo_spent : r.Node → OutPoint → Result Bool
  is_utxo_spent node outpoint =
      Errors.◌>>=◌ (ok_or bitcoin_rpc_error (r.tx_out node outpoint))
        λ res. ok (elim res [ none ↦ true | some _ ↦ false ])

  unfoldable pub mine_blocks : ℕ → Host r.Node (Unit {0})
  mine_blocks block_num = do
    new_address ← call r.new_address
    _ ← call (r.generate_to_address block_num new_address)
    pure tt

  -- `for _ in 0..10`, with `n` rounds left.
  unfoldable pub send_dummies : ℕ → Host r.Node (Unit {0})
  send_dummies zero = pure tt
  send_dummies (suc n) = do
    new_address ← call r.new_address
    _ ← call (r.pay_to_address new_address 1000)
    send_dummies n

  unfoldable pub generate_dummy_block : Host r.Node (List Bytes)
  generate_dummy_block = do
    address ← call r.new_address
    send_dummies 10
    call (r.generate_to_address 1 address)

  -- `tx_result.details[0].vout`
  unfoldable pub send_to_address : Bytes → ℕ → Host r.Node OutPoint
  send_to_address address amount_sats = do
    txid ← call (r.pay_to_address address amount_sats)
    tx_result ← (λ node. (get_transaction node txid, node))
    vout ← (λ node. (unwrap (get_elem? tx_result.details 0), node))
    pure (txid, vout)

  unfoldable pub get_work_at_block : r.Node → ℕ → Result ℕ
  get_work_at_block node blockheight = Errors.◌>>=◌ (get_block_hash node blockheight) λ block_hash.
      Errors.◌>>=◌ (get_block node block_hash) λ block. ok (r.header_work block.header)

  -- `for i in start + 1..end + 1`, with `n` blocks left from `i` on; the sum wraps.
  unfoldable pub add_works : r.Node → ℕ → ℕ → ℕ → Result ℕ
  add_works node zero i total_work = ok total_work
  add_works node (suc n) i total_work =
      Errors.◌>>=◌ (get_work_at_block node i)
        λ work. add_works node n (suc i) ((total_work + work) % 2 ^ 256)

  unfoldable pub calculate_total_work_between_blocks : r.Node → ℕ → ℕ → Result ℕ
  calculate_total_work_between_blocks node start end_height =
      let total = add_works node (end_height - start) (start + 1) 0 in
      if start == end_height then ok 0 else total

  -- `chain_work` is read big-endian, and refused unless it has 32 bytes.
  unfoldable pub get_total_work : r.Node → Result ℕ
  get_total_work node = Errors.◌>>=◌ (get_blockchain_info node) λ chain_info.
      if length chain_info.chain_work == 32
      then ok (from_le_bytes (reverse chain_info.chain_work))
      else Errors.err vec_conversion_error

  unfoldable pub get_block_height : r.Node → Result ℕ
  get_block_height node = Errors.◌>>=◌ (get_blockchain_info node) λ chain_info. ok chain_info.blocks
