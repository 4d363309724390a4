-- ===== src/Circuit/Transaction.antt =====
-- `read_tx_and_calculate_txid` and its helpers, from circuits/src/bitcoin.rs. A hasher is the bytes
-- that it has been given.
pub mod Pays
use clementine_citeria.Common.{
  ℕ, ◌/◌, ◌%◌, [], ◌∷◌, ◌++◌, Option, none, some, Bool, true, false, not, ◌&&◌, take, ltb, leb,
  ◌==◌, if◌then◌else◌, assert,
}
use clementine_citeria.Common.Bytes.{Bytes, bytes_eq}
use clementine_citeria.Common.Words.{to_le_bytes}
use clementine_citeria.Hash.{Crypto, double_sha256_hash}
use clementine_citeria.Env.{Environment, Prog, pure, lift, ◌>>=◌, ◌>>◌, for_range}

unfoldable pub update_hasher_with_varint : Bytes → ℕ → Bytes
update_hasher_with_varint hasher integer =
    if ltb integer 0xfd
    then hasher ++ to_le_bytes 1 integer
    else if leb integer 0xffff
    then (hasher ++ 0xfd ∷ []) ++ to_le_bytes 2 integer
    else (hasher ++ 0xfe ∷ []) ++ to_le_bytes 4 integer

abbrev pub is_none {ℓ} : {A : Type ℓ} → Option A → Bool
is_none none = true
is_none (some a) = false

-- `require_input.is_some() && prev_tx_hash == require_input.unwrap().0 && ...`
unfoldable pub meets_input : Option (Bytes × ℕ) → Bytes → ℕ → Bool
meets_input none prev_tx_hash output_index = false
meets_input (some (txid, vout)) prev_tx_hash output_index =
    bytes_eq prev_tx_hash txid && output_index == vout

abbrev value_meets : Option ℕ → ℕ → Bool
value_meets none value = true
value_meets (some v) value = v == value

-- The condition of `if let Some((value_option, taproot_address_condition)) = require_output`.
unfoldable pub meets_output : Option (Option ℕ × Bytes) → ℕ → Bytes → Bool
meets_output none value taproot_address = false
meets_output (some (value_option, condition)) value taproot_address =
    bytes_eq taproot_address condition && value_meets value_option value

module _ ⦃c : Crypto⦄ ⦃e : Environment⦄ where
  unfoldable pub read_whole_chunk : ℕ → Bytes → Prog Bytes
  read_whole_chunk i hasher = do chunk ← e.read_32bytes; pure (hasher ++ chunk)

  unfoldable pub read_chunks_and_update_hasher : Bytes → ℕ → Prog Bytes
  read_chunks_and_update_hasher hasher byte_len = do
    hasher' ← for_range (byte_len / 32) 0 read_whole_chunk hasher
    let remaining_bytes = byte_len % 32
    if ltb 0 remaining_bytes
        then (do chunk ← e.read_32bytes; pure (hasher' ++ take remaining_bytes chunk))
        else pure hasher'

  -- One round of `for _ in 0..input_count`: the hasher and `input_satisfied`.
  unfoldable pub read_input : Option (Bytes × ℕ) → ℕ → Bytes × Bool → Prog (Bytes × Bool)
  read_input require_input i (hasher, input_satisfied) = do
    prev_tx_hash ← e.read_32bytes
    output_index ← e.read_u32
    sequence ← e.read_u32
    script_sig_size ← e.read_u32
    hasher' ←
        read_chunks_and_update_hasher
          (update_hasher_with_varint ((hasher ++ prev_tx_hash) ++ to_le_bytes 4 output_index)
            script_sig_size)
          script_sig_size
    pure (
      hasher' ++ to_le_bytes 4 sequence,
      (if not input_satisfied && meets_input require_input prev_tx_hash output_index
          then true
          else input_satisfied),
    )

  -- One round of `for _ in 0..output_count`: the hasher and `output_satisfied`.
  unfoldable pub read_output : Option (Option ℕ × Bytes) → ℕ → Bytes × Bool → Prog (Bytes × Bool)
  read_output require_output i (hasher, output_satisfied) = do
    value ← e.read_u64
    output_flag ← e.read_u32
    if output_flag == 0
        then (do
          taproot_address ← e.read_32bytes
          pure (
            ((hasher ++ to_le_bytes 8 value) ++ 34 ∷ 81 ∷ 32 ∷ []) ++ taproot_address,
            (if meets_output require_output value taproot_address then true else output_satisfied),
          ))
        else (do
          hasher' ←
              read_chunks_and_update_hasher
                (update_hasher_with_varint (hasher ++ to_le_bytes 8 value) output_flag) output_flag
          pure (hasher', output_satisfied))

  unfoldable pub read_tx_and_calculate_txid :
      Option (Bytes × ℕ) → Option (Option ℕ × Bytes) → Prog Bytes
  read_tx_and_calculate_txid require_input require_output = do
    version ← e.read_i32
    input_count ← e.read_u32
    output_count ← e.read_u32
    lock_time ← e.read_u32
    (hasher, input_satisfied) ←
        for_range input_count 0 (read_input require_input)
          (update_hasher_with_varint (to_le_bytes 4 version) input_count, is_none require_input)
    (hasher', output_satisfied) ←
        for_range output_count 0 (read_output require_output)
          (update_hasher_with_varint hasher output_count, is_none require_output)
    lift (assert input_satisfied)
    lift (assert output_satisfied)
    pure (double_sha256_hash (hasher' ++ to_le_bytes 4 lock_time))
