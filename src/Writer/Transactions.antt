-- ===== src/Writer/Transactions.antt =====
-- A transaction from `write_tx_to_env` to `read_tx_and_calculate_txid`.
pub mod Inputs
pub mod Outputs
use clementine_citeria.Common.{
  ℕ, zero, suc, ◌+◌, ◌-◌, ◌*◌, ◌/◌, ◌%◌, ◌^◌, ◌<◌, ◌≤◌, ◌≡◌, ◌≢◌, refl, ap, sym, ◌∙◌, arith, List,
  [], ◌∷◌, ◌++◌, append_assoc, append-nil, length, length-append, take, take-all, drop, ltb, leb,
  ◌==◌, if◌then◌else◌, All, Bool, true, false, not, ◌&&◌, ◌||◌, Bool-cases, ge→ltb, some, none,
  Option, inl, inr, assert,
}
use clementine_citeria.Common.Bytes.{Bytes, IsByte, IsHash}
use clementine_citeria.Common.Words.{to_le_bytes}
use clementine_citeria.Hash.{Crypto, double_sha256_hash}
use clementine_citeria.Env.{Environment, Prog, pure, lift, ◌>>=◌, ◌>>◌, for_range, for_each}
use clementine_citeria.Env.Tape.{
  Item, bytes32, u32, u64, i32, IsTape, Reads, Writes, Reads-pure, Reads-bind, Reads-then-pure,
  Reads-bind-nil, Reads-Writes, Reads-32bytes, Reads-u32, Reads-i32, Writes-then, Writes-32bytes,
  Writes-u32, Writes-i32, Writes-for_each, items_all, steps, Reads-for_range,
}
use clementine_citeria.Bitcoin.{
  TxIn, TxOut, Transaction, IsTxIn, IsTxOut, IsTransaction, compact_size, encode_input,
  encode_output, encode_list, encode_transaction, BitcoinCrate,
}
use clementine_citeria.Circuit.Transaction.{
  update_hasher_with_varint, read_chunks_and_update_hasher, read_input, read_output,
  read_tx_and_calculate_txid, meets_input, is_none,
}
use clementine_citeria.Writer.{write_input, write_output, write_tx_to_env, write_chunks, is_taproot}
use clementine_citeria.Writer.Chunks.{chunk_items, chunks, read_chunks_lem, write_chunks_lem}
use clementine_citeria.Writer.Transactions.Outputs.{
  update_hasher_with_varint_lem, output_items, output_step, HasScript, Reads-output, Writes-output,
  some_output, steps-outputs, or_assoc, or_false,
}
use clementine_citeria.Writer.Transactions.Inputs.{
  input_items, input_step, some_input, steps-inputs, Reads-input, Writes-input,
}

tx-encoding :
    (tx : Transaction)
    → ((((to_le_bytes 4 tx.version ++ compact_size (length tx.input))
              ++ encode_list encode_input tx.input)
            ++ compact_size (length tx.output))
          ++ encode_list encode_output tx.output)
        ++ to_le_bytes 4 tx.lock_time
      ≡ encode_transaction tx
tx-encoding tx = simp append_assoc

same_items :
    (value : ℕ) (key : Bytes)
    → IsHash key
    → output_items (record { value = value; script_pubkey = [] }) ++ bytes32 key ∷ []
      ≡ output_items (record { value = value; script_pubkey = 81 ∷ 32 ∷ key })
unfolding output_items is_taproot chunk_items chunks
same_items value key h =
    let wide : (suc (suc (length key)) == 34) ≡ true = ground (arith, h.0) in
    rw (wide, take-all 32 key h.0)

module _ ⦃c : Crypto⦄ ⦃e : Environment⦄ ⦃i : IsTape e⦄ where
  unfoldable pub tx_items : Transaction → List Item
  tx_items tx =
      i32 tx.version
        ∷ u32 (length tx.input)
        ∷ u32 (length tx.output)
        ∷ u32 tx.lock_time
        ∷ items_all input_items tx.input
      ++ items_all output_items tx.output

  pub Writes-tx : (tx : Transaction) → IsTransaction tx → Writes (write_tx_to_env tx) (tx_items tx)
  unfolding write_tx_to_env tx_items
  Writes-tx tx h =
      let ins : length tx.input % 2 ^ 32 ≡ length tx.input = omega (arith, h.input_len) in
      let outs : length tx.output % 2 ^ 32 ≡ length tx.output = omega (arith, h.output_len) in
      rw (ins, outs)
        (Writes-then (e.write_i32 tx.version) _ (i32 tx.version ∷ []) _ (Writes-i32 tx.version) (
          Writes-then (e.write_u32 (length tx.input)) _ (u32 (length tx.input) ∷ []) _
            (Writes-u32 (length tx.input))
            (Writes-then (e.write_u32 (length tx.output)) _ (u32 (length tx.output) ∷ []) _
              (Writes-u32 (length tx.output))
              (Writes-then (e.write_u32 tx.lock_time) _ (u32 tx.lock_time ∷ []) _
                (Writes-u32 tx.lock_time)
                (Writes-then (for_each tx.input write_input) _ (items_all input_items tx.input) _
                  (Writes-for_each write_input input_items IsTxIn Writes-input tx.input h.inputs)
                  (Writes-for_each write_output output_items IsTxOut Writes-output tx.output
                    h.outputs))))))

  Reads-checked :
      (b b' : Bool) (hash : Bytes)
      → b ≡ true
      → b' ≡ true
      → Reads (lift (assert b) >>= λ _. (lift (assert b') >>= λ _. pure hash)) [] hash
  Reads-checked b b' hash hb hb' =
      rw (hb, hb')
        (Reads-bind (pure tt) _ [] [] tt _ (Reads-pure tt)
          (Reads-bind (pure tt) _ [] [] tt _ (Reads-pure tt) (Reads-pure hash)))

  pub Reads-tx :
      (tx : Transaction) (require_input : Option (Bytes × ℕ))
      (require_output : Option (Option ℕ × Bytes))
      → IsTransaction tx
      → All HasScript tx.output
      → (is_none require_input || some_input require_input tx.input) ≡ true
      → (is_none require_output || some_output require_output tx.output) ≡ true
      → Reads
          (read_tx_and_calculate_txid require_input require_output)
          (tx_items tx)
          (double_sha256_hash (encode_transaction tx))
  unfolding read_tx_and_calculate_txid tx_items
  Reads-tx tx require_input require_output h scripts met met' =
      let version = to_le_bytes 4 tx.version in
      let start = version ++ compact_size (length tx.input) in
      let middle = start ++ encode_list encode_input tx.input in
      let start' = middle ++ compact_size (length tx.output) in
      let loop = rw (steps-inputs require_input 0 start (is_none require_input) tx.input) at (
        Reads-for_range (read_input require_input) input_items (input_step require_input) IsTxIn
          (Reads-input require_input) tx.input 0 (start, is_none require_input) h.inputs) in
      let loop' = rw (steps-outputs require_output 0 start' (is_none require_output) tx.output) at (
        Reads-for_range (read_output require_output) output_items (output_step require_output)
          HasScript (Reads-output require_output) tx.output 0 (start', is_none require_output)
          scripts) in
      rw (← tx-encoding tx) (
        Reads-bind e.read_i32 _ (i32 tx.version ∷ []) _ tx.version _
          (Reads-i32 tx.version h.version_i32)
          (Reads-bind e.read_u32 _ (u32 (length tx.input) ∷ []) _ (length tx.input) _
            (Reads-u32 (length tx.input) h.input_len)
            (Reads-bind e.read_u32 _ (u32 (length tx.output) ∷ []) _ (length tx.output) _
              (Reads-u32 (length tx.output) h.output_len)
              (Reads-bind e.read_u32 _ (u32 tx.lock_time ∷ []) _ tx.lock_time _
                (Reads-u32 tx.lock_time h.lock_time_u32)
                (rw (update_hasher_with_varint_lem version (length tx.input) h.input_len) (
                  Reads-bind
                    (for_range (length tx.input) 0 (read_input require_input)
                      (start, is_none require_input))
                    _ (items_all input_items tx.input) (items_all output_items tx.output) _ _ loop
                    (rw (update_hasher_with_varint_lem middle (length tx.output) h.output_len) (
                      Reads-bind-nil
                        (for_range (length tx.output) 0 (read_output require_output)
                          (start', is_none require_output))
                        _ (items_all output_items tx.output) _ _ loop'
                        (Reads-checked _ _ _ met met')))))))))

  -- The circuit reads from what the host wrote of a transaction its txid, if no output's script is
  -- empty, an input spends what is required and an output pays what is required.
  pub read_tx-write_tx :
      ⦃b : BitcoinCrate⦄
      → (tx : Transaction) (require_input : Option (Bytes × ℕ))
        (require_output : Option (Option ℕ × Bytes)) (past : List Item)
      → IsTransaction tx
      → All HasScript tx.output
      → (is_none require_input || some_input require_input tx.input) ≡ true
      → (is_none require_output || some_output require_output tx.output) ≡ true
      → (write_tx_to_env tx >>= λ _. read_tx_and_calculate_txid require_input require_output)
          (i.tape past [])
        ≡ some (b.txid tx, i.tape (past ++ tx_items tx) [])
  read_tx-write_tx ⦃b⦄ tx require_input require_output past h scripts met met' =
      rw (b.txid_encoding tx) (
        Reads-Writes (write_tx_to_env tx) (read_tx_and_calculate_txid require_input require_output)
          (tx_items tx) (double_sha256_hash (encode_transaction tx)) (Writes-tx tx h)
          (Reads-tx tx require_input require_output h scripts met met') past)

  -- An output with an empty script, followed by 32 bytes, is written as the taproot output with these
  -- 32 bytes as its key: the circuit cannot tell the two.
  pub write_output-ambiguous :
      (value : ℕ) (key : Bytes) (past rest : List Item)
      → IsHash key
      → value < 2 ^ 64
      → (write_output (record { value = value; script_pubkey = [] }) >>= λ _. e.write_32bytes key)
          (i.tape past rest)
        ≡ write_output (record { value = value; script_pubkey = 81 ∷ 32 ∷ key }) (i.tape past rest)
  write_output-ambiguous value key past rest h small =
      let empty : TxOut = record { value = value; script_pubkey = [] } in
      let taproot : TxOut = record { value = value; script_pubkey = 81 ∷ 32 ∷ key } in
      let both =
        Writes-then (write_output empty) (e.write_32bytes key) (output_items empty)
          (bytes32 key ∷ [])
          (Writes-output empty (record {
            value_u64 = small;
            script_pubkey_bytes = tt;
            script_pubkey_len = omega arith;
          }))
          (Writes-32bytes key) in
      let other = Writes-output taproot (record {
        value_u64 = small;
        script_pubkey_bytes = (omega arith, (omega arith, h.1));
        script_pubkey_len = omega (arith, h.0);
      }) in
      both.run past rest ∙ rw (same_items value key h) (sym (other.run past rest))
