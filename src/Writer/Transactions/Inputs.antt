-- ===== src/Writer/Transactions/Inputs.antt =====
-- The inputs of a transaction.
use clementine_citeria.Common.{
  ℕ, suc, ◌%◌, ◌^◌, ◌≡◌, refl, ◌∙◌, arith, List, [], ◌∷◌, ◌++◌, append_assoc, append-nil, length,
  if◌then◌else◌, Bool, true, false, not, ◌&&◌, ◌||◌, Option,
}
use clementine_citeria.Common.Bytes.{Bytes}
use clementine_citeria.Common.Words.{to_le_bytes}
use clementine_citeria.Hash.{Crypto}
use clementine_citeria.Env.{Environment}
use clementine_citeria.Env.Tape.{
  Item, bytes32, u32, IsTape, Reads, Writes, Reads-bind, Reads-then-pure, Reads-32bytes, Reads-u32,
  Writes-then, Writes-32bytes, Writes-u32, steps,
}
use clementine_citeria.Bitcoin.{TxIn, IsTxIn, compact_size, encode_input, encode_list}
use clementine_citeria.Circuit.Transaction.{read_chunks_and_update_hasher, read_input, meets_input}
use clementine_citeria.Writer.{write_input}
use clementine_citeria.Writer.Chunks.{chunk_items, read_chunks_lem, write_chunks_lem}
use clementine_citeria.Writer.Transactions.Outputs.{
  update_hasher_with_varint_lem, or_assoc, or_false,
}

unfoldable pub input_items : TxIn → List Item
input_items input =
    bytes32 input.txid
    ∷ u32 input.vout
    ∷ u32 input.sequence
    ∷ u32 (length input.script_sig)
    ∷ chunk_items input.script_sig

abbrev pub input_step : Option (Bytes × ℕ) → ℕ → Bytes × Bool → TxIn → Bytes × Bool
input_step require_input k (hasher, satisfied) input =
    (hasher ++ encode_input input, satisfied || meets_input require_input input.txid input.vout)

-- An input spends what is required.
unfoldable pub some_input : Option (Bytes × ℕ) → List TxIn → Bool
some_input require_input [] = false
some_input require_input (input ∷ rest) =
    meets_input require_input input.txid input.vout || some_input require_input rest

pub steps-inputs :
    (require_input : Option (Bytes × ℕ)) (k : ℕ) (hasher : Bytes) (satisfied : Bool)
    (inputs : List TxIn)
    → steps (input_step require_input) k (hasher, satisfied) inputs
      ≡ (hasher ++ encode_list encode_input inputs, satisfied || some_input require_input inputs)
unfolding some_input
steps-inputs require_input k hasher satisfied [] = rw (append-nil, or_false)
steps-inputs require_input k hasher satisfied (input ∷ rest) =
    steps-inputs require_input (suc k) (hasher ++ encode_input input)
      (satisfied || meets_input require_input input.txid input.vout) rest
    ∙ rw (
      append_assoc hasher (encode_input input) (encode_list encode_input rest),
      or_assoc satisfied (meets_input require_input input.txid input.vout)
          (some_input require_input rest),
    )

satisfied_or :
    (satisfied m : Bool) → (if not satisfied && m then true else satisfied) ≡ (satisfied || m)
satisfied_or true m = refl
satisfied_or false true = refl
satisfied_or false false = refl

input-encoding :
    (hasher : Bytes) (input : TxIn)
    → ((((hasher ++ input.txid) ++ to_le_bytes 4 input.vout)
            ++ compact_size (length input.script_sig))
          ++ input.script_sig)
        ++ to_le_bytes 4 input.sequence
      ≡ hasher ++ encode_input input
input-encoding hasher input = simp append_assoc

module _ ⦃c : Crypto⦄ ⦃e : Environment⦄ ⦃i : IsTape e⦄ where
  pub Reads-input :
      (require_input : Option (Bytes × ℕ)) (k : ℕ) (s : Bytes × Bool) (input : TxIn)
      → IsTxIn input
      → Reads
          (read_input require_input k s)
          (input_items input)
          (input_step require_input k s input)
  unfolding read_input input_items
  Reads-input require_input k (hasher, satisfied) input h =
      let script = input.script_sig in
      let before = (hasher ++ input.txid) ++ to_le_bytes 4 input.vout in
      rw
        (
          ← input-encoding hasher input,
          ← satisfied_or satisfied (meets_input require_input input.txid input.vout),
        )
        (Reads-bind e.read_32bytes _ (bytes32 input.txid ∷ []) _ input.txid _
          (Reads-32bytes input.txid h.txid_hash)
          (Reads-bind e.read_u32 _ (u32 input.vout ∷ []) _ input.vout _
            (Reads-u32 input.vout h.vout_u32)
            (Reads-bind e.read_u32 _ (u32 input.sequence ∷ []) _ input.sequence _
              (Reads-u32 input.sequence h.sequence_u32)
              (Reads-bind e.read_u32 _ (u32 (length script) ∷ []) _ (length script) _
                (Reads-u32 (length script) h.script_sig_len)
                (rw (update_hasher_with_varint_lem before (length script) h.script_sig_len) (
                  Reads-then-pure
                    (read_chunks_and_update_hasher (before ++ compact_size (length script))
                      (length script))
                    (chunk_items script)
                    (λ t. (
                      t ++ to_le_bytes 4 input.sequence,
                      if not satisfied && meets_input require_input input.txid input.vout
                          then true
                          else satisfied,
                    ))
                    ((before ++ compact_size (length script)) ++ script)
                    (read_chunks_lem script (before ++ compact_size (length script))
                      h.script_sig_bytes)))))))

  pub Writes-input : (input : TxIn) → IsTxIn input → Writes (write_input input) (input_items input)
  unfolding write_input input_items
  Writes-input input h =
      let same : length input.script_sig % 2 ^ 32 ≡ length input.script_sig =
        omega (arith, h.script_sig_len) in
      rw same (
        Writes-then (e.write_32bytes input.txid) _ (bytes32 input.txid ∷ []) _
          (Writes-32bytes input.txid)
          (Writes-then (e.write_u32 input.vout) _ (u32 input.vout ∷ []) _ (Writes-u32 input.vout) (
            Writes-then (e.write_u32 input.sequence) _ (u32 input.sequence ∷ []) _
              (Writes-u32 input.sequence)
              (Writes-then (e.write_u32 (length input.script_sig)) _
                (u32 (length input.script_sig) ∷ []) _ (Writes-u32 (length input.script_sig))
                (write_chunks_lem input.script_sig h.script_sig_len)))))
