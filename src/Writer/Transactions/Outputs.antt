-- ===== src/Writer/Transactions/Outputs.antt =====
-- The outputs of a transaction, and the encoding of lengths.
use clementine_citeria.Common.{
  ℕ, suc, ◌%◌, ◌^◌, ◌<◌, ◌≡◌, refl, ◌∙◌, arith, List, [], ◌∷◌, ◌++◌, append_assoc, append-nil,
  length, take, take-all, drop, ltb, leb, ◌==◌, if◌then◌else◌, All, Bool, true, false, ◌||◌,
  Bool-cases, Option, inl, inr,
}
use clementine_citeria.Common.Bytes.{Bytes, IsByte, IsHash}
use clementine_citeria.Common.Words.{to_le_bytes}
use clementine_citeria.Hash.{Crypto}
use clementine_citeria.Env.{Environment}
use clementine_citeria.Env.Tape.{
  Item, bytes32, u32, u64, IsTape, Reads, Writes, Reads-pure, Reads-bind, Reads-32bytes, Reads-u32,
  Reads-u64, Reads-then-pure, Writes-then, Writes-32bytes, Writes-u32, Writes-u64, steps,
}
use clementine_citeria.Bitcoin.{TxOut, IsTxOut, compact_size, encode_output, encode_list}
use clementine_citeria.Circuit.Transaction.{
  update_hasher_with_varint, read_chunks_and_update_hasher, read_output, meets_output,
}
use clementine_citeria.Writer.{write_output, is_taproot}
use clementine_citeria.Writer.Chunks.{chunk_items, read_chunks_lem, write_chunks_lem}

-- The circuit's variable-length integer is Bitcoin's compact size, for a `u32`.
pub update_hasher_with_varint_lem :
    (hasher : Bytes) (integer : ℕ)
    → integer < 2 ^ 32
    → update_hasher_with_varint hasher integer ≡ hasher ++ compact_size integer
unfolding update_hasher_with_varint
update_hasher_with_varint_lem hasher integer h =
    let wide : leb integer 0xffffffff ≡ true = ground arith in
    rw wide (go (ltb integer 0xfd) (leb integer 0xffff))
  where
    go :
        (b b' : Bool)
        → (if b
            then hasher ++ to_le_bytes 1 integer
            else if b'
            then (hasher ++ 0xfd ∷ []) ++ to_le_bytes 2 integer
            else (hasher ++ 0xfe ∷ []) ++ to_le_bytes 4 integer)
          ≡ hasher
            ++ (if b
                then to_le_bytes 1 integer
                else if b'
                then 0xfd ∷ to_le_bytes 2 integer
                else 0xfe ∷ to_le_bytes 4 integer)
    go true b' = refl
    go false true = append_assoc hasher (0xfd ∷ []) (to_le_bytes 2 integer)
    go false false = append_assoc hasher (0xfe ∷ []) (to_le_bytes 4 integer)

-- The key of a taproot output.
abbrev pub taproot_key : Bytes → Bytes
taproot_key script = take 32 (drop 2 script)

unfoldable pub output_items : TxOut → List Item
output_items output =
    u64 output.value
    ∷ (if is_taproot output.script_pubkey
        then u32 0 ∷ bytes32 (taproot_key output.script_pubkey) ∷ []
        else u32 (length output.script_pubkey) ∷ chunk_items output.script_pubkey)

-- Whether an output pays what is required: only a taproot output can.
unfoldable pub pays : Option (Option ℕ × Bytes) → TxOut → Bool
pays require_output output =
    if is_taproot output.script_pubkey
    then meets_output require_output output.value (taproot_key output.script_pubkey)
    else false

abbrev pub output_step : Option (Option ℕ × Bytes) → ℕ → Bytes × Bool → TxOut → Bytes × Bool
output_step require_output k (hasher, satisfied) output =
    (hasher ++ encode_output output, satisfied || pays require_output output)

unfoldable pub some_output : Option (Option ℕ × Bytes) → List TxOut → Bool
some_output require_output [] = false
some_output require_output (output ∷ rest) =
    pays require_output output || some_output require_output rest

pub or_assoc : (a b d : Bool) → ((a || b) || d) ≡ (a || (b || d))
or_assoc true b d = refl
or_assoc false b d = refl

pub or_false : (a : Bool) → (a || false) ≡ a
or_false true = refl
or_false false = refl

pub steps-outputs :
    (require_output : Option (Option ℕ × Bytes)) (k : ℕ) (hasher : Bytes) (satisfied : Bool)
    (outputs : List TxOut)
    → steps (output_step require_output) k (hasher, satisfied) outputs ≡ (
      hasher ++ encode_list encode_output outputs,
      satisfied || some_output require_output outputs,
    )
unfolding some_output
steps-outputs require_output k hasher satisfied [] = rw (append-nil, or_false)
steps-outputs require_output k hasher satisfied (output ∷ rest) =
    steps-outputs require_output (suc k) (hasher ++ encode_output output)
      (satisfied || pays require_output output) rest
    ∙ rw (
      append_assoc hasher (encode_output output) (encode_list encode_output rest),
      or_assoc satisfied (pays require_output output) (some_output require_output rest),
    )

-- A script that is not empty: an empty one is written with the flag 0 of a taproot output.
pub record HasScript (o : TxOut) : Type 0 where
  pub bounds : IsTxOut o
  pub some_script : 0 < length o.script_pubkey

-- A taproot script is its two first bytes and its key.
taproot-script :
    (script : Bytes)
    → All IsByte script
    → is_taproot script ≡ true
    → (script ≡ 81 ∷ 32 ∷ taproot_key script) × IsHash (taproot_key script) × (length script ≡ 34)
unfolding is_taproot
taproot-script [] h t = cc
taproot-script (a ∷ []) h t = cc
taproot-script (a ∷ b ∷ key) (ha, (hb, h)) t =
    let len : length key ≡ 32 = ground arith in
    let ea : a ≡ 81 = ground arith in
    let eb : b ≡ 32 = ground arith in
    rw (ea, eb, take-all 32 key len) (refl, (len, h), omega (arith, len))

satisfied_or : (satisfied m : Bool) → (if m then true else satisfied) ≡ (satisfied || m)
satisfied_or true true = refl
satisfied_or true false = refl
satisfied_or false true = refl
satisfied_or false false = refl

-- The circuit's bytes of a taproot output are its encoding.
taproot-encoding :
    (hasher : Bytes) (output : TxOut)
    → All IsByte output.script_pubkey
    → is_taproot output.script_pubkey ≡ true
    → ((hasher ++ to_le_bytes 8 output.value) ++ 34 ∷ 81 ∷ 32 ∷ [])
        ++ taproot_key output.script_pubkey
      ≡ hasher ++ encode_output output
unfolding to_le_bytes
taproot-encoding hasher output h t =
    let (script, hash, len) = taproot-script output.script_pubkey h t in
    append_assoc (hasher ++ to_le_bytes 8 output.value) (34 ∷ 81 ∷ 32 ∷ [])
      (taproot_key output.script_pubkey)
    ∙ (append_assoc hasher (to_le_bytes 8 output.value)
          (34 ∷ 81 ∷ 32 ∷ taproot_key output.script_pubkey)
        ∙ rw (len, ← script) refl)

module _ ⦃c : Crypto⦄ ⦃e : Environment⦄ ⦃i : IsTape e⦄ where
  Reads-taproot :
      (require_output : Option (Option ℕ × Bytes)) (k : ℕ) (hasher : Bytes) (satisfied : Bool)
      (output : TxOut)
      → HasScript output
      → is_taproot output.script_pubkey ≡ true
      → Reads
          (read_output require_output k (hasher, satisfied))
          (u64 output.value ∷ u32 0 ∷ bytes32 (taproot_key output.script_pubkey) ∷ [])
          (
            hasher ++ encode_output output,
            satisfied
                || meets_output require_output output.value (taproot_key output.script_pubkey),
          )
  unfolding read_output
  Reads-taproot require_output k hasher satisfied output h taproot =
      let key = taproot_key output.script_pubkey in
      let (script, hash, len) =
        taproot-script output.script_pubkey h.bounds.script_pubkey_bytes taproot in
      rw
        (
          ← satisfied_or satisfied (meets_output require_output output.value key),
          ← taproot-encoding hasher output h.bounds.script_pubkey_bytes taproot,
        )
        (Reads-bind e.read_u64 _ (u64 output.value ∷ []) _ output.value _
          (Reads-u64 output.value h.bounds.value_u64)
          (Reads-bind e.read_u32 _ (u32 0 ∷ []) _ 0 _ (Reads-u32 0 (omega arith)) (
            Reads-bind e.read_32bytes _ (bytes32 key ∷ []) [] key _ (Reads-32bytes key hash)
              (Reads-pure _))))

  Reads-script :
      (require_output : Option (Option ℕ × Bytes)) (k : ℕ) (hasher : Bytes) (satisfied : Bool)
      (output : TxOut)
      → HasScript output
      → Reads
          (read_output require_output k (hasher, satisfied))
          (u64 output.value ∷ u32 (length output.script_pubkey) ∷ chunk_items output.script_pubkey)
          (hasher ++ encode_output output, satisfied)
  unfolding read_output
  Reads-script require_output k hasher satisfied output h =
      let script = output.script_pubkey in
      let before = hasher ++ to_le_bytes 8 output.value in
      let flag : (length script == 0) ≡ false = ground arith in
      let size = update_hasher_with_varint_lem before (length script) h.bounds.script_pubkey_len in
      let joined =
        append_assoc before (compact_size (length script)) script
        ∙ append_assoc hasher (to_le_bytes 8 output.value)
            (compact_size (length script) ++ script) in
      rw (← joined) (
        Reads-bind e.read_u64 _ (u64 output.value ∷ []) _ output.value _
          (Reads-u64 output.value h.bounds.value_u64)
          (Reads-bind e.read_u32 _ (u32 (length script) ∷ []) _ (length script) _
            (Reads-u32 (length script) h.bounds.script_pubkey_len)
            (rw (flag, size)
              (Reads-then-pure
                (read_chunks_and_update_hasher (before ++ compact_size (length script))
                  (length script))
                (chunk_items script) (λ t. (t, satisfied))
                ((before ++ compact_size (length script)) ++ script)
                (read_chunks_lem script (before ++ compact_size (length script))
                  h.bounds.script_pubkey_bytes)))))

  pub Reads-output :
      (require_output : Option (Option ℕ × Bytes)) (k : ℕ) (s : Bytes × Bool) (output : TxOut)
      → HasScript output
      → Reads
          (read_output require_output k s)
          (output_items output)
          (output_step require_output k s output)
  unfolding read_output output_items pays
  Reads-output require_output k (hasher, satisfied) output h =
      elim (Bool-cases (is_taproot output.script_pubkey)) [
        | inl taproot ↦
            rw (taproot) (Reads-taproot require_output k hasher satisfied output h taproot)
        | inr other ↦ rw (other, or_false) (Reads-script require_output k hasher satisfied output h)
      ]

  pub Writes-output :
      (output : TxOut) → IsTxOut output → Writes (write_output output) (output_items output)
  unfolding write_output output_items
  Writes-output output h = elim (Bool-cases (is_taproot output.script_pubkey)) [
    | inl taproot ↦ rw taproot (
        Writes-then (e.write_u64 output.value) _ (u64 output.value ∷ []) _ (Writes-u64 output.value)
          (Writes-then (e.write_u32 0) _ (u32 0 ∷ []) _ (Writes-u32 0) (Writes-32bytes _)))
    | inr other ↦
        let same : length output.script_pubkey % 2 ^ 32 ≡ length output.script_pubkey =
          omega (arith, h.script_pubkey_len) in
        rw (other, same)
          (Writes-then (e.write_u64 output.value) _ (u64 output.value ∷ []) _
            (Writes-u64 output.value)
            (Writes-then (e.write_u32 (length output.script_pubkey)) _
              (u32 (length output.script_pubkey) ∷ []) _ (Writes-u32 (length output.script_pubkey))
              (write_chunks_lem output.script_pubkey h.script_pubkey_len)))
  ]
