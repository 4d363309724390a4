-- ===== src/Circuit/Commitment.antt =====
-- `read_preimages_and_calculate_commit_taproot` and `calculate_taproot_from_single_script`, from
-- circuits/src/bitcoin.rs.
use clementine_citeria.Common.{
  ℕ, ◌+◌, ◌*◌, ◌%◌, ◌^◌, [], ◌∷◌, ◌++◌, Option, some, drop, ◌>>=◌ as ◌>>=ₒ◌,
}
use clementine_citeria.Common.Bytes.{Bytes}
use clementine_citeria.Hash.{Crypto, sha256_hash}
use clementine_citeria.Env.{Environment, Prog, pure, lift, ◌>>=◌, for_range}
use clementine_citeria.Circuit.Transaction.{update_hasher_with_varint}

abbrev pub internal_key_x_only_bytes : Bytes
internal_key_x_only_bytes =
    147 ∷ 199 ∷ 55 ∷ 141 ∷ 150 ∷ 81 ∷ 138 ∷ 117 ∷ 68 ∷ 136 ∷ 33 ∷ 196 ∷ 247 ∷ 200 ∷ 244 ∷ 186 ∷ 231
    ∷ 206 ∷ 96 ∷ 248 ∷ 4 ∷ 208 ∷ 61 ∷ 31 ∷ 6 ∷ 40 ∷ 221 ∷ 93 ∷ 208 ∷ 245 ∷ 222 ∷ 81 ∷ []

abbrev internal_key_y_only_bytes : Bytes
internal_key_y_only_bytes =
    183 ∷ 230 ∷ 72 ∷ 141 ∷ 245 ∷ 65 ∷ 139 ∷ 76 ∷ 55 ∷ 246 ∷ 18 ∷ 113 ∷ 172 ∷ 165 ∷ 3 ∷ 144 ∷ 103 ∷ 1
    ∷ 56 ∷ 183 ∷ 220 ∷ 79 ∷ 77 ∷ 28 ∷ 43 ∷ 146 ∷ 127 ∷ 196 ∷ 59 ∷ 144 ∷ 15 ∷ 40 ∷ []

-- "TapLeaf" and "TapTweak"
abbrev pub tap_leaf_str : Bytes
tap_leaf_str = b'T' ∷ b'a' ∷ b'p' ∷ b'L' ∷ b'e' ∷ b'a' ∷ b'f' ∷ []

abbrev pub tap_tweak_str : Bytes
tap_tweak_str = b'T' ∷ b'a' ∷ b'p' ∷ b'T' ∷ b'w' ∷ b'e' ∷ b'a' ∷ b'k' ∷ []

module _ ⦃c : Crypto⦄ where
  -- The two `unwrap`s on the key and the scalar panic where `tweak_add` answers `none`. The address
  -- is the compressed point without its first byte.
  unfoldable pub calculate_taproot_from_single_script : Bytes → Option Bytes
  calculate_taproot_from_single_script tap_leaf_hash =
      let internal_key_bytes = 4 ∷ internal_key_x_only_bytes ++ internal_key_y_only_bytes in
      let tap_tweak_tag_hash = sha256_hash tap_tweak_str in
      let tweak_hash = sha256_hash (
        tap_tweak_tag_hash
        ++ (tap_tweak_tag_hash ++ (internal_key_x_only_bytes ++ tap_leaf_hash))) in
      c.tweak_add internal_key_bytes tweak_hash >>=ₒ λ address_bytes. some (drop 1 address_bytes)

module _ ⦃c : Crypto⦄ ⦃e : Environment⦄ where
  -- One round of `for _ in 0..num_preimages`: the two hashers.
  unfoldable pub read_preimage : ℕ → Bytes × Bytes → Prog (Bytes × Bytes)
  read_preimage i (hasher_commit_taproot, hasher_claim_proof_leaf) = do
    preimage ← e.read_32bytes
    pure (
      (hasher_commit_taproot ++ 32 ∷ []) ++ preimage,
      hasher_claim_proof_leaf ++ sha256_hash preimage,
    )

  -- The hasher of the script's leaf before the preimages. `37 + 33 * num_preimages` is a `u32`.
  unfoldable pub commit_hasher : ℕ → Bytes → Bytes
  commit_hasher num_preimages actor_pk_bytes =
      let tap_leaf_tag_hash = sha256_hash tap_leaf_str in
      let script_length = (37 + 33 * num_preimages) % 2 ^ 32 in
      update_hasher_with_varint ((tap_leaf_tag_hash ++ tap_leaf_tag_hash) ++ 192 ∷ []) script_length
      ++ 32 ∷ (actor_pk_bytes ++ 172 ∷ 0 ∷ 99 ∷ [])

  -- The commit address, and the leaf of the claim proof tree.
  unfoldable pub read_preimages_and_calculate_commit_taproot : Prog (Bytes × Bytes)
  read_preimages_and_calculate_commit_taproot = do
    num_preimages ← e.read_u32
    actor_pk_bytes ← e.read_32bytes
    (hasher_commit_taproot, hasher_claim_proof_leaf) ←
        for_range num_preimages 0 read_preimage (commit_hasher num_preimages actor_pk_bytes, [])
    let script_hash = sha256_hash (hasher_commit_taproot ++ 104 ∷ [])
    let claim_proof_leaf = sha256_hash hasher_claim_proof_leaf
    taproot_address ← lift (calculate_taproot_from_single_script script_hash)
    pure (taproot_address, claim_proof_leaf)
