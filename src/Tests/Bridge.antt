-- ===== src/Tests/Bridge.antt =====
-- A run of the whole bridge circuit with one withdrawal, over a hash that is constant: every root is
-- the claim root of the first period.
use clementine_citeria.Common.{
  ℕ, ◌≡◌, refl, arith, List, [], ◌∷◌, ◌++◌, Option, some, none, replicate,
}
use clementine_citeria.Common.Bytes.{Bytes, bytes_eq}
use clementine_citeria.Common.Words.{to_le_bytes, from_le_bytes}
use clementine_citeria.Hash.{Crypto, hash_pair, double_sha256_hash}
use clementine_citeria.Env.{Environment, ◌>>=◌, for_range}
use clementine_citeria.Env.Tape.{Item, bytes32, u32, u64, i32}
use clementine_citeria.Merkle.Levels.{zeroes}
use clementine_citeria.Merkle.Incremental
use clementine_citeria.Merkle.Incremental.{IncrementalMerkleTree}
use clementine_citeria.Circuit.Transaction.{
  update_hasher_with_varint, meets_input, meets_output, read_chunks_and_update_hasher, read_input,
  read_output, read_tx_and_calculate_txid,
}
use clementine_citeria.Circuit.Commitment.{
  calculate_taproot_from_single_script, read_preimage, commit_hasher,
  read_preimages_and_calculate_commit_taproot,
}
use clementine_citeria.Circuit.MerkleProof.{
  proof_round, index_or_read, read_merkle_tree_proof, path_round,
  read_and_verify_bitcoin_merkle_path,
}
use clementine_citeria.Circuit.Blocks.{
  read_header_except_root_and_calculate_blockhash, read_blocks_and_calculate_work,
  read_blocks_and_add_to_merkle_tree,
}
use clementine_citeria.Circuit.Bridge.{
  Challenge, verify_challenge_proof, settle, read_withdrawal_proof, read_and_verify_lc_proof,
  read_and_verify_verifiers_challenge_proof, read_period, read_periods, read_claim, bridge_proof,
}
use clementine_citeria.Circuit.Bridge.Checks.{BridgeChecked, bridge_proof-checks}

abbrev the_root : Bytes
the_root =
    240 ∷ 46 ∷ 113 ∷ 222 ∷ 220 ∷ 199 ∷ 72 ∷ 92 ∷ 215 ∷ 201 ∷ 134 ∷ 161 ∷ 55 ∷ 159 ∷ 164 ∷ 12 ∷ 204
    ∷ 45 ∷ 18 ∷ 104 ∷ 6 ∷ 128 ∷ 245 ∷ 179 ∷ 50 ∷ 80 ∷ 93 ∷ 74 ∷ 246 ∷ 165 ∷ 14 ∷ 118 ∷ []

instance abbrev constant : Crypto
constant = record {
  sha256 = λ m. the_root;
  sha256-IsHash = λ m. omega arith;
  tweak_add = λ key tweak. some (2 ∷ the_root);
}

abbrev next_32bytes : List Item → Option (Bytes × List Item)
next_32bytes (bytes32 b ∷ rest) = some (b, rest)
next_32bytes _ = none

abbrev next_u32 : List Item → Option (ℕ × List Item)
next_u32 (u32 n ∷ rest) = some (n, rest)
next_u32 _ = none

abbrev next_u64 : List Item → Option (ℕ × List Item)
next_u64 (u64 n ∷ rest) = some (n, rest)
next_u64 _ = none

abbrev next_i32 : List Item → Option (ℕ × List Item)
next_i32 (i32 n ∷ rest) = some (n, rest)
next_i32 _ = none

-- An environment whose state is the values to be read.
instance abbrev queue : Environment
queue = record {
  State = List Item;
  read_32bytes = next_32bytes;
  read_u32 = next_u32;
  read_u64 = next_u64;
  read_i32 = next_i32;
  write_32bytes = λ b s. some (tt, s ++ bytes32 b ∷ []);
  write_u32 = λ n s. some (tt, s ++ u32 n ∷ []);
  write_u64 = λ n s. some (tt, s ++ u64 n ∷ []);
  write_i32 = λ n s. some (tt, s ++ i32 n ∷ []);
}

abbrev zeros : Bytes
zeros = replicate 32 0

-- A transaction with one input and one taproot output.
abbrev tx_values : Bytes → ℕ → Bytes → List Item
tx_values spent value key =
    i32 2
    ∷ u32 1
    ∷ u32 1
    ∷ u32 0
    ∷ bytes32 spent
    ∷ u32 0
    ∷ u32 9
    ∷ u32 0
    ∷ u64 value
    ∷ u32 0
    ∷ bytes32 key
    ∷ []

abbrev path_values : List Item
path_values = u32 1 ∷ u32 1 ∷ bytes32 zeros ∷ []

abbrev header_values : List Item
header_values = i32 1 ∷ bytes32 zeros ∷ u32 3 ∷ u32 4 ∷ u32 5 ∷ []

abbrev withdrawal_values : List Item
withdrawal_values =
    bytes32 zeros
    ∷ (tx_values the_root 100_000_000 zeros
        ++ (path_values ++ (header_values ++ u32 6 ∷ replicate 32 (bytes32 zeros))))

abbrev claim_values : List Item
claim_values =
    bytes32 zeros
    ∷ bytes32 the_root
    ∷ u32 1
    ∷ bytes32 zeros
    ∷ bytes32 zeros
    ∷ (tx_values zeros 5 the_root
        ++ (u32 0
            ∷ (tx_values the_root 4 zeros
                ++ (path_values
                    ++ (header_values
                        ++ (u32 6
                            ∷ (replicate 32 (bytes32 zeros) ++ replicate 4 (bytes32 zeros))))))))

abbrev bridge_values : List Item
bridge_values =
    bytes32 zeros
    ∷ u32 0
    ∷ u32 1
    ∷ (withdrawal_values
        ++ (u32 1
            ∷ bytes32 zeros
            ∷ bytes32 zeros
            ∷ bytes32 zeros
            ∷ bytes32 zeros
            ∷ bytes32 zeros
            ∷ bytes32 zeros
            ∷ u32 0
            ∷ u32 0
            ∷ claim_values))

abbrev challenge : Challenge
challenge = record { verifiers_pow = 0; last_finalized_blockhash = zeros; period = 0 }

abbrev new_tree : IncrementalMerkleTree
new_tree = Incremental.new 32

bridge_run : bridge_proof bridge_values ≡ some (challenge, [])
unfolding bridge_proof read_periods read_period read_blocks_and_add_to_merkle_tree
    read_and_verify_verifiers_challenge_proof verify_challenge_proof read_blocks_and_calculate_work
    settle read_claim read_and_verify_lc_proof read_preimages_and_calculate_commit_taproot
    read_preimage commit_hasher calculate_taproot_from_single_script Incremental.new Incremental.add
    Incremental.add_levels zeroes from_le_bytes to_le_bytes read_withdrawal_proof ◌>>=◌ for_range
    read_tx_and_calculate_txid read_input read_output read_chunks_and_update_hasher
    update_hasher_with_varint meets_input meets_output bytes_eq double_sha256_hash
    read_and_verify_bitcoin_merkle_path path_round read_header_except_root_and_calculate_blockhash
    read_merkle_tree_proof index_or_read proof_round hash_pair
bridge_run = refl

bridge_proof-checks_example : BridgeChecked challenge bridge_values
bridge_proof-checks_example = bridge_proof-checks challenge bridge_values [] bridge_run
