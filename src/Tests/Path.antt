-- ===== src/Tests/Path.antt =====
-- The path of the third of three transactions, which has no sibling.
use clementine_citeria.Common.{
  ◌+◌, ◌-◌, ◌%◌, ◌^◌, ◌≡◌, refl, inr, arith, List, [], ◌∷◌, ◌++◌, map, Option, some, none, length,
  replicate,
}
use clementine_citeria.Common.Bytes.{Bytes}
use clementine_citeria.Env.Mock.{MockData, mock_environment}
use clementine_citeria.Env.Mock.Laws.{mock_tape}
use clementine_citeria.Circuit.MerkleProof.{read_and_verify_bitcoin_merkle_path}
use clementine_citeria.Writer.MerklePath.{MerkleBlock, log2_within, ilog2, reverse}
use clementine_citeria.Writer.MerklePath.Order.{flatten}
use clementine_citeria.Writer.MerklePath.Filled.{block_root}
use clementine_citeria.Writer.MerklePath.Wire.{write_bitcoin_merkle_path, read_path-write_path}
use clementine_citeria.Tests.Toy.{toy, hash_of}

abbrev third_of_three : MerkleBlock
third_of_three = record {
  extract_matches = some (hash_of 3 ∷ [], 2 ∷ []);
  num_transactions = 3;
  hashes = hash_of 12 ∷ hash_of 3 ∷ [];
}

abbrev path_siblings : List (Option Bytes)
path_siblings = none ∷ some (hash_of 12) ∷ []

log_of_two : ilog2 ((third_of_three.num_transactions + 2 ^ 32 - 1) % 2 ^ 32) ≡ some 1
unfolding log2_within
log_of_two = refl

third_in_order :
    map some third_of_three.hashes ++ replicate (1 + 1 + 1 - length third_of_three.hashes) none
    ≡ flatten (reverse path_siblings) 2 (some (hash_of 3))
unfolding flatten reverse
third_in_order = refl

read_path-write_path_example :
    (s s' : MockData) × (write_bitcoin_merkle_path third_of_three (mock_tape.tape [] [])
      ≡ some (inr tt, s))
    × (read_and_verify_bitcoin_merkle_path (hash_of 3) s
        ≡ some (block_root 2 (hash_of 3) path_siblings, s'))
read_path-write_path_example =
    read_path-write_path third_of_three (hash_of 3) 2 1 path_siblings [] refl log_of_two refl
      (omega arith) (omega arith) third_in_order (omega arith) (omega arith) (omega arith)
