-- ===== src/Tests/Wire.antt =====
-- Transactions and Merkle proofs through the mock environment.
use clementine_citeria.Common.{
  ℕ, ◌≡◌, ◌⊎◌, refl, arith, List, [], ◌∷◌, ◌++◌, Option, some, none, get_or, All, true, false, ◌≢◌,
  replicate, ◌||◌,
}
use clementine_citeria.Common.Bytes.{Bytes, IsHash, bytes_eq, bytes_eq_refl}
use clementine_citeria.Hash.{hash_pair, hash_pair-IsHash}
use clementine_citeria.Env.{◌>>=◌, for_each}
use clementine_citeria.Env.Tape.{Item, bytes32, u32, u64, i32}
use clementine_citeria.Env.Mock.{MockData, mock_environment, output_env, reset_mock_env}
use clementine_citeria.Env.Mock.Laws.{mock_tape, write_item, read_items, output_env-written}
use clementine_citeria.Bitcoin.{Transaction, IsTransaction}
use clementine_citeria.Merkle.Levels.{node, empty_data}
use clementine_citeria.Merkle.Tree.Paths.{climb, FirstAt, here, later, siblings_above}
use clementine_citeria.Circuit.Transaction.{
  read_tx_and_calculate_txid, meets_input, meets_output, is_none,
}
use clementine_citeria.Circuit.MerkleProof.{read_merkle_tree_proof}
use clementine_citeria.Circuit.MerkleProof.Wire.{sibling_items, read_merkle_tree_proof-climb}
use clementine_citeria.Circuit.MerkleProof.Binding.{way, Collision, read_merkle_tree_proof_sound}
use clementine_citeria.Writer.{write_tx_to_env, write_output, write_merkle_tree_proof, is_taproot}
use clementine_citeria.Writer.Transactions.{tx_items, read_tx-write_tx, write_output-ambiguous}
use clementine_citeria.Writer.Transactions.Outputs.{HasScript, some_output, pays}
use clementine_citeria.Writer.Transactions.Inputs.{some_input}
use clementine_citeria.Writer.Proofs.{read_proof-write_proof}
use clementine_citeria.Tests.Toy.{toy, toy_bitcoin, hash_of}
use clementine_citeria.Tests.Merkle.{three, three-IsHash, three_tree, three_tree-Built}

abbrev items : List Item
items = u32 7 ∷ bytes32 (hash_of 3) ∷ u64 9 ∷ i32 2 ∷ []

-- A state that is not empty.
abbrev used : MockData
used = record { global_data = 5 ∷ []; global_data_types = 9 ∷ []; read_position = 1 }

output_env-written_example :
    (s : MockData) × (s' : MockData) × (for_each
        (items ++ u32 8 ∷ [])
        write_item
        (reset_mock_env used)
      ≡ some (tt, s))
    × (read_items items s ≡ some (items, s'))
    × (output_env s ≡ some (items ++ u32 8 ∷ []))
    × (output_env s' ≡ some (items ++ u32 8 ∷ []))
output_env-written_example = output_env-written used items (u32 8 ∷ []) (omega arith) (omega arith)

-- One input with a short script, a taproot output and one that is not.
abbrev payment : Transaction
payment = record {
  version = 2;
  lock_time = 0;
  input =
      record { txid = hash_of 5; vout = 1; script_sig = 7 ∷ 8 ∷ []; sequence = 4294967295 } ∷ [];
  output =
      record { value = 100_000_000; script_pubkey = 81 ∷ 32 ∷ hash_of 9 }
      ∷ record { value = 1; script_pubkey = 0 ∷ 1 ∷ replicate 40 6 }
      ∷ [];
}

payment-IsTransaction : IsTransaction payment
payment-IsTransaction = record {
  version_i32 = omega arith;
  lock_time_u32 = omega arith;
  input_len = omega arith;
  output_len = omega arith;
  inputs = (
    record {
      txid_hash = omega arith;
      vout_u32 = omega arith;
      script_sig_bytes = omega arith;
      script_sig_len = omega arith;
      sequence_u32 = omega arith;
    },
    tt,
  );
  outputs = (
    record {
      value_u64 = omega arith;
      script_pubkey_bytes = omega arith;
      script_pubkey_len = omega arith;
    },
    (
      record {
        value_u64 = omega arith;
        script_pubkey_bytes = omega arith;
        script_pubkey_len = omega arith;
      },
      tt,
    ),
  );
}

payment-HasScript : All HasScript payment.output
payment-HasScript = (
  record { bounds = payment-IsTransaction.outputs.0; some_script = omega arith },
  (record { bounds = payment-IsTransaction.outputs.1.0; some_script = omega arith }, tt),
)

payment-spends :
    (is_none {A = Bytes × ℕ} (some (hash_of 5, 1))
      || some_input (some (hash_of 5, 1)) payment.input)
    ≡ true
unfolding some_input meets_input bytes_eq
payment-spends = refl

payment-pays :
    (is_none {A = Option ℕ × Bytes} (some (some 100_000_000, hash_of 9))
      || some_output (some (some 100_000_000, hash_of 9)) payment.output)
    ≡ true
unfolding some_output pays is_taproot meets_output bytes_eq
payment-pays = refl

read_tx-write_tx_example :
    (write_tx_to_env payment >>= λ _.
    read_tx_and_calculate_txid (some (hash_of 5, 1)) (some (some 100_000_000, hash_of 9)))
      (mock_tape.tape [] [])
    ≡ some (toy_bitcoin.txid payment, mock_tape.tape (tx_items payment) [])
read_tx-write_tx_example =
    read_tx-write_tx payment (some (hash_of 5, 1)) (some (some 100_000_000, hash_of 9)) []
      payment-IsTransaction payment-HasScript payment-spends payment-pays

write_output-ambiguous_example :
    (write_output (record { value = 5; script_pubkey = [] }) >>= λ _.
    mock_environment.write_32bytes (hash_of 4))
      (mock_tape.tape [] [])
    ≡ write_output
        (record { value = 5; script_pubkey = 81 ∷ 32 ∷ hash_of 4 })
        (mock_tape.tape [] [])
write_output-ambiguous_example =
    write_output-ambiguous 5 (hash_of 4) [] [] (omega arith) (omega arith)

different : (a b : Bytes) → bytes_eq a b ≡ false → a ≢ b
different a b h e = cc (bytes_eq_refl a)

third : FirstAt (hash_of 3) three 2
third =
    later (different (hash_of 1) (hash_of 3) (unfold bytes_eq in refl))
      (later (different (hash_of 2) (hash_of 3) (unfold bytes_eq in refl)) here)

read_proof-write_proof_example :
    (write_merkle_tree_proof 2 (hash_of 3) none three_tree >>= λ _.
    read_merkle_tree_proof 2 (hash_of 3) none)
      (mock_tape.tape [] [])
    ≡ some
        (node 2 0 0 three, mock_tape.tape (u32 2 ∷ sibling_items (siblings_above 2 0 three 2)) [])
read_proof-write_proof_example =
    read_proof-write_proof 2 three_tree three (hash_of 3) 2 [] three_tree-Built three-IsHash third
      (omega arith) (omega arith)

-- A tree whose leaf 2 is followed by the value 4, and whose first half has any hash.
abbrev four : List Bytes
four = hash_of 1 ∷ hash_of 2 ∷ hash_of 3 ∷ hash_of 4 ∷ []

abbrev four_siblings : List Bytes
four_siblings = hash_of 4 ∷ hash_pair (hash_of 1) (hash_of 2) ∷ []

four_siblings-IsHash : All IsHash four_siblings
four_siblings-IsHash = (omega arith, (hash_pair-IsHash (hash_of 1) (hash_of 2), tt))

climb-four_siblings : climb four_siblings 2 (hash_of 3) ≡ node 2 0 0 four
unfolding climb node
climb-four_siblings = refl

four_run :
    read_merkle_tree_proof 2
      (hash_of 3)
      none
      (mock_tape.tape [] ((u32 2 ∷ sibling_items four_siblings) ++ []))
    ≡ some (node 2 0 0 four, mock_tape.tape (u32 2 ∷ sibling_items four_siblings) [])
four_run = rw climb-four_siblings at (
    (read_merkle_tree_proof-climb four_siblings (hash_of 3) none 2 four_siblings-IsHash
        (omega arith)).run
      [] [])

read_merkle_tree_proof_sound_example :
    (hash_of 3 ≡ get_or four 2 empty_data)
    ⊎ Collision
        (way four_siblings 2 (hash_of 3))
        (way (siblings_above 2 0 four 2) 2 (get_or four 2 empty_data))
read_merkle_tree_proof_sound_example =
    read_merkle_tree_proof_sound four_siblings four (hash_of 3) none 2 [] []
      (mock_tape.tape (u32 2 ∷ sibling_items four_siblings) []) (omega arith) four_siblings-IsHash
      (omega arith) (omega arith) (omega arith) four_run
