-- ===== src/Constants.antt =====
-- core/src/constants.rs.
use clementine_citeria.Common.{ℕ}
use clementine_citeria.Circuit.Constants.{claim_merkle_tree_depth}

abbrev pub num_verifiers : ℕ
num_verifiers = 4

abbrev pub connector_tree_operator_takes_after : ℕ
connector_tree_operator_takes_after = 1

abbrev pub connector_tree_depth : ℕ
connector_tree_depth = claim_merkle_tree_depth

abbrev pub dust_value : ℕ
dust_value = 1000

abbrev pub min_relay_fee : ℕ
min_relay_fee = 500

abbrev pub period_block_count : ℕ
period_block_count = 50

abbrev pub user_takes_after : ℕ
user_takes_after = 200

abbrev pub confirmation_block_count : ℕ
confirmation_block_count = 6

abbrev pub k_deep : ℕ
k_deep = 3

abbrev pub max_bitvm_challenge_response_blocks : ℕ
max_bitvm_challenge_response_blocks = 5
