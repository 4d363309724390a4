-- ===== src/Tests/Operator.antt =====
-- A connector tree from a counter, and the periods at one height.
use clementine_citeria.Common.{ℕ, suc, ◌≡◌, ◌⊎◌, inl, refl, arith, List, [], ◌∷◌, some, none}
use clementine_citeria.Common.Bytes.{Bytes}
use clementine_citeria.Common.Words.{to_le_bytes, length-to_le_bytes, to_le_bytes-IsByte}
use clementine_citeria.Merkle.Levels.{node}
use clementine_citeria.Claim.{claim_leaves, calculate_claim_proof_root}
use clementine_citeria.Database.{
  DatabaseContent, empty_content, IoError, ok, Dbms, content_of, ◌>>=◌, read,
  get_start_block_height, get_period_relative_block_heights,
}
use clementine_citeria.Database.Laws.{Stored}
use clementine_citeria.Operator.{
  Rng, create_connector_tree_preimages_and_hashes, reveal_period_from,
  get_current_withdrawal_period, get_current_preimage_reveal_period,
}
use clementine_citeria.Operator.Periods.{reveal_period-withdrawal_period}
use clementine_citeria.Operator.Trees.{create_connector_tree-claim_root}
use clementine_citeria.Tests.Toy.{toy}

instance abbrev counter : Rng
counter = record {
  Seed = ℕ;
  gen = λ n. (to_le_bytes 32 n, suc n);
  gen_32 = λ n. (length-to_le_bytes 32 n, to_le_bytes-IsByte 32 n);
}

create_connector_tree-claim_root_example :
    (leaves : List Bytes) × (claim_leaves 4 0 2 (create_connector_tree_preimages_and_hashes 2 7).1
      ≡ some leaves)
    × (calculate_claim_proof_root 2 (create_connector_tree_preimages_and_hashes 2 7).1
        ≡ some (node 2 0 0 leaves))
create_connector_tree-claim_root_example = create_connector_tree-claim_root 2 7 (omega arith)

instance abbrev memory : Dbms
memory = record {
  Disk = DatabaseContent ⊎ IoError;
  read_disk = λ s. s;
  write_disk = λ c s. (none, inl c);
}

abbrev started : DatabaseContent
started = record empty_content {
  start_block_height = 100;
  period_relative_block_heights = 10 ∷ 20 ∷ 30 ∷ [];
}

started-Stored : Stored (inl started) started
unfolding content_of
started-Stored = refl

reveal_at_118 : get_current_preimage_reveal_period 118 (inl started) ≡ (ok (some 1), inl started)
unfolding get_current_preimage_reveal_period reveal_period_from get_start_block_height
    get_period_relative_block_heights ◌>>=◌ read content_of
reveal_at_118 = refl

reveal_period-withdrawal_period_example :
    get_current_withdrawal_period 118 (inl started) ≡ (ok (some 2), inl started)
reveal_period-withdrawal_period_example =
    reveal_period-withdrawal_period (inl started) started 118 1 started-Stored (omega arith)
      reveal_at_118
