-- ===== src/Tests/Withdrawals.antt =====
-- Withdrawals while a period is open, and after the last.
use clementine_citeria.Common.{
  ℕ, suc, ◌≡◌, refl, [], ◌∷◌, ◌++◌, some, none, inl, drop, get_or, arith,
}
use clementine_citeria.Common.Bytes.{Bytes}
use clementine_citeria.Merkle.Tree.{MerkleTree}
use clementine_citeria.Merkle.Tree.Build
use clementine_citeria.Database
use clementine_citeria.Database.{
  DatabaseContent, OutPoint, empty_content, content_of, get_withdrawals_payment_for_period,
}
use clementine_citeria.Database.Laws.{Stored}
use clementine_citeria.Database.Periods.{entry_after}
use clementine_citeria.Errors.{ok, err, invalid_period, withdrawal_period_mismatch}
use clementine_citeria.Errors.Binds
use clementine_citeria.Rpc.{get_transaction, send_to_address, call}
use clementine_citeria.Operator.{withdrawal_period_from}
use clementine_citeria.Operator.State.{World}
use clementine_citeria.Operator.Payments.{new_withdrawal}
use clementine_citeria.Operator.Payments.Withdrawals.{new_withdrawal-recorded, new_withdrawal-late}
use clementine_citeria.Tests.Toy.{hash_of}
use clementine_citeria.Tests.Database.{memory, memory_works}
use clementine_citeria.Tests.Host.{flat, flat_bitcoin, one_deposit}

-- One period of 50 blocks from the height 100 on.
abbrev content : DatabaseContent
content = record empty_content { start_block_height = 100; period_relative_block_heights = 50 ∷ [] }

abbrev world : ℕ → World
world node = record {
  disk = inl content;
  deposit_take_sigs = [];
  connector_tree_preimages = [];
  node = node;
}

abbrev address : Bytes
address = 81 ∷ 32 ∷ hash_of 4

content-Stored : Stored (inl content) content
unfolding content_of
content-Stored = refl

empty-Built : Build.Built 32 content.withdrawals_merkle_tree []
unfolding empty_content
empty-Built = Build.Built-new 32

paid_at : (node : ℕ) → send_to_address address 100_000_000 node ≡ (ok (hash_of 7, 0), suc node)
unfolding send_to_address call get_transaction Binds.◌>>=◌
paid_at node = refl

open_at_111 :
    withdrawal_period_from 0 111 content.start_block_height content.period_relative_block_heights
    ≡ some 0
unfolding withdrawal_period_from
open_at_111 = refl

closed_at_151 :
    withdrawal_period_from 0 151 content.start_block_height content.period_relative_block_heights
    ≡ none
unfolding withdrawal_period_from
closed_at_151 = refl

new_withdrawal-recorded_example :
    (s : memory.Disk) × (new_withdrawal address (world 110)
      ≡ (ok tt, record (world 110) { disk = s; node = 111 }))
    × ((q : ℕ)
        → get_withdrawals_payment_for_period q s ≡ (
          elim (entry_after 0
              (get_or content.withdrawals_payment_txids 0 [] ++ (hash_of 7, drop 2 address) ∷ [])
              content.withdrawals_payment_txids
              q) [ some payments ↦ Database.ok payments | none ↦ Database.panic ],
          s,
        ))
new_withdrawal-recorded_example =
    new_withdrawal-recorded (world 110) content [] address (hash_of 7, 0) 111 111 0 content-Stored
      empty-Built (omega arith) refl (paid_at 110) refl open_at_111

new_withdrawal-late_example :
    (s : memory.Disk) × (tree : MerkleTree) × (new_withdrawal address (world 150) ≡ (
      err (invalid_period withdrawal_period_mismatch),
      record (world 150) { disk = s; node = 151 },
    ))
    × Stored s (record content { withdrawals_merkle_tree = tree })
    × Build.Built 32 tree ([] ++ drop 2 address ∷ [])
new_withdrawal-late_example =
    new_withdrawal-late (world 150) content [] address (hash_of 7, 0) 151 151 content-Stored
      empty-Built (omega arith) refl (paid_at 150) refl closed_at_151
