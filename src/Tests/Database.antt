-- ===== src/Tests/Database.antt =====
-- The database on a disk that is a content or an error.
use clementine_citeria.Common.{
  ℕ, ◌≡◌, ◌⊎◌, inl, inr, refl, arith, List, [], ◌∷◌, ◌++◌, some, none, get_or,
}
use clementine_citeria.Common.Bytes.{Bytes}
use clementine_citeria.Merkle.Tree.{MerkleTree}
use clementine_citeria.Merkle.Tree.Build
use clementine_citeria.Database.{
  OutPoint, InscriptionTxs, WithdrawalPayment, DatabaseContent, empty_content, IoError, not_found,
  other_io, io, period_could_not_be_found, ok, err, panic, Dbms, content_of,
  get_connector_tree_hash, get_claim_proof_merkle_tree, get_inscription_txs,
  get_inscription_txs_len, get_connector_tree_utxo, get_start_block_height,
  get_period_relative_block_heights, set_connector_tree_hashes, set_claim_proof_merkle_trees,
  add_to_inscription_txs, set_connector_tree_utxos, set_start_block_height,
  set_period_relative_block_heights, add_to_withdrawals_payment_txids,
  get_withdrawals_payment_for_period, add_inscribed_preimages, get_inscribed_preimages,
  add_to_withdrawals_merkle_tree, get_withdrawals_merkle_tree_index,
}
use clementine_citeria.Database.Laws.{WorkingDisk, Stored}
use clementine_citeria.Database.Periods.{
  entry_after, get_payments-add_payment, get_preimages-add_preimages,
}
use clementine_citeria.Database.Errors.{index-add_to_withdrawals, unreadable-error}
use clementine_citeria.Tests.Toy.{toy, hash_of}

instance abbrev pub memory : Dbms
memory = record {
  Disk = DatabaseContent ⊎ IoError;
  read_disk = λ s. s;
  write_disk = λ c s. (none, inl c);
}

instance abbrev pub memory_works : WorkingDisk memory
memory_works = record { write_then_read = λ c s. (inl c, refl, refl) }

-- No file yet.
abbrev pub fresh : DatabaseContent ⊎ IoError
fresh = inr not_found

pub fresh-Stored : Stored fresh empty_content
unfolding content_of
fresh-Stored = refl

get_payments-add_payment_example :
    (s' : memory.Disk) × (add_to_withdrawals_payment_txids 2 (hash_of 1, hash_of 2) fresh
      ≡ (ok tt, s'))
    × ((q : ℕ)
        → get_withdrawals_payment_for_period q s' ≡ (
          elim (entry_after 2
              (get_or empty_content.withdrawals_payment_txids 2 [] ++ (hash_of 1, hash_of 2) ∷ [])
              empty_content.withdrawals_payment_txids
              q) [ some payments ↦ ok payments | none ↦ panic ],
          s',
        ))
get_payments-add_payment_example =
    get_payments-add_payment fresh empty_content 2 (hash_of 1, hash_of 2) fresh-Stored

get_preimages-add_preimages_example :
    (s' : memory.Disk) × (add_inscribed_preimages 1 (hash_of 3 ∷ []) fresh ≡ (ok tt, s'))
    × ((q : ℕ)
        → get_inscribed_preimages q s' ≡ (
          elim (entry_after 1 (hash_of 3 ∷ []) empty_content.inscribed_connector_tree_preimages q) [
            | some found ↦ ok found
            | none ↦ err period_could_not_be_found
          ],
          s',
        ))
get_preimages-add_preimages_example =
    get_preimages-add_preimages fresh empty_content 1 (hash_of 3 ∷ []) fresh-Stored

empty-Built : Build.Built 32 empty_content.withdrawals_merkle_tree []
unfolding empty_content
empty-Built = Build.Built-new 32

index-add_to_withdrawals_example :
    (s' : memory.Disk) × (tree : MerkleTree) × (add_to_withdrawals_merkle_tree (hash_of 4) fresh
      ≡ (ok tt, s'))
    × Stored s' (record empty_content { withdrawals_merkle_tree = tree })
    × Build.Built 32 tree (hash_of 4 ∷ [])
    × (get_withdrawals_merkle_tree_index s' ≡ (ok 1, s'))
index-add_to_withdrawals_example =
    index-add_to_withdrawals fresh empty_content [] (hash_of 4) fresh-Stored empty-Built
      (omega arith)

abbrev broken : DatabaseContent ⊎ IoError
broken = inr other_io

unreadable-error_example :
    ((p l i : ℕ) → get_connector_tree_hash p l i broken ≡ (err (io other_io), broken))
    × ((x : List (List (List Bytes)))
        → set_connector_tree_hashes x broken ≡ (err (io other_io), broken))
    × ((p : ℕ) → get_claim_proof_merkle_tree p broken ≡ (err (io other_io), broken))
    × ((x : List MerkleTree) → set_claim_proof_merkle_trees x broken ≡ (err (io other_io), broken))
    × (get_inscription_txs broken ≡ (err (io other_io), broken))
    × (get_inscription_txs_len broken ≡ (err (io other_io), broken))
    × ((x : InscriptionTxs) → add_to_inscription_txs x broken ≡ (err (io other_io), broken))
    × (get_withdrawals_merkle_tree_index broken ≡ (err (io other_io), broken))
    × ((x : Bytes) → add_to_withdrawals_merkle_tree x broken ≡ (err (io other_io), broken))
    × ((p : ℕ) → get_withdrawals_payment_for_period p broken ≡ (err (io other_io), broken))
    × ((p : ℕ) (x : WithdrawalPayment)
        → add_to_withdrawals_payment_txids p x broken ≡ (err (io other_io), broken))
    × ((i : ℕ) → get_connector_tree_utxo i broken ≡ (err (io other_io), broken))
    × ((x : List (List (List OutPoint)))
        → set_connector_tree_utxos x broken ≡ (err (io other_io), broken))
    × (get_start_block_height broken ≡ (err (io other_io), broken))
    × ((x : ℕ) → set_start_block_height x broken ≡ (err (io other_io), broken))
    × (get_period_relative_block_heights broken ≡ (err (io other_io), broken))
    × ((x : List ℕ) → set_period_relative_block_heights x broken ≡ (err (io other_io), broken))
    × ((p : ℕ) → get_inscribed_preimages p broken ≡ (err (io other_io), broken))
    × ((p : ℕ) (x : List Bytes) → add_inscribed_preimages p x broken ≡ (err (io other_io), broken))
unreadable-error_example = unreadable-error broken refl
