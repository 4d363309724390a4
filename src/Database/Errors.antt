-- ===== src/Database/Errors.antt =====
-- A disk that cannot be read, and the withdrawals' tree on one that works.
use clementine_citeria.Common.{
  ℕ, ◌+◌, ◌^◌, ◌<◌, ◌≡◌, ap, ◌∙◌, inr, List, [], ◌∷◌, ◌++◌, length, length-append, arith,
}
use clementine_citeria.Common.Bytes.{Bytes}
use clementine_citeria.Hash.{Crypto}
use clementine_citeria.Merkle.Tree.{MerkleTree}
use clementine_citeria.Merkle.Tree.Build.{Built, add-Built}
use clementine_citeria.Database.{
  OutPoint, InscriptionTxs, WithdrawalPayment, DatabaseContent, other_io, io, ok, err, Dbms,
  get_connector_tree_hash, set_connector_tree_hashes, get_claim_proof_merkle_tree,
  set_claim_proof_merkle_trees, get_inscription_txs, get_inscription_txs_len,
  add_to_inscription_txs, get_withdrawals_merkle_tree_index, add_to_withdrawals_merkle_tree,
  get_withdrawals_payment_for_period, add_to_withdrawals_payment_txids, get_connector_tree_utxo,
  set_connector_tree_utxos, get_start_block_height, set_start_block_height,
  get_period_relative_block_heights, set_period_relative_block_heights, get_inscribed_preimages,
  add_inscribed_preimages,
}
use clementine_citeria.Database.Laws.{
  WorkingDisk, Stored, read-bind, return-bind, read-fails, write-Becomes,
}

module _ ⦃c : Crypto⦄ ⦃d : Dbms⦄ where
  -- Where the file cannot be read, and not because it is not there, every operation ends in that error
  -- and leaves the disk as it was.
  pub unreadable-error :
      (s : d.Disk)
      → d.read_disk s ≡ inr other_io
      → ((p l i : ℕ) → get_connector_tree_hash p l i s ≡ (err (io other_io), s))
        × ((x : List (List (List Bytes))) → set_connector_tree_hashes x s ≡ (err (io other_io), s))
        × ((p : ℕ) → get_claim_proof_merkle_tree p s ≡ (err (io other_io), s))
        × ((x : List MerkleTree) → set_claim_proof_merkle_trees x s ≡ (err (io other_io), s))
        × (get_inscription_txs s ≡ (err (io other_io), s))
        × (get_inscription_txs_len s ≡ (err (io other_io), s))
        × ((x : InscriptionTxs) → add_to_inscription_txs x s ≡ (err (io other_io), s))
        × (get_withdrawals_merkle_tree_index s ≡ (err (io other_io), s))
        × ((x : Bytes) → add_to_withdrawals_merkle_tree x s ≡ (err (io other_io), s))
        × ((p : ℕ) → get_withdrawals_payment_for_period p s ≡ (err (io other_io), s))
        × ((p : ℕ) (x : WithdrawalPayment)
            → add_to_withdrawals_payment_txids p x s ≡ (err (io other_io), s))
        × ((i : ℕ) → get_connector_tree_utxo i s ≡ (err (io other_io), s))
        × ((x : List (List (List OutPoint)))
            → set_connector_tree_utxos x s ≡ (err (io other_io), s))
        × (get_start_block_height s ≡ (err (io other_io), s))
        × ((x : ℕ) → set_start_block_height x s ≡ (err (io other_io), s))
        × (get_period_relative_block_heights s ≡ (err (io other_io), s))
        × ((x : List ℕ) → set_period_relative_block_heights x s ≡ (err (io other_io), s))
        × ((p : ℕ) → get_inscribed_preimages p s ≡ (err (io other_io), s))
        × ((p : ℕ) (x : List Bytes) → add_inscribed_preimages p x s ≡ (err (io other_io), s))
  unfolding get_connector_tree_hash set_connector_tree_hashes get_claim_proof_merkle_tree
      set_claim_proof_merkle_trees get_inscription_txs get_inscription_txs_len
      add_to_inscription_txs get_withdrawals_merkle_tree_index add_to_withdrawals_merkle_tree
      get_withdrawals_payment_for_period add_to_withdrawals_payment_txids get_connector_tree_utxo
      set_connector_tree_utxos get_start_block_height set_start_block_height
      get_period_relative_block_heights set_period_relative_block_heights get_inscribed_preimages
      add_inscribed_preimages
  unreadable-error s h = (
    λ p l i. read-fails _ s h,
    λ x. read-fails _ s h,
    λ p. read-fails _ s h,
    λ x. read-fails _ s h,
    read-fails _ s h,
    read-fails _ s h,
    λ x. read-fails _ s h,
    read-fails _ s h,
    λ x. read-fails _ s h,
    λ p. read-fails _ s h,
    λ p x. read-fails _ s h,
    λ i. read-fails _ s h,
    λ x. read-fails _ s h,
    read-fails _ s h,
    λ x. read-fails _ s h,
    read-fails _ s h,
    λ x. read-fails _ s h,
    λ p. read-fails _ s h,
    λ p x. read-fails _ s h,
  )

  -- After a hash was added to the withdrawals' tree, the tree on the disk holds it after the others,
  -- and the getter of the index counts it: the tree was well formed and not full.
  pub index-add_to_withdrawals :
      ⦃w : WorkingDisk d⦄
      → (s : d.Disk) (content : DatabaseContent) (xs : List Bytes) (hash : Bytes) → Stored s content
      → Built 32 content.withdrawals_merkle_tree xs
      → length xs + 1 < 2 ^ 32
      → (s' : d.Disk) × (tree : MerkleTree) × (add_to_withdrawals_merkle_tree hash s ≡ (ok tt, s'))
        × Stored s' (record content { withdrawals_merkle_tree = tree })
        × Built 32 tree (xs ++ hash ∷ [])
        × (get_withdrawals_merkle_tree_index s' ≡ (ok (length xs + 1), s'))
  unfolding add_to_withdrawals_merkle_tree get_withdrawals_merkle_tree_index
  index-add_to_withdrawals s content xs hash h built room =
      let (tree, added, built') =
        add-Built 32 content.withdrawals_merkle_tree xs hash built (omega arith) room in
      let (s', done, stored) =
        write-Becomes (record content { withdrawals_merkle_tree = tree }) s in
      (
        s',
        tree,
        read-bind _ s content h ∙ rw added (return-bind tree _ s ∙ done),
        stored,
        built',
        read-bind _ s' (record content { withdrawals_merkle_tree = tree }) stored
            ∙ ap (λ (n : ℕ). (ok n, s'))
                (omega (arith, built'.index, length-append {0} xs (hash ∷ []))),
      )
