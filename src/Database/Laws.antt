-- ===== src/Database/Laws.antt =====
-- What the setters of the database leave for its getters, on a disk that works.
use clementine_citeria.Common.{ℕ, ◌≡◌, refl, ap, ◌∙◌, inl, inr, List, [], ◌∷◌, ◌++◌, none}
use clementine_citeria.Common.Bytes.{Bytes}
use clementine_citeria.Merkle.Tree.{MerkleTree}
use clementine_citeria.Database.{
  OutPoint, InscriptionTxs, DatabaseContent, other_io, io, ok, err, panic, Dbms, Db, return, ◌>>=◌,
  content_of, outcome_of, read, write, set_connector_tree_hashes, set_claim_proof_merkle_trees,
  add_to_inscription_txs, set_connector_tree_utxos, set_start_block_height,
  set_period_relative_block_heights,
}

-- A disk that takes every content, and gives back the last one: the file system does not fail, and
-- the JSON of a content is read as that content.
pub record WorkingDisk (d : Dbms) : Type 0 where
  pub write_then_read :
      (c : DatabaseContent) (s : d.Disk)
      → (s' : d.Disk) × (d.write_disk c s ≡ (none, s')) × (d.read_disk s' ≡ inl c)

module _ ⦃d : Dbms⦄ where
  -- The disk holds a content, or nothing yet.
  abbrev pub Stored : d.Disk → DatabaseContent → Type 0
  Stored s c = content_of (d.read_disk s) ≡ ok c

  -- A setter ends in `Ok`, with a disk that holds the new content.
  abbrev pub Becomes : Db (Unit {0}) → d.Disk → DatabaseContent → Type 0
  Becomes m s c = (s' : d.Disk) × (m s ≡ (ok tt, s')) × Stored s' c

  pub read-bind :
      {A : Type 0} (f : DatabaseContent → Db A) (s : d.Disk) (c : DatabaseContent)
      → Stored s c
      → (read >>= f) s ≡ f c s
  unfolding read ◌>>=◌
  read-bind f s c h = rw (h, ◌>>=◌, read)

  pub return-bind :
      {A B : Type 0} (a : A) (f : A → Db B) (s : d.Disk) → (return (ok a) >>= f) s ≡ f a s
  unfolding ◌>>=◌
  return-bind a f s = refl

  pub bind-ok :
      {A B : Type 0} (m : Db A) (f : A → Db B) (s s' : d.Disk) (a : A)
      → m s ≡ (ok a, s')
      → (m >>= f) s ≡ f a s'
  unfolding ◌>>=◌
  bind-ok m f s s' a h =
      ap (λ p. elim p.0 [ ok a ↦ f a p.1 | err e ↦ (err e, p.1) | panic ↦ (panic, p.1) ]) h

  -- A failed read is the result of every operation that starts with it, and nothing is written.
  pub read-fails :
      {A : Type 0} (f : DatabaseContent → Db A) (s : d.Disk)
      → d.read_disk s ≡ inr other_io
      → (read >>= f) s ≡ (err (io other_io), s)
  unfolding read ◌>>=◌ content_of
  read-fails f s h = rw (h, ◌>>=◌, read, content_of)

  module _ ⦃w : WorkingDisk d⦄ where
    pub write-Becomes : (c : DatabaseContent) (s : d.Disk) → Becomes (write c) s c
    unfolding write outcome_of content_of
    write-Becomes c s = let (s', e, e') = w.write_then_read c s in (s', rw e refl, rw e' refl)

    read-write-Becomes :
        (f : DatabaseContent → DatabaseContent) (s : d.Disk) (c : DatabaseContent)
        → Stored s c
        → Becomes (read >>= λ content. write (f content)) s (f c)
    read-write-Becomes f s c h =
        let (s', e, stored) = write-Becomes (f c) s in
        (s', read-bind (λ content. write (f content)) s c h ∙ e, stored)

    -- What each plain setter makes of the content: its own field, and no other.
    pub setters-Becomes :
        (s : d.Disk) (c : DatabaseContent)
        → Stored s c
        → ((x : List (List (List Bytes)))
            → Becomes (set_connector_tree_hashes x) s (record c { connector_tree_hashes = x }))
          × ((x : List MerkleTree)
              → Becomes
                  (set_claim_proof_merkle_trees x)
                  s
                  (record c { claim_proof_merkle_trees = x }))
          × ((x : InscriptionTxs)
              → Becomes
                  (add_to_inscription_txs x)
                  s
                  (record c { inscription_txs = c.inscription_txs ++ x ∷ [] }))
          × ((x : List (List (List OutPoint)))
              → Becomes (set_connector_tree_utxos x) s (record c { connector_tree_utxos = x }))
          × ((x : ℕ) → Becomes (set_start_block_height x) s (record c { start_block_height = x }))
          × ((x : List ℕ)
              → Becomes
                  (set_period_relative_block_heights x)
                  s
                  (record c { period_relative_block_heights = x }))
    unfolding set_connector_tree_hashes set_claim_proof_merkle_trees add_to_inscription_txs
        set_connector_tree_utxos set_start_block_height set_period_relative_block_heights
    setters-Becomes s c h = (
      λ x. read-write-Becomes (λ c. record c { connector_tree_hashes = x }) s c h,
      λ x. read-write-Becomes (λ c. record c { claim_proof_merkle_trees = x }) s c h,
      λ x.
          read-write-Becomes (λ c. record c { inscription_txs = c.inscription_txs ++ x ∷ [] }) s c
            h,
      λ x. read-write-Becomes (λ c. record c { connector_tree_utxos = x }) s c h,
      λ x. read-write-Becomes (λ c. record c { start_block_height = x }) s c h,
      λ x. read-write-Becomes (λ c. record c { period_relative_block_heights = x }) s c h,
    )
