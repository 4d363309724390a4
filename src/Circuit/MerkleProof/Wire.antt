-- ===== src/Circuit/MerkleProof/Wire.antt =====
-- What `read_merkle_tree_proof` and `read_and_verify_bitcoin_merkle_path` compute from the values
-- on the tape.
use clementine_citeria.Common.{
  ℕ, suc, ◌/◌, ◌%◌, ◌^◌, ◌<◌, ◌≡◌, refl, List, [], ◌∷◌, ◌++◌, Option, none, some, length, All, ◌==◌,
  if◌then◌else◌,
}
use clementine_citeria.Common.Bytes.{Bytes, IsHash}
use clementine_citeria.Hash.{Crypto, hash_pair, double_sha256_hash}
use clementine_citeria.Env.{Environment, for_range}
use clementine_citeria.Env.Tape.{
  Item, bytes32, u32, IsTape, Reads, Reads-pure, Reads-bind, Reads-then-pure, Reads-32bytes,
  Reads-u32, Reads-for_range, items_all, steps,
}
use clementine_citeria.Merkle.Tree.Paths.{climb}
use clementine_citeria.Circuit.MerkleProof.{
  proof_round, index_or_read, read_merkle_tree_proof, path_round,
  read_and_verify_bitcoin_merkle_path,
}

abbrev pub sibling_items : List Bytes → List Item
sibling_items siblings = items_all (λ b. bytes32 b ∷ []) siblings

module _ ⦃c : Crypto⦄ where
  abbrev pub proof_step : ℕ → Bytes × ℕ → Bytes → Bytes × ℕ
  proof_step i (hash, level_idx) sibling = (
    (if level_idx % 2 == 0 then hash_pair hash sibling else hash_pair sibling hash),
    level_idx / 2,
  )

  pub steps-climb :
      (siblings : List Bytes) (k : ℕ) (leaf : Bytes) (index : ℕ)
      → (rest : ℕ) × (steps proof_step k (leaf, index) siblings ≡ (climb siblings index leaf, rest))
  unfolding climb
  steps-climb [] k leaf index = (index, refl)
  steps-climb (s ∷ siblings) k leaf index =
      steps-climb siblings (suc k) (if index % 2 == 0 then hash_pair leaf s else hash_pair s leaf)
        (index / 2)

  -- The way up a block's transaction tree.
  unfoldable pub climb_double : List Bytes → ℕ → Bytes → Bytes
  climb_double [] index hash = hash
  climb_double (s ∷ rest) index hash =
      climb_double rest (index / 2)
        (if index % 2 == 0 then double_sha256_hash (hash ++ s) else double_sha256_hash (s ++ hash))

  abbrev pub path_step : ℕ → Bytes × ℕ → Bytes → Bytes × ℕ
  path_step i (hash, index) node = (
    (if index % 2 == 0
        then double_sha256_hash (hash ++ node)
        else double_sha256_hash (node ++ hash)),
    index / 2,
  )

  pub steps-climb_double :
      (siblings : List Bytes) (k : ℕ) (leaf : Bytes) (index : ℕ)
      → (rest : ℕ) × (steps path_step k (leaf, index) siblings
          ≡ (climb_double siblings index leaf, rest))
  unfolding climb_double
  steps-climb_double [] k leaf index = (index, refl)
  steps-climb_double (s ∷ siblings) k leaf index =
      steps-climb_double siblings (suc k)
        (if index % 2 == 0 then double_sha256_hash (leaf ++ s) else double_sha256_hash (s ++ leaf))
        (index / 2)

module _ ⦃c : Crypto⦄ ⦃e : Environment⦄ ⦃i : IsTape e⦄ where
  Reads-proof_round :
      (k : ℕ) (s : Bytes × ℕ) (x : Bytes)
      → IsHash x
      → Reads (proof_round k s) (bytes32 x ∷ []) (proof_step k s x)
  unfolding proof_round
  Reads-proof_round k (hash, level_idx) x h =
      Reads-bind e.read_32bytes _ (bytes32 x ∷ []) [] x _ (Reads-32bytes x h) (Reads-pure _)

  Reads-path_round :
      (k : ℕ) (s : Bytes × ℕ) (x : Bytes)
      → IsHash x
      → Reads (path_round k s) (bytes32 x ∷ []) (path_step k s x)
  unfolding path_round
  Reads-path_round k (hash, index) x h =
      Reads-bind e.read_32bytes _ (bytes32 x ∷ []) [] x _ (Reads-32bytes x h) (Reads-pure _)

  abbrev pub index_items : Option ℕ → ℕ → List Item
  index_items none index = u32 index ∷ []
  index_items (some _) index = []

  abbrev pub IsIndex : Option ℕ → ℕ → Type 0
  IsIndex none index = index < 2 ^ 32
  IsIndex (some given) index = given ≡ index

  Reads-index :
      (given : Option ℕ) (index : ℕ)
      → IsIndex given index
      → Reads (index_or_read given) (index_items given index) index
  unfolding index_or_read
  Reads-index none index h = Reads-u32 index h
  Reads-index (some given) index h = rw h (Reads-pure index)

  -- Given `depth` hashes, the reader returns the root that they lead to from the leaf at its index,
  -- whether the index is an argument or the first value read, and reads nothing else.
  pub read_merkle_tree_proof-climb :
      (siblings : List Bytes) (leaf : Bytes) (given : Option ℕ) (index : ℕ)
      → All IsHash siblings
      → IsIndex given index
      → Reads
          (read_merkle_tree_proof (length siblings) leaf given)
          (index_items given index ++ sibling_items siblings)
          (climb siblings index leaf)
  unfolding read_merkle_tree_proof
  read_merkle_tree_proof-climb siblings leaf given index h hi =
      let (rest, e') = steps-climb siblings 0 leaf index in
      Reads-bind (index_or_read given) _ (index_items given index) (sibling_items siblings) index
        (climb siblings index leaf) (Reads-index given index hi)
        (Reads-then-pure (for_range (length siblings) 0 proof_round (leaf, index))
          (sibling_items siblings) (λ r. r.0) (climb siblings index leaf, rest)
          (rw e' at (
            Reads-for_range proof_round (λ b. bytes32 b ∷ []) proof_step IsHash Reads-proof_round
              siblings 0 (leaf, index) h)))

  -- The same for the path of a transaction: its index, the number of its siblings and the siblings.
  pub read_and_verify_bitcoin_merkle_path-climb :
      (siblings : List Bytes) (txid : Bytes) (index : ℕ)
      → All IsHash siblings
      → index < 2 ^ 32
      → length siblings < 2 ^ 32
      → Reads
          (read_and_verify_bitcoin_merkle_path txid)
          (u32 index ∷ u32 (length siblings) ∷ sibling_items siblings)
          (climb_double siblings index txid)
  unfolding read_and_verify_bitcoin_merkle_path
  read_and_verify_bitcoin_merkle_path-climb siblings txid index h hi hl =
      let (rest, e') = steps-climb_double siblings 0 txid index in
      Reads-bind e.read_u32 _ (u32 index ∷ []) (u32 (length siblings) ∷ sibling_items siblings)
        index (climb_double siblings index txid) (Reads-u32 index hi)
        (Reads-bind e.read_u32 _ (u32 (length siblings) ∷ []) (sibling_items siblings)
          (length siblings) (climb_double siblings index txid) (Reads-u32 (length siblings) hl)
          (Reads-then-pure (for_range (length siblings) 0 path_round (txid, index))
            (sibling_items siblings) (λ r. r.0) (climb_double siblings index txid, rest)
            (rw e' at (
              Reads-for_range path_round (λ b. bytes32 b ∷ []) path_step IsHash Reads-path_round
                siblings 0 (txid, index) h))))
