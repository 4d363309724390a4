-- ===== src/Operator/Trees.antt =====
-- The shape of a connector tree, and the claims that it can prove.
use clementine_citeria.Common.{
  ℕ, zero, suc, ◌+◌, ◌%◌, ◌^◌, ◌<◌, ◌≤◌, ◌≡◌, refl, ap, ◌∙◌, List, [], ◌∷◌, ◌++◌, some, length,
  arith, All, get_elem?, get_or, get_elem?-lt_length,
}
use clementine_citeria.Common.Bytes.{Bytes}
use clementine_citeria.Hash.{Crypto, sha256_hash}
use clementine_citeria.Merkle.Levels.{empty_data, node}
use clementine_citeria.Claim.{
  pow2_u32, revealed_hashes, get_claim_proof_tree_leaf, claim_leaves, calculate_claim_proof_root,
}
use clementine_citeria.Common.Powers.{pow_mono, pow_lt-exponent}
use clementine_citeria.Claim.Cover.{pow2_u32-fits, Within, get_claim_reveal_indices-covering}
use clementine_citeria.Claim.Root.{calculate_claim_proof_root-node}
use clementine_citeria.Operator.{
  Rng, create_level, create_levels, create_connector_tree_preimages_and_hashes,
}

module _ ⦃c : Crypto⦄ where
  -- The hash of each preimage.
  abbrev pub hashes_of : List Bytes → List Bytes
  hashes_of [] = []
  hashes_of (p ∷ ps) = sha256_hash p ∷ hashes_of ps

  abbrev pub level_hashes_of : List (List Bytes) → List (List Bytes)
  level_hashes_of [] = []
  level_hashes_of (ps ∷ rest) = hashes_of ps ∷ level_hashes_of rest

-- The levels have 2 ^ i, 2 ^ (i + 1), ... nodes.
abbrev pub Doubling : ℕ → List (List Bytes) → Type 0
Doubling i [] = Unit {0}
Doubling i (hs ∷ rest) = (length hs ≡ 2 ^ i) × Doubling (suc i) rest

module _ ⦃c : Crypto⦄ ⦃r : Rng⦄ where
  create_level-hashes :
      (n : ℕ) (s : r.Seed)
      → ((create_level n s).1 ≡ hashes_of (create_level n s).0) × (length (create_level n s).1 ≡ n)
  unfolding create_level
  create_level-hashes zero s = (refl, refl)
  create_level-hashes (suc n) s =
      let (e, len) = create_level-hashes n (r.gen s).1 in
      (ap (λ t. sha256_hash (r.gen s).0 ∷ t) e, ap suc len)

  create_levels-shape :
      (n i : ℕ) (s : r.Seed)
      → i + n ≤ 32
      → ((create_levels n i s).1 ≡ level_hashes_of (create_levels n i s).0)
        × (length (create_levels n i s).1 ≡ n)
        × Doubling i (create_levels n i s).1
  unfolding create_levels
  create_levels-shape zero i s low = (refl, refl, tt)
  create_levels-shape (suc n) i s low =
      let level = create_level-hashes (pow2_u32 i) s in
      let fits = pow2_u32-fits i (pow_mono i 32 (omega arith)) in
      let (e, len, shape) =
        create_levels-shape n (suc i) (create_level (pow2_u32 i) s).2 (omega arith) in
      (rw (level.0, e) refl, ap suc len, (level.1 ∙ fits, shape))

  -- A connector tree of a depth below 32 has its levels 0 to the depth, the level i with 2 ^ i nodes, and its
  -- hashes are the hashes of its preimages.
  pub create_connector_tree-Doubling :
      (depth : ℕ) (s : r.Seed)
      → 2 ^ depth < 2 ^ 32
      → ((create_connector_tree_preimages_and_hashes depth s).1
          ≡ level_hashes_of (create_connector_tree_preimages_and_hashes depth s).0)
        × (length (create_connector_tree_preimages_and_hashes depth s).1 ≡ depth + 1)
        × Doubling 0 (create_connector_tree_preimages_and_hashes depth s).1
  unfolding create_connector_tree_preimages_and_hashes
  create_connector_tree-Doubling depth s wide =
      let low = pow_lt-exponent depth 32 wide in
      let (e, len, shape) = create_levels-shape depth 1 (r.gen s).1 (omega (arith, low)) in
      (ap (λ t. (sha256_hash (r.gen s).0 ∷ []) ∷ t) e, omega (arith, len), (refl, shape))

-- A level of such a tree.
pub Doubling-level :
    (i l : ℕ) (tree : List (List Bytes))
    → Doubling i tree
    → l < length tree
    → (hs : List Bytes) × (get_elem? tree l ≡ some hs) × (length hs ≡ 2 ^ (i + l))
Doubling-level i l [] h small = absurd (omega arith)
Doubling-level i zero (hs ∷ rest) (len, h) small =
    let e : i + 0 ≡ i = omega arith in (hs, refl, rw e len)
Doubling-level i (suc l) (hs ∷ rest) (len, h) small =
    let e : i + suc l ≡ suc i + l = omega arith in
    rw e (Doubling-level (suc i) l rest h (omega arith))

revealed_hashes-Within :
    (depth : ℕ) (tree : List (List Bytes)) (xs : List (ℕ × ℕ))
    → Doubling 0 tree
    → length tree ≡ depth + 1
    → All (Within depth) xs
    → (b : Bytes) × (revealed_hashes tree xs ≡ some b)
unfolding revealed_hashes
revealed_hashes-Within depth tree [] h len w = ([], refl)
revealed_hashes-Within depth tree ((level, index) ∷ xs) h len ((wl, wi), w) =
    let (hs, e, size) = Doubling-level 0 level tree h (omega arith) in
    let zero_plus : 0 + level ≡ level = omega arith in
    let size' = rw zero_plus at size in
    let hash = get_elem?-lt_length hs index empty_data (omega (arith, size')) in
    let (rest, e') = revealed_hashes-Within depth tree xs h len w in
    (get_or hs index empty_data ++ rest, rw (e, hash, e') refl)

module _ ⦃c : Crypto⦄ where
  claim_leaf :
      (depth count : ℕ) (tree : List (List Bytes))
      → Doubling 0 tree
      → length tree ≡ depth + 1
      → count ≤ 2 ^ depth
      → 2 ^ depth < 2 ^ 32
      → (leaf : Bytes) × (get_claim_proof_tree_leaf depth count tree ≡ some leaf)
  unfolding get_claim_proof_tree_leaf
  claim_leaf depth count tree h len small wide =
      let (xs, e, within, once) = get_claim_reveal_indices-covering depth count wide small in
      let (b, e') = revealed_hashes-Within depth tree xs h len within in
      let same : count % 2 ^ 32 ≡ count = omega arith in (sha256_hash b, rw (same, e, e') refl)

  claim_leaves_all :
      (n i depth : ℕ) (tree : List (List Bytes))
      → Doubling 0 tree
      → length tree ≡ depth + 1
      → i + n ≤ 2 ^ depth
      → 2 ^ depth < 2 ^ 32
      → (leaves : List Bytes) × (claim_leaves n i depth tree ≡ some leaves)
  unfolding claim_leaves
  claim_leaves_all zero i depth tree h len small wide = ([], refl)
  claim_leaves_all (suc n) i depth tree h len small wide =
      let (leaf, e) = claim_leaf depth i tree h len (omega arith) wide in
      let (rest, e') = claim_leaves_all n (suc i) depth tree h len (omega arith) wide in
      (leaf ∷ rest, rw (e, e') refl)

module _ ⦃c : Crypto⦄ ⦃r : Rng⦄ where
  -- For every connector tree of a depth below 32 the claim proof root is computed without a panic: it
  -- is the root of the tree over the leaves of all the counts below 2 ^ depth.
  pub create_connector_tree-claim_root :
      (depth : ℕ) (s : r.Seed)
      → 2 ^ depth < 2 ^ 32
      → (leaves : List Bytes) × (claim_leaves
            (2 ^ depth)
            0
            depth
            (create_connector_tree_preimages_and_hashes depth s).1
          ≡ some leaves)
        × (calculate_claim_proof_root depth (create_connector_tree_preimages_and_hashes depth s).1
            ≡ some (node depth 0 0 leaves))
  create_connector_tree-claim_root depth s wide =
      let (e, len, shape) = create_connector_tree-Doubling depth s wide in
      let tree = (create_connector_tree_preimages_and_hashes depth s).1 in
      let (leaves, found) =
        claim_leaves_all (2 ^ depth) 0 depth tree shape len (omega arith) wide in
      (leaves, found, calculate_claim_proof_root-node depth tree leaves wide found)
