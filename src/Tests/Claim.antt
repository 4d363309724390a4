-- ===== src/Tests/Claim.antt =====
-- The reveal indices and the claim proof root of a tree of depth 2.
use clementine_citeria.Common.{
  ℕ, ◌^◌, ◌<◌, ◌≡◌, refl, arith, List, [], ◌∷◌, ◌++◌, some, All, leb, if◌then◌else◌,
}
use clementine_citeria.Common.Bytes.{Bytes}
use clementine_citeria.Hash.{sha256_hash}
use clementine_citeria.Claim.{
  get_claim_reveal_indices, revealed_hashes, get_claim_proof_tree_leaf, claim_leaves,
}
use clementine_citeria.Claim.Cover.{covering, Within, get_claim_reveal_indices-covering}
use clementine_citeria.Tests.Toy.{toy, hash_of}

indices_of_three : get_claim_reveal_indices 3 3 ≡ some ((3, 3) ∷ (1, 1) ∷ [])
unfolding get_claim_reveal_indices
indices_of_three = refl

get_claim_reveal_indices-covering_example :
    (xs : List (ℕ × ℕ)) × (get_claim_reveal_indices 3 3 ≡ some xs)
    × All (Within 3) xs
    × ((j : ℕ) → j < 2 ^ 3 → covering 3 xs j ≡ (if leb 3 j then 1 else 0))
get_claim_reveal_indices-covering_example =
    get_claim_reveal_indices-covering 3 3 (omega arith) (omega arith)

-- The hashes of a connector tree of depth 2.
abbrev tree : List (List Bytes)
tree =
    (hash_of 1 ∷ [])
    ∷ (hash_of 2 ∷ hash_of 3 ∷ [])
    ∷ (hash_of 4 ∷ hash_of 5 ∷ hash_of 6 ∷ hash_of 7 ∷ [])
    ∷ []

abbrev leaves : List Bytes
leaves =
    sha256_hash (hash_of 1)
    ∷ sha256_hash (hash_of 5 ++ hash_of 3)
    ∷ sha256_hash (hash_of 3)
    ∷ sha256_hash (hash_of 7)
    ∷ []

claim_leaves-tree : claim_leaves 4 0 2 tree ≡ some leaves
unfolding claim_leaves get_claim_proof_tree_leaf get_claim_reveal_indices revealed_hashes
claim_leaves-tree = refl
