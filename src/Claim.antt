-- ===== src/Claim.antt =====
-- What an operator reveals of a period's connector tree: `get_claim_reveal_indices`,
-- `get_claim_proof_tree_leaf` and `calculate_claim_proof_root` of core/src/utils.rs.
pub mod Cover
pub mod Root
use clementine_citeria.Common.{
  ℕ, zero, suc, ◌+◌, ◌*◌, ◌/◌, ◌%◌, ◌^◌, List, [], ◌∷◌, ◌++◌, Option, none, some, leb, ◌==◌,
  if◌then◌else◌, ◌>>=◌, ◌>>◌, assert, get_elem?,
}
use clementine_citeria.Common.Bytes.{Bytes}
use clementine_citeria.Hash.{Crypto, sha256_hash, hash_pair}

-- `2u32.pow(depth as u32)`, which wraps.
abbrev pub pow2_u32 : ℕ → ℕ
pow2_u32 depth = 2 ^ (depth % 2 ^ 32) % 2 ^ 32

-- Pairs of a level and an index on it; the root is level 0. The two recursive calls are one, at the
-- count of the branch taken; where neither is taken its result is not used.
unfoldable pub get_claim_reveal_indices : ℕ → ℕ → Option (List (ℕ × ℕ))
get_claim_reveal_indices zero count = do
  assert (leb count 1)
  some (if count == 0 then (0, 0) ∷ [] else [])
get_claim_reveal_indices (suc depth) count =
    let half = if count % 2 == 1 then (count + 1) / 2 else count / 2 in
    let rest = get_claim_reveal_indices depth half in
    assert (leb count (pow2_u32 (suc depth)))
    >> (if count == 0
        then some ((0, 0) ∷ [])
        else if count == pow2_u32 (suc depth)
        then some []
        else if count % 2 == 1
        then (rest >>= λ indices. some ((suc depth, count) ∷ indices))
        else rest)

-- `connector_tree_hashes[level][index]`, which panics out of bounds.
unfoldable pub revealed_hashes : List (List Bytes) → List (ℕ × ℕ) → Option Bytes
revealed_hashes tree [] = some []
revealed_hashes tree ((level, index) ∷ indices) = do
  hashes ← get_elem? tree level
  hash ← get_elem? hashes index
  rest ← revealed_hashes tree indices
  some (hash ++ rest)

module _ ⦃c : Crypto⦄ where
  unfoldable pub get_claim_proof_tree_leaf : ℕ → ℕ → List (List Bytes) → Option Bytes
  get_claim_proof_tree_leaf depth num_claims connector_tree_hashes = do
    indices ← get_claim_reveal_indices depth (num_claims % 2 ^ 32)
    revealed ← revealed_hashes connector_tree_hashes indices
    some (sha256_hash revealed)

  -- `for i in 0..2u32.pow(depth)`: the leaves from `i` on, of which `n` are left.
  unfoldable pub claim_leaves : ℕ → ℕ → ℕ → List (List Bytes) → Option (List Bytes)
  claim_leaves zero i depth tree = some []
  claim_leaves (suc n) i depth tree = do
    leaf ← get_claim_proof_tree_leaf depth i tree
    rest ← claim_leaves n (suc i) depth tree
    some (leaf ∷ rest)

  -- One round of `while level < depth`: the hashes of `n` pairs, from the pair `i` on.
  unfoldable pub level_hashes : ℕ → ℕ → List Bytes → Option (List Bytes)
  level_hashes zero i hashes = some []
  level_hashes (suc n) i hashes = do
    left ← get_elem? hashes (i * 2)
    right ← get_elem? hashes (i * 2 + 1)
    rest ← level_hashes n (suc i) hashes
    some (hash_pair left right ∷ rest)

  -- The loop, with `n` levels left: `2u32.pow(depth - level - 1)` pairs on each.
  unfoldable pub hash_levels : ℕ → List Bytes → Option (List Bytes)
  hash_levels zero hashes = some hashes
  hash_levels (suc n) hashes = do
    hashes' ← level_hashes (pow2_u32 n) 0 hashes
    hash_levels n hashes'

  unfoldable pub calculate_claim_proof_root : ℕ → List (List Bytes) → Option Bytes
  calculate_claim_proof_root depth connector_tree_hashes = do
    hashes ← claim_leaves (pow2_u32 depth) 0 depth connector_tree_hashes
    top ← hash_levels depth hashes
    get_elem? top 0
