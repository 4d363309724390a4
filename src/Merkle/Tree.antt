-- ===== src/Merkle/Tree.antt =====
-- `MerkleTree` of core/src/merkle.rs: the tree of the operator, which keeps every node that has a
-- leaf below it. `DEPTH` is the argument `depth`; the field `data` is `levels` here. `none` is a
-- panic, an index out of bounds.
pub mod Build
pub mod Paths
pub mod Snapshot
use clementine_citeria.Common.{
  ℕ, zero, suc, ◌+◌, ◌-◌, ◌/◌, ◌%◌, ◌^◌, List, [], ◌∷◌, ◌++◌, Option, none, some, Bool, length,
  get_elem?, get_or, set?, ltb, ◌==◌, if◌then◌else◌, replicate, ◌>>=◌,
}
use clementine_citeria.Common.Bytes.{Bytes, bytes_eq}
use clementine_citeria.Hash.{Crypto, hash_pair}
use clementine_citeria.Merkle.Levels.{empty_data, zeroes}
use clementine_citeria.Merkle.Incremental.{IncrementalMerkleTree}

pub record MerkleTree : Type 0 where
  pub levels : List (List Bytes)
  pub index : ℕ

-- `u32::trailing_zeros`: 32 at zero.
unfoldable pub zeros_within : ℕ → ℕ → ℕ
zeros_within zero n = 0
zeros_within (suc bits) n =
    let rest = zeros_within bits (n / 2) in if n % 2 == 0 then suc rest else 0

abbrev pub trailing_zeros : ℕ → ℕ
trailing_zeros n = zeros_within 32 n

unfoldable pub new : ℕ → MerkleTree
new depth = record { levels = replicate (depth + 1) []; index = 0 }

module _ ⦃c : Crypto⦄ where
  -- `(left, right)` of `add`, on the level `i`, whose nodes are `nodes`.
  unfoldable pub siblings : ℕ → List Bytes → ℕ → Bytes → Option (Bytes × Bytes)
  siblings i nodes current_index hash =
      if current_index % 2 == 0
      then some (hash, zeroes i)
      else (get_elem? nodes (current_index - 1) >>= λ left. some (left, hash))

  -- `if i > trz { self.data[i][current_index] = hash } else { self.data[i].push(hash) }`
  unfoldable pub write_node : ℕ → ℕ → List Bytes → ℕ → Bytes → Option (List Bytes)
  write_node trz i nodes current_index hash =
      if ltb trz i then set? nodes current_index hash else some (nodes ++ hash ∷ [])

  -- `for i in 0..DEPTH + 1`, from the level `i` on.
  unfoldable pub add_levels : ℕ → ℕ → List (List Bytes) → ℕ → Bytes → Option (List (List Bytes))
  add_levels trz i [] current_index hash = some []
  add_levels trz i (nodes ∷ rest) current_index hash = do
    (left, right) ← siblings i nodes current_index hash
    nodes' ← write_node trz i nodes current_index hash
    rest' ← add_levels trz (suc i) rest (current_index / 2) (hash_pair left right)
    some (nodes' ∷ rest')

  -- `self.index += 1` wraps, as in a release build.
  unfoldable pub add : MerkleTree → Bytes → Option MerkleTree
  add t a = do
    levels' ← add_levels (trailing_zeros t.index) 0 t.levels t.index a
    some (record { levels = levels'; index = (t.index + 1) % 2 ^ 32 })

  unfoldable pub add_all : MerkleTree → List Bytes → Option MerkleTree
  add_all t [] = some t
  add_all t (a ∷ xs) = add t a >>= λ t'. add_all t' xs

  -- One entry of `path`.
  unfoldable pub sibling : ℕ → List Bytes → ℕ → Bytes
  sibling level nodes i =
      let s = if i % 2 == 0 then i + 1 else i - 1 in
      if ltb s (length nodes) then get_or nodes s empty_data else zeroes level

  -- `for level in 0..DEPTH`: `n` levels are left.
  unfoldable pub path_levels : ℕ → ℕ → List (List Bytes) → ℕ → Option (List Bytes)
  path_levels zero level rest i = some []
  path_levels (suc n) level [] i = none
  path_levels (suc n) level (nodes ∷ rest) i = do
    above ← path_levels n (suc level) rest (i / 2)
    some (sibling level nodes i ∷ above)

  unfoldable pub path : ℕ → MerkleTree → ℕ → Option (List Bytes)
  path depth t index = path_levels depth 0 t.levels index

  unfoldable pub root : ℕ → MerkleTree → Option Bytes
  root depth t = do
    top ← get_elem? t.levels depth
    elim top [ [] ↦ some (zeroes depth) | first ∷ _ ↦ some first ]

  -- `for i in 0..self.index`, over the leaves from position `i` on.
  unfoldable pub index_from : ℕ → ℕ → List Bytes → Bytes → Option (Option ℕ)
  index_from zero i leaves a = some none
  index_from (suc n) i [] a = none
  index_from (suc n) i (x ∷ leaves) a =
      let rest = index_from n (suc i) leaves a in if bytes_eq x a then some (some i) else rest

  unfoldable pub index_of : MerkleTree → Bytes → Option (Option ℕ)
  index_of t a = do leaves ← get_elem? t.levels 0; index_from t.index 0 leaves a

  -- The loop of `to_incremental_tree`: the filled subtrees from `level` on, and the last hash.
  unfoldable pub snapshot_levels :
      ℕ → ℕ → List (List Bytes) → ℕ → Bytes → Option (List Bytes × Bytes)
  snapshot_levels zero level rest i hash = some ([], hash)
  snapshot_levels (suc n) level [] i hash = none
  snapshot_levels (suc n) level (nodes ∷ rest) i hash = do
    filled ← if i % 2 == 0 then some hash else get_elem? nodes (i - 1)
    (left, right) ← siblings level nodes i hash
    (fst, last) ← snapshot_levels n (suc level) rest (i / 2) (hash_pair left right)
    some (filled ∷ fst, last)

  unfoldable pub to_incremental_tree : ℕ → MerkleTree → ℕ → Option IncrementalMerkleTree
  to_incremental_tree depth t index = do
    leaves ← get_elem? t.levels 0
    leaf ← get_elem? leaves index
    (fst, last) ← snapshot_levels depth 0 t.levels index leaf
    some (record { filled_subtrees = fst; root = last; index = index })
