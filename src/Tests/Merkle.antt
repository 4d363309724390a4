-- ===== src/Tests/Merkle.antt =====
-- The Merkle trees on three leaves.
use clementine_citeria.Common.{
  ℕ, ◌≡◌, ◌⊎◌, arith, List, [], ◌∷◌, ◌++◌, some, none, length, get_or, All,
}
use clementine_citeria.Common.Bytes.{Bytes, IsHash}
use clementine_citeria.Merkle.Levels.{empty_data, node}
use clementine_citeria.Merkle.Incremental
use clementine_citeria.Merkle.Incremental.{IncrementalMerkleTree}
use clementine_citeria.Merkle.Tree
use clementine_citeria.Merkle.Tree.{MerkleTree}
use clementine_citeria.Merkle.Tree.Build
use clementine_citeria.Merkle.Tree.Paths.{climb, FirstAt, Absent, path-climb, index_of-first}
use clementine_citeria.Merkle.Tree.Snapshot.{to_incremental_tree-add}
use clementine_citeria.Merkle.Agreement.{roots_agree}
use clementine_citeria.Tests.Toy.{toy, hash_of}

abbrev pub three : List Bytes
three = hash_of 1 ∷ hash_of 2 ∷ hash_of 3 ∷ []

pub three-IsHash : All IsHash three
three-IsHash = omega arith

abbrev pub three_tree : MerkleTree
three_tree =
    (Build.add_all-Built 2 (Tree.new 2) [] three (Build.Built-new 2) (omega arith) (omega arith)).0

pub three_tree-Built : Build.Built 2 three_tree three
three_tree-Built =
    (Build.add_all-Built 2 (Tree.new 2) [] three (Build.Built-new 2) (omega arith) (omega arith)).2

abbrev one_leaf : IncrementalMerkleTree
one_leaf = Incremental.add_all (Incremental.new 2) (hash_of 1 ∷ [])

one_leaf-Holds : Incremental.Holds 2 one_leaf (hash_of 1 ∷ [])
one_leaf-Holds =
    Incremental.add_all-Holds 2 (Incremental.new 2) [] (hash_of 1 ∷ []) (Incremental.Holds-new 2)
      (omega arith) (omega arith)

roots_agree_example :
    (t : MerkleTree) × (Tree.add_all (Tree.new 2) three ≡ some t)
    × (Tree.root 2 t ≡ some (node 2 0 0 three))
    × ((Incremental.add_all (Incremental.new 2) three).root ≡ node 2 0 0 three)
roots_agree_example = roots_agree 2 three (omega arith) (omega arith) (omega arith)

path-climb_example :
    (s : List Bytes) × (Tree.path 2 three_tree 2 ≡ some s)
    × (length s ≡ 2)
    × (climb s 2 (get_or three 2 empty_data) ≡ node 2 0 0 three)
path-climb_example = path-climb 2 three_tree three 2 three_tree-Built (omega arith)

index_of-first_example :
    ((k : ℕ) × (Tree.index_of three_tree (hash_of 3) ≡ some (some k)) × FirstAt (hash_of 3) three k)
    ⊎ ((Tree.index_of three_tree (hash_of 3) ≡ some none) × Absent (hash_of 3) three)
index_of-first_example = index_of-first 2 three_tree three (hash_of 3) three_tree-Built

to_incremental_tree-add_example :
    Tree.to_incremental_tree 2 three_tree 1
    ≡ some (record (Incremental.add one_leaf (hash_of 2)) { index = 1 })
to_incremental_tree-add_example =
    to_incremental_tree-add 2 three_tree one_leaf (hash_of 1 ∷ []) (hash_of 2) (hash_of 3 ∷ [])
      three_tree-Built one_leaf-Holds (omega arith) (omega arith)

add-Built_example :
    (t : MerkleTree) × (Tree.add three_tree (hash_of 4) ≡ some t)
    × Build.Built 2 t (three ++ hash_of 4 ∷ [])
add-Built_example =
    Build.add-Built 2 three_tree three (hash_of 4) three_tree-Built (omega arith) (omega arith)

add-Holds_example :
    Incremental.Holds 2 (Incremental.add one_leaf (hash_of 2)) (hash_of 1 ∷ hash_of 2 ∷ [])
add-Holds_example =
    Incremental.add-Holds 2 one_leaf (hash_of 1 ∷ []) (hash_of 2) one_leaf-Holds (omega arith)
      (omega arith)
