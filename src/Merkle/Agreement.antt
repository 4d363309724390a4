-- ===== src/Merkle/Agreement.antt =====
-- The operator's tree and the circuit's tree, given the same leaves (`test_merkle_cross_check` of
-- core/src/merkle.rs is the instance at no leaf and at one).
use clementine_citeria.Common.{ℕ, ◌^◌, ◌≤◌, ◌<◌, ◌≡◌, arith, List, [], some, length}
use clementine_citeria.Common.Bytes.{Bytes}
use clementine_citeria.Hash.{Crypto}
use clementine_citeria.Merkle.Levels.{node}
use clementine_citeria.Merkle.Incremental
use clementine_citeria.Merkle.Tree
use clementine_citeria.Merkle.Tree.{MerkleTree}
use clementine_citeria.Merkle.Tree.Build

module _ ⦃c : Crypto⦄ where
  -- Both trees, started empty and given the same leaves while there is room for them, have the root
  -- of the full binary tree over these leaves; the operator's tree does not panic.
  pub roots_agree :
      (depth : ℕ) (xs : List Bytes)
      → depth ≤ 32
      → length xs ≤ 2 ^ depth
      → length xs < 2 ^ 32
      → (t : MerkleTree) × (Tree.add_all (Tree.new depth) xs ≡ some t)
        × (Tree.root depth t ≡ some (node depth 0 0 xs))
        × ((Incremental.add_all (Incremental.new depth) xs).root ≡ node depth 0 0 xs)
  roots_agree depth xs deep room wide =
      let (t, e, h) =
        Build.add_all-Built depth (Tree.new depth) [] xs (Build.Built-new depth) deep
          (omega arith) in
      let hi =
        Incremental.add_all-Holds depth (Incremental.new depth) [] xs (Incremental.Holds-new depth)
          (omega arith) (omega arith) in
      (t, e, Build.root-Built depth t xs h, hi.root)
