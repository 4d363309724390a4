-- ===== src/Writer/Proofs.antt =====
-- A Merkle proof from `write_merkle_tree_proof` to `read_merkle_tree_proof`.
use clementine_citeria.Common.{
  ℕ, suc, ◌^◌, ◌<◌, ◌≡◌, refl, ap, sym, ◌∙◌, List, [], ◌∷◌, ◌++◌, append_assoc, All, some-eq, some,
  none, inl, inr,
}
use clementine_citeria.Common.Bytes.{Bytes, IsHash}
use clementine_citeria.Hash.{Crypto}
use clementine_citeria.Env.{Environment, pure, lift, ◌>>=◌, bind-run, for_each}
use clementine_citeria.Env.Tape.{
  Item, bytes32, u32, IsTape, Reads, Writes, Writes-32bytes, Writes-for_each, Reads-Writes,
}
use clementine_citeria.Merkle.Levels.{empty_data, node}
use clementine_citeria.Merkle.Tree.{MerkleTree, index_of, path}
use clementine_citeria.Merkle.Tree.Build.{Built}
use clementine_citeria.Merkle.Tree.Paths.{
  siblings_above, length-siblings_above, path-climb, path-siblings, index_of-first, FirstAt,
  FirstAt-get_or, Absent,
}
use clementine_citeria.Circuit.MerkleProof.{read_merkle_tree_proof}
use clementine_citeria.Circuit.MerkleProof.Wire.{sibling_items, read_merkle_tree_proof-climb}
use clementine_citeria.Writer.{found_index, write_merkle_tree_proof}

-- A leaf that is first at `k` is first nowhere else, and is not absent.
FirstAt-unique :
    (a b : Bytes) (xs : List Bytes) (k l : ℕ) → a ≡ b → FirstAt a xs k → FirstAt b xs l → k ≡ l
FirstAt-unique a b _ _ _ e FirstAt.here FirstAt.here = refl
FirstAt-unique a b _ _ _ e FirstAt.here (FirstAt.later ne h) = absurd (ne e)
FirstAt-unique a b _ _ _ e (FirstAt.later ne h) FirstAt.here = absurd (ne (sym e))
FirstAt-unique a b _ _ _ e (FirstAt.later {xs = ys} {i = i} ne h) (FirstAt.later {i = j} ne' h') =
    ap suc (FirstAt-unique a b ys i j e h h')

FirstAt-Absent : (a : Bytes) (xs : List Bytes) (k : ℕ) → FirstAt a xs k → Absent a xs → ⊥
FirstAt-Absent a _ _ FirstAt.here (ne, h) = ne refl
FirstAt-Absent a _ _ (FirstAt.later {xs = ys} {i = i} ne f) (ne', h) = FirstAt-Absent a ys i f h

module _ ⦃c : Crypto⦄ where
  index_of-FirstAt :
      (depth : ℕ) (t : MerkleTree) (xs : List Bytes) (a : Bytes) (k : ℕ)
      → Built depth t xs
      → FirstAt a xs k
      → index_of t a ≡ some (some k)
  index_of-FirstAt depth t xs a k h first = elim (index_of-first depth t xs a h) [
    | inl (l, found, first') ↦ rw (FirstAt-unique a a xs k l refl first first') found
    | inr (none_found, absent) ↦ absurd (FirstAt-Absent a xs k first absent)
  ]

module _ ⦃c : Crypto⦄ ⦃e : Environment⦄ ⦃i : IsTape e⦄ where
  Writes-siblings :
      (depth : ℕ) (t : MerkleTree) (k : ℕ) (siblings : List Bytes)
      → path depth t k ≡ some siblings
      → All IsHash siblings
      → Writes (lift (path depth t k) >>= λ s. for_each s e.write_32bytes) (sibling_items siblings)
  Writes-siblings depth t k siblings found h = record {
    run = λ past rest. rw found (
        bind-run (pure siblings) (λ s. for_each s e.write_32bytes) (i.tape past rest) refl
        ∙ (Writes-for_each e.write_32bytes (λ b. bytes32 b ∷ []) IsHash (λ b hb. Writes-32bytes b)
              siblings h).run
            past rest);
  }

  pub Writes-proof :
      (depth : ℕ) (t : MerkleTree) (xs : List Bytes) (leaf : Bytes) (k : ℕ)
      → Built depth t xs
      → All IsHash xs
      → FirstAt leaf xs k
      → Writes
          (write_merkle_tree_proof depth leaf none t)
          (u32 k ∷ sibling_items (siblings_above depth 0 xs k))
  unfolding write_merkle_tree_proof
  Writes-proof depth t xs leaf k h hashes first = record {
    run = λ past rest.
        let (found, hashes') = path-siblings depth t xs k h hashes in
        bind-run (found_index leaf none t) _ (i.tape past rest) (looked_up past rest)
        ∙ rw (append_assoc rest (u32 k ∷ []) (sibling_items (siblings_above depth 0 xs k))) at (
            (Writes-siblings depth t k (siblings_above depth 0 xs k) found hashes').run past
              (rest ++ u32 k ∷ []));
  }
    where
      looked_up :
          (past rest : List Item)
          → found_index leaf none t (i.tape past rest) ≡ some (k, i.tape past (rest ++ u32 k ∷ []))
      looked_up past rest =
          unfold found_index ◌>>=◌ in
          rw (index_of-FirstAt depth t xs leaf k h first) (
            bind-run (e.write_u32 k) (λ _. pure k) (i.tape past rest)
              (i.write_u32_last past rest k))

  pub Reads-proof :
      (depth : ℕ) (t : MerkleTree) (xs : List Bytes) (leaf : Bytes) (k : ℕ)
      → Built depth t xs
      → All IsHash xs
      → FirstAt leaf xs k
      → k < 2 ^ depth
      → k < 2 ^ 32
      → Reads
          (read_merkle_tree_proof depth leaf none)
          (u32 k ∷ sibling_items (siblings_above depth 0 xs k))
          (node depth 0 0 xs)
  Reads-proof depth t xs leaf k h hashes first room small =
      let siblings = siblings_above depth 0 xs k in
      let (found, hashes') = path-siblings depth t xs k h hashes in
      let (s, found', len, root) = path-climb depth t xs k h room in
      let same : s ≡ siblings = some-eq (sym found' ∙ found) in
      let (inside, at_k) = FirstAt-get_or leaf empty_data xs k first in
      rw (length-siblings_above depth 0 k xs, rw (same, at_k) at root) at
        (read_merkle_tree_proof-climb siblings leaf none k hashes' small)

  -- The circuit reads from what the host wrote of a leaf's proof the root of the host's tree, whose
  -- leaf it is.
  pub read_proof-write_proof :
      (depth : ℕ) (t : MerkleTree) (xs : List Bytes) (leaf : Bytes) (k : ℕ) (past : List Item)
      → Built depth t xs
      → All IsHash xs
      → FirstAt leaf xs k
      → k < 2 ^ depth
      → k < 2 ^ 32
      → (write_merkle_tree_proof depth leaf none t >>= λ _. read_merkle_tree_proof depth leaf none)
          (i.tape past [])
        ≡ some (
          node depth 0 0 xs,
          i.tape (past ++ u32 k ∷ sibling_items (siblings_above depth 0 xs k)) [],
        )
  read_proof-write_proof depth t xs leaf k past h hashes first room small =
      Reads-Writes (write_merkle_tree_proof depth leaf none t)
        (read_merkle_tree_proof depth leaf none)
        (u32 k ∷ sibling_items (siblings_above depth 0 xs k)) (node depth 0 0 xs)
        (Writes-proof depth t xs leaf k h hashes first)
        (Reads-proof depth t xs leaf k h hashes first room small) past
