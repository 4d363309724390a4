-- ===== src/Circuit/MerkleProof/Climbs.antt =====
-- What a Merkle proof and a Merkle path that were read come to, in any environment.
use clementine_citeria.Common.{ℕ, ◌≡◌, ap, sym, ◌∙◌, List, Option, some, some-eq, length}
use clementine_citeria.Common.Bytes.{Bytes}
use clementine_citeria.Hash.{Crypto}
use clementine_citeria.Env.{Environment, for_range, bind-inv}
use clementine_citeria.Env.Loops.{for_range-steps}
use clementine_citeria.Merkle.Tree.Paths.{climb}
use clementine_citeria.Circuit.MerkleProof.{
  proof_round, index_or_read, read_merkle_tree_proof, path_round,
  read_and_verify_bitcoin_merkle_path,
}
use clementine_citeria.Circuit.MerkleProof.Wire.{
  proof_step, steps-climb, climb_double, path_step, steps-climb_double,
}

module _ ⦃c : Crypto⦄ ⦃e : Environment⦄ where
  proof_round-step :
      (k : ℕ) (s s' : Bytes × ℕ) (t t' : e.State)
      → proof_round k s t ≡ some (s', t')
      → (x : Bytes) × (s' ≡ proof_step k s x)
  unfolding proof_round
  proof_round-step k (hash, index) s' t t' h =
      let (x, t1, _, h1) = bind-inv e.read_32bytes _ t h in (x, ap (λ p. p.0) (sym (some-eq h1)))

  path_round-step :
      (k : ℕ) (s s' : Bytes × ℕ) (t t' : e.State)
      → path_round k s t ≡ some (s', t')
      → (x : Bytes) × (s' ≡ path_step k s x)
  unfolding path_round
  path_round-step k (hash, index) s' t t' h =
      let (x, t1, _, h1) = bind-inv e.read_32bytes _ t h in (x, ap (λ p. p.0) (sym (some-eq h1)))

  -- A proof is a way up from the leaf, as long as the tree is deep.
  pub read_merkle_tree_proof-climbs :
      (depth : ℕ) (leaf : Bytes) (given : Option ℕ) (t t' : e.State) (root : Bytes)
      → read_merkle_tree_proof depth leaf given t ≡ some (root, t')
      → (k : ℕ) × (siblings : List Bytes) × (length siblings ≡ depth)
        × (climb siblings k leaf ≡ root)
  unfolding read_merkle_tree_proof
  read_merkle_tree_proof-climbs depth leaf given t t' root h =
      let (k, t1, _, h1) = bind-inv (index_or_read given) _ t h in
      let (s, t2, loop, h2) = bind-inv (for_range depth 0 proof_round (leaf, k)) _ t1 h1 in
      let (siblings, len, end) =
        for_range-steps proof_round proof_step proof_round-step depth 0 (leaf, k) s t1 t2 loop in
      let (rest, up) = steps-climb siblings 0 leaf k in
      (
        k,
        siblings,
        len,
        ap (λ p. p.0) (sym up) ∙ (ap (λ p. p.0) (sym end) ∙ ap (λ p. p.0) (some-eq h2)),
      )

  -- A path is a way up from the transaction.
  pub read_path-climbs :
      (txid : Bytes) (t t' : e.State) (root : Bytes)
      → read_and_verify_bitcoin_merkle_path txid t ≡ some (root, t')
      → (k : ℕ) × (path : List Bytes) × (climb_double path k txid ≡ root)
  unfolding read_and_verify_bitcoin_merkle_path
  read_path-climbs txid t t' root h =
      let (k, t1, _, h1) = bind-inv e.read_u32 _ t h in
      let (levels, t2, _, h2) = bind-inv e.read_u32 _ t1 h1 in
      let (s, t3, loop, h3) = bind-inv (for_range levels 0 path_round (txid, k)) _ t2 h2 in
      let (path, _, end) =
        for_range-steps path_round path_step path_round-step levels 0 (txid, k) s t2 t3 loop in
      let (rest, up) = steps-climb_double path 0 txid k in
      (k, path, ap (λ p. p.0) (sym up) ∙ (ap (λ p. p.0) (sym end) ∙ ap (λ p. p.0) (some-eq h3)))
