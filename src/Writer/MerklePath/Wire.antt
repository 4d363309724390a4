-- ===== src/Writer/MerklePath/Wire.antt =====
-- `write_bitcoin_merkle_path` of core/src/env_writer.rs, and the circuit's reading of what it wrote.
use clementine_citeria.Common.{
  ℕ, ◌+◌, ◌-◌, ◌%◌, ◌^◌, ◌<◌, ◌≤◌, ◌≡◌, refl, ◌∙◌, List, [], ◌∷◌, ◌++◌, append-nil, map, Option,
  none, some, length, replicate, arith, ◌⊎◌, inl, inr, All,
}
use clementine_citeria.Common.Bytes.{Bytes, IsHash}
use clementine_citeria.Hash.{Crypto}
use clementine_citeria.Env.{Environment, Prog, pure, lift, ◌>>=◌, ◌>>◌, bind-run, for_each}
use clementine_citeria.Env.Tape.{
  Item, bytes32, u32, IsTape, Writes, Writes-then, Writes-32bytes, Writes-u32, Writes-for_each,
}
use clementine_citeria.Circuit.MerkleProof.{read_and_verify_bitcoin_merkle_path}
use clementine_citeria.Circuit.MerkleProof.Wire.{
  sibling_items, read_and_verify_bitcoin_merkle_path-climb,
}
use clementine_citeria.Writer.MerklePath.{
  MerkleBlock, PathError, ilog2, reverse, path_of, get_merkle_path_from_merkle_block,
}
use clementine_citeria.Writer.MerklePath.Order.{flatten}
use clementine_citeria.Writer.MerklePath.Filled.{
  present, resolve, block_root, climb_double-resolve, path_of-resolve, length-resolve,
  resolve-IsHash,
}

module _ ⦃e : Environment⦄ where
  unfoldable pub write_path : List Bytes → ℕ → Prog (Unit {0})
  write_path path index = do
    e.write_u32 index
    e.write_u32 (length path % 2 ^ 32)
    for_each path e.write_32bytes

  unfoldable pub write_result :
      ⦃c : Crypto⦄ → PathError ⊎ (List Bytes × ℕ) → Prog (PathError ⊎ Unit {0})
  write_result (inl error) = pure (inl error)
  write_result (inr (path, index)) = write_path path index >>= λ u. pure (inr u)

  -- The `MerkleBlock` of the block and the transaction is an argument.
  unfoldable pub write_bitcoin_merkle_path :
      ⦃c : Crypto⦄ → MerkleBlock → Prog (PathError ⊎ Unit {0})
  write_bitcoin_merkle_path merkle_block = do
    result ← lift (get_merkle_path_from_merkle_block merkle_block)
    write_result result

module _ ⦃c : Crypto⦄ ⦃e : Environment⦄ ⦃i : IsTape e⦄ where
  Writes-path :
      (path : List Bytes) (index : ℕ)
      → All IsHash path
      → length path < 2 ^ 32
      → Writes (write_path path index) (u32 index ∷ u32 (length path) ∷ sibling_items path)
  unfolding write_path
  Writes-path path index h small =
      let same : length path % 2 ^ 32 ≡ length path = omega arith in
      rw same (
        Writes-then (e.write_u32 index) _ (u32 index ∷ []) _ (Writes-u32 index) (
          Writes-then (e.write_u32 (length path)) _ (u32 (length path) ∷ []) _
            (Writes-u32 (length path))
            (Writes-for_each e.write_32bytes (λ b. bytes32 b ∷ []) IsHash (λ b hb. Writes-32bytes b)
              path h)))

  pub write_block-path :
      (mb : MerkleBlock) (txid : Bytes) (index : ℕ) (path : List Bytes) (past rest : List Item)
      → mb.extract_matches ≡ some (txid ∷ [], index ∷ [])
      → path_of mb.num_transactions mb.hashes txid index ≡ some path
      → All IsHash path
      → length path < 2 ^ 32
      → write_bitcoin_merkle_path mb (i.tape past rest)
        ≡ some (inr tt, i.tape past (rest ++ u32 index ∷ u32 (length path) ∷ sibling_items path))
  unfolding write_bitcoin_merkle_path get_merkle_path_from_merkle_block write_result
  write_block-path mb txid index path past rest one found h small =
      rw (one, found)
        (bind-run (pure (inr (path, index))) _ (i.tape past rest) refl
          ∙ bind-run (write_path path index) _ (i.tape past rest)
              ((Writes-path path index h small).run past rest))

  -- The circuit reads from the path that the host wrote of a transaction the root of the block's tree:
  -- the block has one match, its hashes are in the order of a partial Merkle tree with as many levels
  -- as `ss`, less the siblings that are missing, and all are 32 bytes.
  pub read_path-write_path :
      (mb : MerkleBlock) (txid : Bytes) (index log : ℕ) (ss : List (Option Bytes))
      (past : List Item)
      → mb.extract_matches ≡ some (txid ∷ [], index ∷ [])
      → ilog2 ((mb.num_transactions + 2 ^ 32 - 1) % 2 ^ 32) ≡ some log
      → length ss ≡ log + 1
      → length ss ≤ 32
      → 2 ^ length ss ≤ 2 ^ 32
      → map some mb.hashes ++ replicate (log + 1 + 1 - length mb.hashes) none
        ≡ flatten (reverse ss) index (some txid)
      → IsHash txid
      → All IsHash (present ss)
      → index < 2 ^ 32
      → (s s' : e.State) × (write_bitcoin_merkle_path mb (i.tape past []) ≡ some (inr tt, s))
        × (read_and_verify_bitcoin_merkle_path txid s ≡ some (block_root index txid ss, s'))
  read_path-write_path mb txid index log ss past one depth levels few small order ht hs hi =
      let path = resolve index txid ss in
      let found =
        path_of-resolve mb.num_transactions mb.hashes txid index log ss depth levels small order in
      let hashes = resolve-IsHash ss index txid ht hs in
      let short : length path < 2 ^ 32 = omega (arith, length-resolve ss index txid) in
      (
        _,
        _,
        write_block-path mb txid index path past [] one found hashes short,
        rw (climb_double-resolve ss index txid, append-nil) at
            ((read_and_verify_bitcoin_merkle_path-climb path txid index hashes hi short).run past
              []),
      )
