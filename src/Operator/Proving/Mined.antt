-- ===== src/Operator/Proving/Mined.antt =====
-- A transaction in a block of the chain: what the operator writes of its inclusion, and what the circuit
-- reads of it.
use clementine_citeria.Common.{
  ℕ, ◌^◌, ◌<◌, ◌≡◌, refl, List, [], ◌∷◌, ◌++◌, some, none, inr, length, All,
}
use clementine_citeria.Common.Bytes.{Bytes, IsHash}
use clementine_citeria.Hash.{Crypto}
use clementine_citeria.Bitcoin.{IsHeader, BitcoinCrate}
use clementine_citeria.Env.{Environment}
use clementine_citeria.Env.Tape.{Item, u32, IsTape, Reads}
use clementine_citeria.Merkle.Levels.{node}
use clementine_citeria.Merkle.Tree.{MerkleTree}
use clementine_citeria.Merkle.Tree.Build.{Built}
use clementine_citeria.Merkle.Tree.Paths.{FirstAt, siblings_above}
use clementine_citeria.Circuit.Constants.{blockhash_merkle_tree_depth}
use clementine_citeria.Circuit.MerkleProof.{
  read_merkle_tree_proof, read_and_verify_bitcoin_merkle_path,
}
use clementine_citeria.Circuit.MerkleProof.Wire.{
  sibling_items, climb_double, read_and_verify_bitcoin_merkle_path-climb,
}
use clementine_citeria.Circuit.Blocks.{read_header_except_root_and_calculate_blockhash}
use clementine_citeria.Errors.{ok}
use clementine_citeria.Rpc.{Client, Block}
use clementine_citeria.Writer.Headers.{
  header_without_root_items, Writes-header_without_root, Reads-header_root,
}
use clementine_citeria.Writer.MerklePath.{path_of}
use clementine_citeria.Writer.MerklePath.Wire.{write_bitcoin_merkle_path, write_block-path}
use clementine_citeria.Writer.Proofs.{Writes-proof, Reads-proof}
use clementine_citeria.Operator.Proving.{MerkleBlocks, run, path_result, block_of, write_inclusion}
use clementine_citeria.Operator.Proving.Produces.{
  Produces, run-some, Produces-run, Produces-bind, Produces-after,
}

module _ ⦃c : Crypto⦄ ⦃b : BitcoinCrate⦄ ⦃r : Client⦄ ⦃m : MerkleBlocks⦄ where
  -- A transaction in a block whose hash is a leaf of the tree with the leaves `blocks`: the path that
  -- the crate's partial tree gives leads to the Merkle root of the block's header.
  pub record Mined (n : r.Node) (txid : Bytes) (blocks : List Bytes) (blockhash : Bytes)
      : Type 0 where
    pub block : Block
    pub found : block_of n blockhash ≡ ok block
    pub header : IsHeader block.header
    pub hash : b.block_hash block.header ≡ blockhash
    pub index : ℕ
    pub index_u32 : index < 2 ^ 32
    pub path : List Bytes
    pub one : (m.from_block block txid).extract_matches ≡ some (txid ∷ [], index ∷ [])
    pub path_found :
        path_of
          (m.from_block block txid).num_transactions
          (m.from_block block txid).hashes
          txid
          index
        ≡ some path
    pub path_hashes : All IsHash path
    pub path_len : length path < 2 ^ 32
    pub merkle_root : climb_double path index txid ≡ block.header.merkle_root
    pub position : ℕ
    pub first : FirstAt blockhash blocks position
    pub position_u32 : position < 2 ^ 32

  abbrev pub path_items :
      {n : r.Node} {txid blockhash : Bytes} {blocks : List Bytes}
      → Mined n txid blocks blockhash
      → List Item
  path_items mined = u32 mined.index ∷ u32 (length mined.path) ∷ sibling_items mined.path

  abbrev pub proof_items :
      {n : r.Node} {txid blockhash : Bytes} {blocks : List Bytes}
      → Mined n txid blocks blockhash
      → List Item
  proof_items {blocks = blocks} mined =
      u32 mined.position
      ∷ sibling_items (siblings_above blockhash_merkle_tree_depth 0 blocks mined.position)

  abbrev pub inclusion_items :
      {n : r.Node} {txid blockhash : Bytes} {blocks : List Bytes}
      → Mined n txid blocks blockhash
      → List Item
  inclusion_items mined =
      path_items mined ++ (header_without_root_items mined.block.header ++ proof_items mined)

  module _ ⦃e : Environment⦄ ⦃i : IsTape e⦄ where
    pub Produces-path :
        {n : r.Node} {txid blockhash : Bytes} {blocks : List Bytes}
        (mined : Mined n txid blocks blockhash)
        → Produces
            (run (write_bitcoin_merkle_path (m.from_block mined.block txid)))
            (path_items mined)
            (inr tt)
    Produces-path {txid = txid} mined = record {
      on = λ past rest. run-some _ _ _ (inr tt) (
          write_block-path (m.from_block mined.block txid) txid mined.index mined.path past rest
            mined.one mined.path_found mined.path_hashes mined.path_len);
    }

    pub Produces-inclusion :
        {n : r.Node} {txid blockhash : Bytes} {blocks : List Bytes} (t : MerkleTree)
        (mined : Mined n txid blocks blockhash)
        → Built blockhash_merkle_tree_depth t blocks
        → All IsHash blocks
        → Produces (write_inclusion n txid blockhash t) (inclusion_items mined) tt
    unfolding write_inclusion
    Produces-inclusion {n} {txid} {blockhash} {blocks} t mined built hashes =
        let header = mined.block.header in
        Produces-after (block_of n blockhash) _ _ mined.block tt mined.found (
          Produces-bind _ _ (path_items mined) _ (inr tt) tt (Produces-path mined) (
            Produces-after (path_result (inr tt)) _ _ tt tt refl (
              Produces-bind _ _ (header_without_root_items header) (proof_items mined) tt tt
                (Produces-run _ _ (Writes-header_without_root header))
                (Produces-run _ _ (
                  Writes-proof blockhash_merkle_tree_depth t blocks blockhash mined.position built
                    hashes mined.first)))))

    pub Reads-path :
        {n : r.Node} {txid blockhash : Bytes} {blocks : List Bytes}
        (mined : Mined n txid blocks blockhash)
        → Reads
            (read_and_verify_bitcoin_merkle_path txid)
            (path_items mined)
            mined.block.header.merkle_root
    Reads-path {txid = txid} mined = rw mined.merkle_root at (
        read_and_verify_bitcoin_merkle_path-climb mined.path txid mined.index mined.path_hashes
          mined.index_u32 mined.path_len)

    pub Reads-block_hash :
        {n : r.Node} {txid blockhash : Bytes} {blocks : List Bytes}
        (mined : Mined n txid blocks blockhash)
        → Reads
            (read_header_except_root_and_calculate_blockhash mined.block.header.merkle_root)
            (header_without_root_items mined.block.header)
            blockhash
    Reads-block_hash mined = rw mined.hash at (Reads-header_root mined.block.header mined.header)

    pub Reads-block_root :
        {n : r.Node} {txid blockhash : Bytes} {blocks : List Bytes} (t : MerkleTree)
        (mined : Mined n txid blocks blockhash)
        → Built blockhash_merkle_tree_depth t blocks
        → All IsHash blocks
        → Reads
            (read_merkle_tree_proof blockhash_merkle_tree_depth blockhash none)
            (proof_items mined)
            (node blockhash_merkle_tree_depth 0 0 blocks)
    Reads-block_root {blockhash = blockhash} {blocks = blocks} t mined built hashes =
        Reads-proof blockhash_merkle_tree_depth t blocks blockhash mined.position built hashes
          mined.first mined.position_u32 mined.position_u32
