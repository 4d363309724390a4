-- ===== src/Writer/Headers/Trees.antt =====
-- The blocks of a period: the host's tree and the circuit's tree get the same hashes.
use clementine_citeria.Common.{
  ℕ, ◌+◌, ◌-◌, ◌^◌, ◌<◌, ◌≤◌, ◌≡◌, refl, arith, List, [], ◌∷◌, ◌++◌, append-nil, length, take, All,
  some,
}
use clementine_citeria.Common.Bytes.{Bytes}
use clementine_citeria.Hash.{Crypto}
use clementine_citeria.Env.{Environment}
use clementine_citeria.Env.Tape.{Item, u32, IsTape, items_all}
use clementine_citeria.Bitcoin.{Header, IsHeader, BitcoinCrate}
use clementine_citeria.Merkle.Incremental
use clementine_citeria.Merkle.Incremental.{IncrementalMerkleTree}
use clementine_citeria.Merkle.Tree.{MerkleTree}
use clementine_citeria.Merkle.Tree.Build
use clementine_citeria.Circuit.Blocks.{ChainWithTree, read_blocks_and_add_to_merkle_tree}
use clementine_citeria.Writer.{write_blocks_and_add_to_merkle_tree}
use clementine_citeria.Writer.Chain.{
  Linked, last_hash, chain_work, block_hashes, length-block_hashes,
}
use clementine_citeria.Writer.Headers.{header_items}
use clementine_citeria.Writer.Headers.Added.{write_blocks_and_add_lem, read_chain, Reads-blocks}

module _ ⦃c : Crypto⦄ ⦃e : Environment⦄ ⦃i : IsTape e⦄ ⦃b : BitcoinCrate⦄ where
  -- What the host and the circuit have after the headers of a period, where `m` blocks are kept back.
  pub record SamePeriod (depth m : ℕ) (xs : List Bytes) (hs : List Header) (start : Bytes)
      (work : ℕ) (mt : MerkleTree) (r : ChainWithTree) : Type 0 where
    pub host_tree : Build.Built depth mt (xs ++ block_hashes hs)
    pub circuit_tree : Incremental.Holds depth r.imt (xs ++ block_hashes hs)
    pub total_work_is : r.total_work ≡ work
    pub last_block : r.curr_prev_block_hash ≡ last_hash start hs
    -- the hash of the last block that is not kept back
    pub lc_block : r.lc_block_hash ≡ last_hash start (take (length hs - m) hs)

  -- After the host wrote a period's headers and the circuit read them, their two trees hold the same
  -- block hashes, the circuit has the chain's work, its last block hash and, as the light client's
  -- block hash, that of the last block but `m`: the chain is linked, its work is valid, there are at
  -- least `m` blocks and there is room for them in the trees.
  pub read_blocks-write_blocks_and_add :
      (depth m : ℕ) (xs : List Bytes) (hs : List Header) (start : Bytes) (work : ℕ)
      (mt : MerkleTree) (imt : IncrementalMerkleTree) (past : List Item)
      → Build.Built depth mt xs
      → Incremental.Holds depth imt xs
      → depth ≤ 32
      → length xs + length hs ≤ 2 ^ depth
      → length xs + length hs < 2 ^ 32
      → All IsHeader hs
      → Linked start hs
      → chain_work hs 0 ≡ some work
      → 0 < m
      → m ≤ length hs
      → (mt' : MerkleTree) × (r : ChainWithTree) × (s : e.State) × (s' : e.State)
        × (write_blocks_and_add_to_merkle_tree hs mt (i.tape past []) ≡ some (mt', s))
        × (read_blocks_and_add_to_merkle_tree start imt m s ≡ some (r, s'))
        × SamePeriod depth m xs hs start work mt' r
  read_blocks-write_blocks_and_add depth m xs hs start work mt imt past hmt himt deep room wide r
        linked valid pos enough =
      let len = length-block_hashes hs in
      let (mt', added, hmt') =
        Build.add_all-Built depth mt xs (block_hashes hs) hmt deep (omega (arith, len)) in
      let himt' =
        Incremental.add_all-Holds depth imt xs (block_hashes hs) himt (omega (arith, len))
          (omega (arith, len)) in
      let small : length hs < 2 ^ 32 = omega arith in
      let items = u32 (length hs) ∷ items_all header_items hs in
      (
        mt',
        read_chain m start imt hs work,
        i.tape past items,
        i.tape (past ++ items) [],
        write_blocks_and_add_lem hs mt mt' past [] r small added,
        rw append-nil at
            ((Reads-blocks m hs start work imt r linked valid pos enough small).run past []),
        record {
          host_tree = hmt';
          circuit_tree = himt';
          total_work_is = refl;
          last_block = refl;
          lc_block = refl;
        },
      )
