-- ===== src/Writer.antt =====
-- `ENVWriter` of core/src/env_writer.rs: what the host writes for the circuit to read.
pub mod Chunks
pub mod Transactions
pub mod MerklePath
pub mod Proofs
pub mod Chain
pub mod Headers
use clementine_citeria.Common.{
  ℕ, zero, suc, ◌+◌, ◌-◌, ◌*◌, ◌/◌, ◌%◌, ◌^◌, List, [], ◌∷◌, ◌++◌, Option, none, some, Bool, true,
  false, ◌&&◌, length, take, drop, ltb, ◌==◌, if◌then◌else◌, replicate, get_or,
}
use clementine_citeria.Common.Bytes.{Bytes}
use clementine_citeria.Hash.{Crypto}
use clementine_citeria.Env.{Environment, Prog, pure, lift, ◌>>=◌, ◌>>◌, for_range, for_each}
use clementine_citeria.Env.Mock.{slice?}
use clementine_citeria.Bitcoin.{Header, TxIn, TxOut, Transaction, BitcoinCrate}
use clementine_citeria.Merkle.Tree
use clementine_citeria.Merkle.Tree.{MerkleTree, index_of, path}

-- The condition of the `if` on an output's script.
unfoldable pub is_taproot : Bytes → Bool
is_taproot script = length script == 34 && (get_or script 0 0 == 81 && get_or script 1 0 == 32)

module _ ⦃e : Environment⦄ where
  unfoldable pub write_block_header_without_prev : Header → Prog (Unit {0})
  write_block_header_without_prev header = do
    e.write_i32 header.version
    e.write_32bytes header.merkle_root
    e.write_u32 header.time
    e.write_u32 header.bits
    e.write_u32 header.nonce

  unfoldable pub write_block_header_without_mt_root : Header → Prog (Unit {0})
  write_block_header_without_mt_root header = do
    e.write_i32 header.version
    e.write_32bytes header.prev_blockhash
    e.write_u32 header.time
    e.write_u32 header.bits
    e.write_u32 header.nonce

  -- One round of `for i in 0..chunk_num`.
  unfoldable pub write_chunk : Bytes → ℕ → Unit {0} → Prog (Unit {0})
  write_chunk bytes i u = do chunk ← lift (slice? (i * 32) 32 bytes); e.write_32bytes chunk

  -- The chunks of 32 bytes of a script, the last one padded, which the source has once for the
  -- inputs and once for the outputs.
  unfoldable pub write_chunks : Bytes → Prog (Unit {0})
  write_chunks bytes = do
    let chunk_num = length bytes % 2 ^ 32 / 32
    let remainder = length bytes % 2 ^ 32 % 32
    for_range chunk_num 0 (write_chunk bytes) tt
    if ltb 0 remainder
        then e.write_32bytes (drop (chunk_num * 32) bytes ++ replicate (32 - remainder) 0)
        else pure tt

  unfoldable pub write_input : TxIn → Prog (Unit {0})
  write_input input = do
    e.write_32bytes input.txid
    e.write_u32 input.vout
    e.write_u32 input.sequence
    e.write_u32 (length input.script_sig % 2 ^ 32)
    write_chunks input.script_sig

  unfoldable pub write_output : TxOut → Prog (Unit {0})
  write_output output = do
    e.write_u64 output.value
    if is_taproot output.script_pubkey
        then (do e.write_u32 0; e.write_32bytes (take 32 (drop 2 output.script_pubkey)))
        else (do
          e.write_u32 (length output.script_pubkey % 2 ^ 32)
          write_chunks output.script_pubkey)

  unfoldable pub write_tx_to_env : Transaction → Prog (Unit {0})
  write_tx_to_env tx = do
    e.write_i32 tx.version
    e.write_u32 (length tx.input % 2 ^ 32)
    e.write_u32 (length tx.output % 2 ^ 32)
    e.write_u32 tx.lock_time
    for_each tx.input write_input
    for_each tx.output write_output

  unfoldable pub write_blocks : List Header → Prog (Unit {0})
  write_blocks block_headers = do
    e.write_u32 (length block_headers % 2 ^ 32)
    for_each block_headers write_block_header_without_prev

  unfoldable pub write_preimages : Bytes → List Bytes → Prog (Unit {0})
  write_preimages operator_pk preimages = do
    e.write_u32 (length preimages % 2 ^ 32)
    e.write_32bytes operator_pk
    for_each preimages e.write_32bytes

module _ ⦃c : Crypto⦄ ⦃e : Environment⦄ where
  -- `expect("Leaf not found in the Merkle tree")`; it writes the index that it looked up.
  unfoldable pub found_index : Bytes → Option ℕ → MerkleTree → Prog ℕ
  found_index leaf none mt = do
    found ← lift (index_of mt leaf)
    idx ← lift found
    e.write_u32 idx
    pure idx
  found_index leaf (some i) mt = pure i

  unfoldable pub write_merkle_tree_proof : ℕ → Bytes → Option ℕ → MerkleTree → Prog (Unit {0})
  write_merkle_tree_proof depth leaf index mt = do
    idx ← found_index leaf index mt
    siblings ← lift (path depth mt idx)
    for_each siblings e.write_32bytes

  module _ ⦃b : BitcoinCrate⦄ where
    -- `for header in block_headers.iter()`: writes each header and adds its hash to the tree.
    unfoldable pub write_each_and_add : List Header → MerkleTree → Prog MerkleTree
    write_each_and_add [] mt = pure mt
    write_each_and_add (header ∷ rest) mt = do
      write_block_header_without_prev header
      mt' ← lift (Tree.add mt (b.block_hash header))
      write_each_and_add rest mt'

    unfoldable pub write_blocks_and_add_to_merkle_tree : List Header → MerkleTree → Prog MerkleTree
    write_blocks_and_add_to_merkle_tree block_headers mt = do
      e.write_u32 (length block_headers % 2 ^ 32)
      write_each_and_add block_headers mt
