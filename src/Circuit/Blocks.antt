-- ===== src/Circuit/Blocks.antt =====
-- The header chain, from circuits/src/bridge.rs.
use clementine_citeria.Common.{ℕ, ◌+◌, ◌-◌, ◌%◌, ◌^◌, ◌++◌, ◌==◌, if◌then◌else◌, replicate}
use clementine_citeria.Common.Bytes.{Bytes}
use clementine_citeria.Common.Words.{to_le_bytes}
use clementine_citeria.Hash.{Crypto, double_sha256_hash}
use clementine_citeria.Env.{Environment, Prog, pure, lift, ◌>>=◌, for_range}
use clementine_citeria.Merkle.Incremental
use clementine_citeria.Merkle.Incremental.{IncrementalMerkleTree}
use clementine_citeria.Circuit.Work.{validate_threshold_and_add_work}

-- `HeaderWithoutPrevBlockHash`, a tuple in the source.
pub record HeaderWithoutPrevBlockHash : Type 0 where
  pub version : ℕ
  pub merkle_root : Bytes
  pub time : ℕ
  pub bits : ℕ
  pub nonce : ℕ

-- The variables of the loops.
pub record Chain : Type 0 where
  pub total_work : ℕ
  pub curr_prev_block_hash : Bytes

pub record ChainWithTree : Type 0 where
  pub chain : Chain
  pub open chain use *
  pub lc_block_hash : Bytes
  pub imt : IncrementalMerkleTree

module _ ⦃c : Crypto⦄ where
  unfoldable pub calculate_next_block_hash : Bytes → HeaderWithoutPrevBlockHash → Bytes
  calculate_next_block_hash prev_block_hash h = double_sha256_hash (
      to_le_bytes 4 h.version
      ++ (prev_block_hash
          ++ (h.merkle_root
              ++ (to_le_bytes 4 h.time ++ (to_le_bytes 4 h.bits ++ to_le_bytes 4 h.nonce)))))

module _ ⦃c : Crypto⦄ ⦃e : Environment⦄ where
  unfoldable pub read_header_except_prev_blockhash : Prog HeaderWithoutPrevBlockHash
  read_header_except_prev_blockhash = do
    version ← e.read_i32
    merkle_root ← e.read_32bytes
    time ← e.read_u32
    bits ← e.read_u32
    nonce ← e.read_u32
    pure (record {
      version = version;
      merkle_root = merkle_root;
      time = time;
      bits = bits;
      nonce = nonce;
    })

  unfoldable pub read_header_except_root_and_calculate_blockhash : Bytes → Prog Bytes
  read_header_except_root_and_calculate_blockhash mt_root = do
    version ← e.read_i32
    prev_blockhash ← e.read_32bytes
    time ← e.read_u32
    bits ← e.read_u32
    nonce ← e.read_u32
    pure (
        double_sha256_hash (
          to_le_bytes 4 version
          ++ (prev_blockhash
              ++ (mt_root ++ (to_le_bytes 4 time ++ (to_le_bytes 4 bits ++ to_le_bytes 4 nonce))))))

  -- One round of the loop of `read_blocks_and_calculate_work`.
  unfoldable pub read_block : ℕ → Chain → Prog Chain
  read_block i s = do
    header ← read_header_except_prev_blockhash
    let curr_prev_block_hash = calculate_next_block_hash s.curr_prev_block_hash header
    total_work ← lift (
        validate_threshold_and_add_work (to_le_bytes 4 header.bits) curr_prev_block_hash
          s.total_work)
    pure (record { total_work = total_work; curr_prev_block_hash = curr_prev_block_hash })

  -- Returns the total work.
  unfoldable pub read_blocks_and_calculate_work : Bytes → Prog ℕ
  read_blocks_and_calculate_work start_prev_block_hash = do
    num_blocks ← e.read_u32
    s ←
        for_range num_blocks 0 read_block
          (record { total_work = 0; curr_prev_block_hash = start_prev_block_hash })
    pure s.total_work

  -- One round of the loop of `read_blocks_and_add_to_merkle_tree`. The subtraction
  -- `n - max_block_handle_ops` wraps, as in a release build.
  unfoldable pub read_block_and_add : ℕ → ℕ → ℕ → ChainWithTree → Prog ChainWithTree
  read_block_and_add n max_block_handle_ops i s = do
    header ← read_header_except_prev_blockhash
    let lc_block_hash =
        if i == (n + 2 ^ 32 - max_block_handle_ops) % 2 ^ 32
        then s.curr_prev_block_hash
        else s.lc_block_hash
    let curr_prev_block_hash = calculate_next_block_hash s.curr_prev_block_hash header
    let imt = Incremental.add s.imt curr_prev_block_hash
    total_work ← lift (
        validate_threshold_and_add_work (to_le_bytes 4 header.bits) curr_prev_block_hash
          s.total_work)
    pure (record {
      chain = record { total_work = total_work; curr_prev_block_hash = curr_prev_block_hash };
      lc_block_hash = lc_block_hash;
      imt = imt;
    })

  -- Returns the total work, the two block hashes and the tree that it was given, with the blocks.
  unfoldable pub read_blocks_and_add_to_merkle_tree :
      Bytes → IncrementalMerkleTree → ℕ → Prog ChainWithTree
  read_blocks_and_add_to_merkle_tree start_prev_block_hash imt max_block_handle_ops = do
    n ← e.read_u32
    for_range n 0 (read_block_and_add n max_block_handle_ops) (record {
      chain = record { total_work = 0; curr_prev_block_hash = start_prev_block_hash };
      lc_block_hash = replicate 32 0;
      imt = imt;
    })
