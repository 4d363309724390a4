-- ===== src/Writer/Headers.antt =====
-- A header chain from `write_blocks` and `write_blocks_and_add_to_merkle_tree` to the circuit.
pub mod Added
pub mod Trees
use clementine_citeria.Common.{
  ℕ, zero, suc, ◌+◌, ◌-◌, ◌%◌, ◌^◌, ◌<◌, ◌≤◌, ◌≡◌, refl, ap, sym, ◌∙◌, arith, List, [], ◌∷◌, ◌++◌,
  length, All, some, none, Option, >>=-eq-some, some-eq,
}
use clementine_citeria.Common.Bytes.{Bytes, IsHash}
use clementine_citeria.Common.Words.{to_le_bytes}
use clementine_citeria.Hash.{Crypto, double_sha256_hash}
use clementine_citeria.Env.{Environment, Prog, pure, lift, ◌>>=◌, bind-run, for_range, for_each}
use clementine_citeria.Env.Tape.{
  Item, bytes32, u32, i32, IsTape, Reads, Writes, Reads-pure, Reads-bind, Reads-bind-nil,
  Reads-then-pure, Reads-32bytes, Reads-u32, Reads-i32, Writes-then, Writes-32bytes, Writes-u32,
  Writes-i32, Writes-for_each, Reads-Writes, items_all,
}
use clementine_citeria.Bitcoin.{Header, IsHeader, BitcoinCrate}
use clementine_citeria.Circuit.Work.{validate_threshold_and_add_work}
use clementine_citeria.Circuit.Blocks.{
  HeaderWithoutPrevBlockHash, Chain, calculate_next_block_hash, read_header_except_prev_blockhash,
  read_header_except_root_and_calculate_blockhash, read_block, read_blocks_and_calculate_work,
}
use clementine_citeria.Writer.Chain.{
  without_prev, Linked, last_hash, chain_work, next_block_hash-linked,
}
use clementine_citeria.Writer.{
  write_block_header_without_prev, write_block_header_without_mt_root, write_blocks,
}

abbrev pub header_items : Header → List Item
header_items h = i32 h.version ∷ bytes32 h.merkle_root ∷ u32 h.time ∷ u32 h.bits ∷ u32 h.nonce ∷ []

abbrev pub header_without_root_items : Header → List Item
header_without_root_items h =
    i32 h.version ∷ bytes32 h.prev_blockhash ∷ u32 h.time ∷ u32 h.bits ∷ u32 h.nonce ∷ []

module _ ⦃e : Environment⦄ ⦃i : IsTape e⦄ where
  pub Writes-header :
      (h : Header) → IsHeader h → Writes (write_block_header_without_prev h) (header_items h)
  unfolding write_block_header_without_prev
  Writes-header h _ =
      Writes-then (e.write_i32 h.version) _ (i32 h.version ∷ []) _ (Writes-i32 h.version) (
        Writes-then (e.write_32bytes h.merkle_root) _ (bytes32 h.merkle_root ∷ []) _
          (Writes-32bytes h.merkle_root)
          (Writes-then (e.write_u32 h.time) _ (u32 h.time ∷ []) _ (Writes-u32 h.time) (
            Writes-then (e.write_u32 h.bits) _ (u32 h.bits ∷ []) _ (Writes-u32 h.bits)
              (Writes-u32 h.nonce))))

  pub Writes-header_without_root :
      (h : Header) → Writes (write_block_header_without_mt_root h) (header_without_root_items h)
  unfolding write_block_header_without_mt_root
  Writes-header_without_root h =
      Writes-then (e.write_i32 h.version) _ (i32 h.version ∷ []) _ (Writes-i32 h.version) (
        Writes-then (e.write_32bytes h.prev_blockhash) _ (bytes32 h.prev_blockhash ∷ []) _
          (Writes-32bytes h.prev_blockhash)
          (Writes-then (e.write_u32 h.time) _ (u32 h.time ∷ []) _ (Writes-u32 h.time) (
            Writes-then (e.write_u32 h.bits) _ (u32 h.bits ∷ []) _ (Writes-u32 h.bits)
              (Writes-u32 h.nonce))))

module _ ⦃c : Crypto⦄ ⦃e : Environment⦄ ⦃i : IsTape e⦄ where
  pub Reads-header :
      (h : Header)
      → IsHeader h
      → Reads read_header_except_prev_blockhash (header_items h) (without_prev h)
  unfolding read_header_except_prev_blockhash
  Reads-header h r =
      Reads-bind e.read_i32 _ (i32 h.version ∷ []) _ h.version _ (Reads-i32 h.version r.version_i32)
        (Reads-bind e.read_32bytes _ (bytes32 h.merkle_root ∷ []) _ h.merkle_root _
          (Reads-32bytes h.merkle_root r.merkle_root_hash)
          (Reads-bind e.read_u32 _ (u32 h.time ∷ []) _ h.time _ (Reads-u32 h.time r.time_u32) (
            Reads-bind e.read_u32 _ (u32 h.bits ∷ []) _ h.bits _ (Reads-u32 h.bits r.bits_u32) (
              Reads-bind e.read_u32 _ (u32 h.nonce ∷ []) _ h.nonce _ (Reads-u32 h.nonce r.nonce_u32)
                (Reads-pure _)))))

module _ ⦃c : Crypto⦄ ⦃e : Environment⦄ ⦃i : IsTape e⦄ ⦃b : BitcoinCrate⦄ where
  pub Reads-header_root :
      (h : Header)
      → IsHeader h
      → Reads
          (read_header_except_root_and_calculate_blockhash h.merkle_root)
          (header_without_root_items h)
          (b.block_hash h)
  unfolding read_header_except_root_and_calculate_blockhash
  Reads-header_root h r = rw (b.block_hash_encoding h) (
      Reads-bind e.read_i32 _ (i32 h.version ∷ []) _ h.version _ (Reads-i32 h.version r.version_i32)
        (Reads-bind e.read_32bytes _ (bytes32 h.prev_blockhash ∷ []) _ h.prev_blockhash _
          (Reads-32bytes h.prev_blockhash r.prev_blockhash_hash)
          (Reads-bind e.read_u32 _ (u32 h.time ∷ []) _ h.time _ (Reads-u32 h.time r.time_u32) (
            Reads-bind e.read_u32 _ (u32 h.bits ∷ []) _ h.bits _ (Reads-u32 h.bits r.bits_u32) (
              Reads-bind e.read_u32 _ (u32 h.nonce ∷ []) _ h.nonce _ (Reads-u32 h.nonce r.nonce_u32)
                (Reads-pure _))))))

  -- The circuit computes the block's hash from the header that the host wrote without its Merkle
  -- root and from that root.
  pub read_header-write_header :
      (h : Header) (past : List Item)
      → IsHeader h
      → (write_block_header_without_mt_root h >>= λ _.
            read_header_except_root_and_calculate_blockhash h.merkle_root)
          (i.tape past [])
        ≡ some (b.block_hash h, i.tape (past ++ header_without_root_items h) [])
  read_header-write_header h past r =
      Reads-Writes (write_block_header_without_mt_root h)
        (read_header_except_root_and_calculate_blockhash h.merkle_root)
        (header_without_root_items h) (b.block_hash h) (Writes-header_without_root h)
        (Reads-header_root h r) past

  Reads-block :
      (k : ℕ) (s : Chain) (h : Header) (work : ℕ)
      → IsHeader h
      → h.prev_blockhash ≡ s.curr_prev_block_hash
      → validate_threshold_and_add_work (to_le_bytes 4 h.bits) (b.block_hash h) s.total_work
        ≡ some work
      → Reads
          (read_block k s)
          (header_items h)
          (record { total_work = work; curr_prev_block_hash = b.block_hash h })
  unfolding read_block
  Reads-block k s h work r linked valid =
      Reads-bind-nil read_header_except_prev_blockhash _ (header_items h) (without_prev h) _
        (Reads-header h r)
        (rw (next_block_hash-linked s.curr_prev_block_hash h linked, valid)
          (Reads-bind (pure work) _ [] [] work _ (Reads-pure work) (Reads-pure _)))

  Reads-blocks :
      (hs : List Header) (k : ℕ) (s : Chain) (work : ℕ)
      → All IsHeader hs
      → Linked s.curr_prev_block_hash hs
      → chain_work hs s.total_work ≡ some work
      → Reads
          (for_range (length hs) k read_block s)
          (items_all header_items hs)
          (record { total_work = work; curr_prev_block_hash = last_hash s.curr_prev_block_hash hs })
  unfolding for_range chain_work last_hash
  Reads-blocks [] k s work r linked valid = rw (← some-eq valid) (Reads-pure s)
  Reads-blocks (h ∷ hs) k s work (rh, r) (lh, linked) valid =
      let (work', valid_h, valid') =
        >>=-eq-some
          (validate_threshold_and_add_work (to_le_bytes 4 h.bits) (b.block_hash h) s.total_work) _
          valid in
      Reads-bind (read_block k s) (for_range (length hs) (suc k) read_block) (header_items h)
        (items_all header_items hs) _ _ (Reads-block k s h work' rh lh valid_h)
        (Reads-blocks hs (suc k)
          (record { total_work = work'; curr_prev_block_hash = b.block_hash h }) work r linked
          valid')

  -- The circuit reads from the headers that the host wrote the work of the chain: the chain follows
  -- the block that the circuit starts from, and each header's proof of work is valid.
  pub read_blocks-write_blocks :
      (hs : List Header) (start : Bytes) (work : ℕ) (past : List Item)
      → All IsHeader hs
      → length hs < 2 ^ 32
      → Linked start hs
      → chain_work hs 0 ≡ some work
      → (write_blocks hs >>= λ _. read_blocks_and_calculate_work start) (i.tape past [])
        ≡ some (work, i.tape (past ++ u32 (length hs) ∷ items_all header_items hs) [])
  unfolding write_blocks read_blocks_and_calculate_work
  read_blocks-write_blocks hs start work past r small linked valid =
      let same : length hs % 2 ^ 32 ≡ length hs = omega arith in
      rw same (
        Reads-Writes _ _ (u32 (length hs) ∷ items_all header_items hs) work
          (Writes-then (e.write_u32 (length hs)) _ (u32 (length hs) ∷ []) _ (Writes-u32 (length hs))
            (Writes-for_each write_block_header_without_prev header_items IsHeader Writes-header hs
              r))
          (Reads-bind e.read_u32 _ (u32 (length hs) ∷ []) _ (length hs) _
            (Reads-u32 (length hs) small)
            (Reads-then-pure
              (for_range (length hs) 0 read_block
                (record { total_work = 0; curr_prev_block_hash = start }))
              (items_all header_items hs) (λ s. s.total_work) _
              (Reads-blocks hs 0 (record { total_work = 0; curr_prev_block_hash = start }) work r
                linked valid)))
          past)
