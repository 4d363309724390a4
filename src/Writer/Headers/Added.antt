-- ===== src/Writer/Headers/Added.antt =====
-- The headers of a period, on their way into the two trees of block hashes.
use clementine_citeria.Common.{
  ℕ, zero, suc, ◌+◌, ◌-◌, ◌%◌, ◌^◌, ◌<◌, ◌≤◌, ◌≡◌, refl, ◌∙◌, arith, List, [], ◌∷◌, ◌++◌,
  append_assoc, append-nil, length, take, All, some, >>=-eq-some, some-eq, ◌==◌, if◌then◌else◌,
  true, false, replicate,
}
use clementine_citeria.Common.Bytes.{Bytes}
use clementine_citeria.Common.Words.{to_le_bytes}
use clementine_citeria.Hash.{Crypto}
use clementine_citeria.Env.{Environment, pure, bind-run, for_range}
use clementine_citeria.Env.Tape.{
  Item, u32, IsTape, Reads, Reads-pure, Reads-bind, Reads-bind-nil, Reads-u32, items_all,
}
use clementine_citeria.Bitcoin.{Header, IsHeader, BitcoinCrate}
use clementine_citeria.Merkle.Incremental
use clementine_citeria.Merkle.Incremental.{IncrementalMerkleTree}
use clementine_citeria.Merkle.Tree
use clementine_citeria.Merkle.Tree.{MerkleTree}
use clementine_citeria.Circuit.Work.{validate_threshold_and_add_work}
use clementine_citeria.Circuit.Blocks.{
  ChainWithTree, read_header_except_prev_blockhash, read_block_and_add,
  read_blocks_and_add_to_merkle_tree,
}
use clementine_citeria.Writer.{
  write_block_header_without_prev, write_each_and_add, write_blocks_and_add_to_merkle_tree,
}
use clementine_citeria.Writer.Chain.{
  without_prev, Linked, last_hash, chain_work, next_block_hash-linked, block_hashes,
}
use clementine_citeria.Writer.Headers.{header_items, Writes-header, Reads-header}

module _ ⦃c : Crypto⦄ ⦃b : BitcoinCrate⦄ where
  -- `lc_block_hash` after the blocks from the index `k` on, where the block `t` sets it.
  unfoldable pub lc_after : ℕ → ℕ → Bytes → Bytes → List Header → Bytes
  lc_after t k curr lc [] = lc
  lc_after t k curr lc (h ∷ hs) =
      lc_after t (suc k) (b.block_hash h) (if k == t then curr else lc) hs

  lc_after-past :
      (t k : ℕ) (curr lc : Bytes) (hs : List Header) → t < k → lc_after t k curr lc hs ≡ lc
  unfolding lc_after
  lc_after-past t k curr lc [] h = refl
  lc_after-past t k curr lc (x ∷ hs) h =
      let other : (k == t) ≡ false = ground arith in
      rw other (lc_after-past t (suc k) (b.block_hash x) lc hs (omega arith))

  -- The block `k + d` sets it to the hash of the block before it.
  lc_after-set :
      (t d k : ℕ) (curr lc : Bytes) (hs : List Header)
      → t ≡ k + d
      → d < length hs
      → lc_after t k curr lc hs ≡ last_hash curr (take d hs)
  unfolding lc_after last_hash
  lc_after-set t d k curr lc [] e h = absurd (omega arith)
  lc_after-set t zero k curr lc (x ∷ hs) e h =
      let same : (k == t) ≡ true = ground arith in
      rw same (lc_after-past t (suc k) (b.block_hash x) curr hs (omega arith))
  lc_after-set t (suc d) k curr lc (x ∷ hs) e h =
      let other : (k == t) ≡ false = ground arith in
      rw other (lc_after-set t d (suc k) (b.block_hash x) lc hs (omega arith) (omega arith))

  abbrev pub lc_index : ℕ → ℕ → ℕ
  lc_index n max_block_handle_ops = (n + 2 ^ 32 - max_block_handle_ops) % 2 ^ 32

  abbrev after_block : ℕ → ℕ → ℕ → ChainWithTree → Header → ℕ → ChainWithTree
  after_block n m k s h work = record {
    chain = record { total_work = work; curr_prev_block_hash = b.block_hash h };
    lc_block_hash = if k == lc_index n m then s.curr_prev_block_hash else s.lc_block_hash;
    imt = Incremental.add s.imt (b.block_hash h);
  }

module _ ⦃c : Crypto⦄ ⦃e : Environment⦄ ⦃i : IsTape e⦄ ⦃b : BitcoinCrate⦄ where
  Reads-block_and_add :
      (n m k : ℕ) (s : ChainWithTree) (h : Header) (work : ℕ)
      → IsHeader h
      → h.prev_blockhash ≡ s.curr_prev_block_hash
      → validate_threshold_and_add_work (to_le_bytes 4 h.bits) (b.block_hash h) s.total_work
        ≡ some work
      → Reads (read_block_and_add n m k s) (header_items h) (after_block n m k s h work)
  unfolding read_block_and_add
  Reads-block_and_add n m k s h work r linked valid =
      Reads-bind-nil read_header_except_prev_blockhash _ (header_items h) (without_prev h) _
        (Reads-header h r)
        (rw (next_block_hash-linked s.curr_prev_block_hash h linked, valid)
          (Reads-bind (pure work) _ [] [] work _ (Reads-pure work) (Reads-pure _)))

  Reads-blocks_and_add :
      (n m : ℕ) (hs : List Header) (k : ℕ) (s : ChainWithTree) (work : ℕ)
      → All IsHeader hs
      → Linked s.curr_prev_block_hash hs
      → chain_work hs s.total_work ≡ some work
      → Reads
          (for_range (length hs) k (read_block_and_add n m) s)
          (items_all header_items hs)
          (record {
            chain = record {
              total_work = work;
              curr_prev_block_hash = last_hash s.curr_prev_block_hash hs;
            };
            lc_block_hash = lc_after (lc_index n m) k s.curr_prev_block_hash s.lc_block_hash hs;
            imt = Incremental.add_all s.imt (block_hashes hs);
          })
  unfolding for_range chain_work last_hash lc_after block_hashes
  Reads-blocks_and_add n m [] k s work r linked valid =
      rw (← some-eq valid) (unfold Incremental.add_all in Reads-pure s)
  Reads-blocks_and_add n m (h ∷ hs) k s work (rh, r) (lh, linked) valid =
      let (work', valid_h, valid') =
        >>=-eq-some
          (validate_threshold_and_add_work (to_le_bytes 4 h.bits) (b.block_hash h) s.total_work) _
          valid in
      rw (add_all-cons s.imt (b.block_hash h) (block_hashes hs)) (
        Reads-bind (read_block_and_add n m k s)
          (for_range (length hs) (suc k) (read_block_and_add n m)) (header_items h)
          (items_all header_items hs) _ _ (Reads-block_and_add n m k s h work' rh lh valid_h)
          (Reads-blocks_and_add n m hs (suc k) (after_block n m k s h work') work r linked valid'))
    where
      add_all-cons :
          (t : IncrementalMerkleTree) (a : Bytes) (xs : List Bytes)
          → Incremental.add_all t (a ∷ xs) ≡ Incremental.add_all (Incremental.add t a) xs
      add_all-cons t a xs = unfold Incremental.add_all in refl

  -- The host's writer of the headers is the tree's `add_all`, next to the written values.
  write_each_and_add-add_all :
      (hs : List Header) (mt mt' : MerkleTree) (past rest : List Item)
      → All IsHeader hs
      → Tree.add_all mt (block_hashes hs) ≡ some mt'
      → write_each_and_add hs mt (i.tape past rest)
        ≡ some (mt', i.tape past (rest ++ items_all header_items hs))
  unfolding write_each_and_add Tree.add_all block_hashes
  write_each_and_add-add_all [] mt mt' past rest r added = rw (append-nil, some-eq added)
  write_each_and_add-add_all (h ∷ hs) mt mt' past rest (rh, r) added =
      let (mt1, added_h, added') = >>=-eq-some (Tree.add mt (b.block_hash h)) _ added in
      let next = write_each_and_add-add_all hs mt1 mt' past (rest ++ header_items h) r added' in
      bind-run (write_block_header_without_prev h) _ (i.tape past rest)
        ((Writes-header h rh).run past rest)
      ∙ rw added_h (
          bind-run (pure mt1) _ (i.tape past (rest ++ header_items h)) refl
          ∙ rw (append_assoc rest (header_items h) (items_all header_items hs)) at next)

  -- The host's writer of a period's headers.
  pub write_blocks_and_add_lem :
      (hs : List Header) (mt mt' : MerkleTree) (past rest : List Item)
      → All IsHeader hs
      → length hs < 2 ^ 32
      → Tree.add_all mt (block_hashes hs) ≡ some mt'
      → write_blocks_and_add_to_merkle_tree hs mt (i.tape past rest)
        ≡ some (mt', i.tape past (rest ++ u32 (length hs) ∷ items_all header_items hs))
  unfolding write_blocks_and_add_to_merkle_tree
  write_blocks_and_add_lem hs mt mt' past rest r small added =
      let same : length hs % 2 ^ 32 ≡ length hs = omega arith in
      let items = items_all header_items hs in
      rw same (
        bind-run (e.write_u32 (length hs)) (λ _. write_each_and_add hs mt) (i.tape past rest)
          (i.write_u32_last past rest (length hs))
        ∙ rw (append_assoc rest (u32 (length hs) ∷ []) items) at
            (write_each_and_add-add_all hs mt mt' past (rest ++ u32 (length hs) ∷ []) r added))

  -- What the circuit has after a period's headers, where `m` blocks are kept back.
  abbrev pub read_chain : ℕ → Bytes → IncrementalMerkleTree → List Header → ℕ → ChainWithTree
  read_chain m start imt hs work = record {
    chain = record { total_work = work; curr_prev_block_hash = last_hash start hs };
    lc_block_hash = last_hash start (take (length hs - m) hs);
    imt = Incremental.add_all imt (block_hashes hs);
  }

  pub Reads-blocks :
      (m : ℕ) (hs : List Header) (start : Bytes) (work : ℕ) (imt : IncrementalMerkleTree)
      → All IsHeader hs
      → Linked start hs
      → chain_work hs 0 ≡ some work
      → 0 < m
      → m ≤ length hs
      → length hs < 2 ^ 32
      → Reads
          (read_blocks_and_add_to_merkle_tree start imt m)
          (u32 (length hs) ∷ items_all header_items hs)
          (read_chain m start imt hs work)
  unfolding read_blocks_and_add_to_merkle_tree
  Reads-blocks m hs start work imt r linked valid pos enough small =
      let target : lc_index (length hs) m ≡ 0 + (length hs - m) = omega arith in
      let first : ChainWithTree = record {
        chain = record { total_work = 0; curr_prev_block_hash = start };
        lc_block_hash = replicate 32 0;
        imt = imt;
      } in
      rw
        (lc_after-set (lc_index (length hs) m) (length hs - m) 0 start (replicate 32 0) hs target
          (omega arith))
        at
        (Reads-bind e.read_u32 (λ n. for_range n 0 (read_block_and_add n m) first)
          (u32 (length hs) ∷ []) (items_all header_items hs) (length hs) _
          (Reads-u32 (length hs) small)
          (Reads-blocks_and_add (length hs) m hs 0 first work r linked valid))
