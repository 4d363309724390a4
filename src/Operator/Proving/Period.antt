-- ===== src/Operator/Proving/Period.antt =====
-- One period of `prove`, and the circuit's `read_period` of what it wrote.
use clementine_citeria.Common.{
  ℕ, zero, suc, ◌+◌, ◌-◌, ◌%◌, ◌^◌, ◌<◌, ◌≡◌, refl, ap, sym, ◌∙◌, subst, List, [], ◌∷◌, ◌++◌, some,
  Bool, true, false, if◌then◌else◌, take, length, All, get_elem?, arith,
}
use clementine_citeria.Common.Bytes.{Bytes, IsHash}
use clementine_citeria.Hash.{Crypto, double_sha256_hash-IsHash}
use clementine_citeria.Bitcoin.{Header, IsHeader, BitcoinCrate, encode_header}
use clementine_citeria.Env.{Environment, for_range}
use clementine_citeria.Env.Tape.{
  Item, u32, IsTape, Reads, Reads-bind, Reads-bind-nil, Reads-pure, Reads-u32, Writes-u32,
  items_all,
}
use clementine_citeria.Merkle.Incremental
use clementine_citeria.Merkle.Incremental.{IncrementalMerkleTree, Holds}
use clementine_citeria.Merkle.Tree
use clementine_citeria.Merkle.Tree.{MerkleTree}
use clementine_citeria.Merkle.Tree.Build.{Built}
use clementine_citeria.Circuit.Constants.{blockhash_merkle_tree_depth, max_block_handle_ops}
use clementine_citeria.Circuit.Blocks.{read_blocks_and_add_to_merkle_tree}
use clementine_citeria.Circuit.Bridge.{Periods, read_withdrawal_proof, read_period}
use clementine_citeria.Database.{Dbms, WithdrawalPayment}
use clementine_citeria.Errors.{ok}
use clementine_citeria.Errors.Binds.{pure}
use clementine_citeria.Rpc.{Client}
use clementine_citeria.Writer.{write_blocks_and_add_to_merkle_tree}
use clementine_citeria.Writer.Chain.{Linked, last_hash, chain_work, block_hashes}
use clementine_citeria.Writer.Headers.{header_items}
use clementine_citeria.Writer.Headers.Added.{write_blocks_and_add_lem, read_chain, Reads-blocks}
use clementine_citeria.Operator.Proving.{
  MerkleBlocks, run, headers_between, lc_cutoff_blockhash, write_blocks_between,
}
use clementine_citeria.Operator.Proving.Produces.{
  Produces, run-some, Produces-pure, Produces-run, Produces-bind-nil, Produces-after,
}
use clementine_citeria.Operator.Proving.Withdrawals.{Paid}
use clementine_citeria.Operator.Proving.Payments.{addresses, payments_items, Reads-payments}

module _ ⦃c : Crypto⦄ ⦃b : BitcoinCrate⦄ where
  last_hash-take :
      (start : Bytes) (hs : List Header) (j : ℕ)
      → j < length hs
      → (h : Header) × (get_elem? hs j ≡ some h)
        × (last_hash start (take (suc j) hs) ≡ b.block_hash h)
  unfolding last_hash
  last_hash-take start [] j small = absurd (omega arith)
  last_hash-take start (h ∷ hs) zero small = (h, refl, refl)
  last_hash-take start (h ∷ hs) (suc j) small = last_hash-take (b.block_hash h) hs j (omega arith)

  pub block_hashes-IsHash : (hs : List Header) → All IsHash (block_hashes hs)
  unfolding block_hashes
  block_hashes-IsHash [] = tt
  block_hashes-IsHash (h ∷ hs) = (
    subst IsHash (sym (b.block_hash_encoding h)) (double_sha256_hash-IsHash (encode_header h)),
    block_hashes-IsHash hs,
  )

pub All-append :
    {A : Type 0} (P : A → Type 0) (xs ys : List A) → All P xs → All P ys → All P (xs ++ ys)
All-append P [] ys hx hy = hy
All-append P (x ∷ xs) ys (h, hx) hy = (h, All-append P xs ys hx hy)

module _ ⦃c : Crypto⦄ ⦃b : BitcoinCrate⦄ ⦃d : Dbms⦄ ⦃r : Client⦄ ⦃m : MerkleBlocks⦄
    ⦃e : Environment⦄ ⦃i : IsTape e⦄ where
  -- The operator's light client block is the circuit's: the last block but `MAX_BLOCK_HANDLE_OPS`.
  lc_cutoff_blockhash_lem :
      (start : Bytes) (hs : List Header)
      → max_block_handle_ops < length hs
      → length hs < 2 ^ 32
      → lc_cutoff_blockhash hs ≡ ok (last_hash start (take (length hs - max_block_handle_ops) hs))
  unfolding lc_cutoff_blockhash
  lc_cutoff_blockhash_lem start hs enough small =
      let index : (length hs + 2 ^ 64 - 1 - max_block_handle_ops) % 2 ^ 64
          ≡ length hs - suc max_block_handle_ops =
        omega arith in
      let next : suc (length hs - suc max_block_handle_ops) ≡ length hs - max_block_handle_ops =
        omega arith in
      let (h, found, last) =
        last_hash-take start hs (length hs - suc max_block_handle_ops) (omega arith) in
      let last' : last_hash start (take (length hs - max_block_handle_ops) hs) ≡ b.block_hash h =
        sym (ap (λ j. last_hash start (take j hs)) next) ∙ last in
      rw (index, found) (ap ok (sym last'))

  abbrev pub blocks_items : List Header → List Item
  blocks_items hs = u32 (length hs) ∷ items_all header_items hs

  pub Produces-blocks :
      (n : r.Node) (first last : ℕ) (start : Bytes) (hs : List Header) (mt mt' : MerkleTree)
      → headers_between n first last ≡ ok hs
      → All IsHeader hs
      → max_block_handle_ops < length hs
      → length hs < 2 ^ 32
      → Tree.add_all mt (block_hashes hs) ≡ some mt'
      → Produces
          (write_blocks_between n first last mt)
          (blocks_items hs)
          (mt', last_hash start (take (length hs - max_block_handle_ops) hs))
  unfolding write_blocks_between
  Produces-blocks n first last start hs mt mt' found r enough small added =
      let cutoff = last_hash start (take (length hs - max_block_handle_ops) hs) in
      let written : Produces (run (write_blocks_and_add_to_merkle_tree hs mt)) (blocks_items hs)
          mt' =
        record {
          on = λ past rest.
              run-some _ _ _ mt' (write_blocks_and_add_lem hs mt mt' past rest r small added);
        } in
      Produces-after (headers_between n first last) _ _ hs (mt', cutoff) found
        (Produces-after (lc_cutoff_blockhash hs) _ _ cutoff (mt', cutoff)
          (lc_cutoff_blockhash_lem start hs enough small)
          (Produces-bind-nil (run (write_blocks_and_add_to_merkle_tree hs mt)) _ (blocks_items hs)
            mt' (mt', cutoff) written (Produces-pure (mt', cutoff))))

  -- `do_you_want_to_end_proving`, which the last period leaves to `prove`.
  abbrev pub mark : Bool → List Item
  mark true = []
  mark false = u32 0 ∷ []

  pub Produces-mark :
      (ending : Bool) → Produces (if ending then pure tt else run (e.write_u32 0)) (mark ending) tt
  Produces-mark true = Produces-pure tt
  Produces-mark false = Produces-run _ _ (Writes-u32 0)

  -- The circuit's variables after a period.
  abbrev pub after_period : Periods → List Header → ℕ → List WithdrawalPayment → Periods
  after_period s hs work payments = record s {
    blockhashes_mt = Incremental.add_all s.blockhashes_mt (block_hashes hs);
    withdrawal_mt = Incremental.add_all s.withdrawal_mt (addresses payments);
    total_pow = (s.total_pow + work) % 2 ^ 256;
    cur_block_hash = last_hash s.cur_block_hash hs;
    lc_blockhash = last_hash s.cur_block_hash (take (length hs - max_block_handle_ops) hs);
    total_num_withdrawals = (s.total_num_withdrawals + length payments) % 2 ^ 32;
  }

  pub Reads-period :
      (n : r.Node) (blocks : List Bytes) (s : Periods) (hs : List Header) (work ending : ℕ)
      (t : MerkleTree) (payments : List WithdrawalPayment) (paid : All (Paid n blocks) payments)
      → Built blockhash_merkle_tree_depth t blocks
      → Holds blockhash_merkle_tree_depth
          (Incremental.add_all s.blockhashes_mt (block_hashes hs))
          blocks
      → All IsHash blocks
      → All IsHeader hs
      → Linked s.cur_block_hash hs
      → chain_work hs 0 ≡ some work
      → max_block_handle_ops < length hs
      → length hs < 2 ^ 32
      → length payments < 2 ^ 32
      → ending < 2 ^ 32
      → Reads
          (read_period s)
          (blocks_items hs
            ++ (u32 (length payments) ∷ []
                ++ (payments_items n blocks payments paid ++ (u32 ending ∷ []))))
          (after_period s hs work payments, ending)
  unfolding read_period
  Reads-period n blocks s hs work ending t payments paid built holds hashes r linked valid enough
        small few ends =
      let m = max_block_handle_ops in
      let mt = Incremental.add_all s.blockhashes_mt (block_hashes hs) in
      let out : Periods × ℕ = (after_period s hs work payments, ending) in
      let loop =
        rw (sym holds.root) at
          (Reads-payments n blocks t built hashes payments paid 0 s.withdrawal_mt) in
      Reads-bind (read_blocks_and_add_to_merkle_tree s.cur_block_hash s.blockhashes_mt m) _
        (blocks_items hs) _ (read_chain m s.cur_block_hash s.blockhashes_mt hs work) out
        (Reads-blocks m hs s.cur_block_hash work s.blockhashes_mt r linked valid (omega arith)
          (omega arith) small)
        (Reads-bind e.read_u32 _ (u32 (length payments) ∷ []) _ (length payments) out
          (Reads-u32 (length payments) few)
          (Reads-bind
            (for_range (length payments) 0 (λ _ w. read_withdrawal_proof mt.root w) s.withdrawal_mt)
            _ (payments_items n blocks payments paid) (u32 ending ∷ [])
            (Incremental.add_all s.withdrawal_mt (addresses payments)) out loop
            (Reads-bind-nil e.read_u32 _ (u32 ending ∷ []) ending out (Reads-u32 ending ends)
              (Reads-pure out))))
