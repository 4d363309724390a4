-- ===== src/Operator/Proving/Periods.antt =====
-- The periods of `prove`, one after the other, against the circuit's loop over them.
use clementine_citeria.Common.{
  ℕ, suc, ◌+◌, ◌-◌, ◌%◌, ◌^◌, ◌<◌, ◌≡◌, refl, ap, List, [], ◌∷◌, ◌++◌, some, ◌==◌, if◌then◌else◌,
  take, length, All, get_elem?, arith,
}
use clementine_citeria.Common.Bytes.{Bytes, IsHash}
use clementine_citeria.Hash.{Crypto}
use clementine_citeria.Bitcoin.{Header, IsHeader, BitcoinCrate}
use clementine_citeria.Env.{Environment}
use clementine_citeria.Env.Tape.{Item, u32, IsTape}
use clementine_citeria.Merkle.Incremental.{Holds}
use clementine_citeria.Merkle.Tree.Build.{Built, add_all-Built}
use clementine_citeria.Circuit.Constants.{
  blockhash_merkle_tree_depth, withdrawal_merkle_tree_depth, max_block_handle_ops,
}
use clementine_citeria.Circuit.Bridge.{Periods}
use clementine_citeria.Database.{Dbms, WithdrawalPayment, get_withdrawals_payment_for_period}
use clementine_citeria.Errors.{ok, unwrap}
use clementine_citeria.Errors.Binds.{pure}
use clementine_citeria.Rpc.{Client}
use clementine_citeria.Writer.Chain.{
  Linked, last_hash, chain_work, block_hashes, length-block_hashes,
}
use clementine_citeria.Operator.State.{World, query}
use clementine_citeria.Operator.Proving.{
  MerkleBlocks, run, headers_between, write_blocks_between,
  write_withdrawals_and_add_to_merkle_tree,
}
use clementine_citeria.Operator.Proving.Produces.{
  Produces, Produces-pure, Produces-bind, Produces-bind-nil, Produces-after,
}
use clementine_citeria.Operator.Proving.Withdrawals.{Paid}
use clementine_citeria.Operator.Proving.Payments.{addresses, payments_items, Produces-payment_list}
use clementine_citeria.Operator.Proving.Prove.{Proved, period_start, prove_period}
use clementine_citeria.Merkle.Incremental.{add_all-Holds}
use clementine_citeria.Operator.Proving.Period.{
  blocks_items, mark, block_hashes-IsHash, All-append, Produces-blocks, Produces-mark, after_period,
}

length-addresses :
    (payments : List WithdrawalPayment) → length (addresses payments) ≡ length payments
length-addresses [] = refl
length-addresses (p ∷ payments) = ap suc (length-addresses payments)

module _ ⦃c : Crypto⦄ ⦃b : BitcoinCrate⦄ ⦃d : Dbms⦄ ⦃r : Client⦄ ⦃m : MerkleBlocks⦄
    ⦃e : Environment⦄ ⦃i : IsTape e⦄ where
  -- What a period needs: the node has its headers, which are linked to the block before them and
  -- have valid work; its payments are in blocks up to its end; and there is room in the trees.
  pub record Accounted (w : World) (start : ℕ) (heights : List ℕ) (k : ℕ) (prev : Bytes)
      (blocks ws : List Bytes) : Type 0 where
    pub first : ℕ
    pub height : ℕ
    pub work : ℕ
    pub headers : List Header
    pub payments : List WithdrawalPayment
    pub first_is : period_start start heights k ≡ ok first
    pub height_is : get_elem? heights k ≡ some height
    pub headers_are : headers_between w.node first ((start + height) % 2 ^ 64) ≡ ok headers
    pub payments_are : query (get_withdrawals_payment_for_period k) w.disk ≡ ok payments
    pub are_headers : All IsHeader headers
    pub linked : Linked prev headers
    pub valid : chain_work headers 0 ≡ some work
    pub enough : max_block_handle_ops < length headers
    pub room : length blocks + length headers < 2 ^ 32
    pub withdrawals_room : length ws + length payments < 2 ^ 32
    pub paid : All (Paid w.node (blocks ++ block_hashes headers)) payments

  -- The operator and the circuit hold the same block hashes and withdrawals, and the same count.
  pub record InStep (blocks ws : List Bytes) (p : Proved) (s : Periods) : Type 0 where
    pub host_blocks : Built blockhash_merkle_tree_depth p.blockhashes_mt blocks
    pub circuit_blocks : Holds blockhash_merkle_tree_depth s.blockhashes_mt blocks
    pub host_withdrawals : Built withdrawal_merkle_tree_depth p.withdrawal_mt ws
    pub circuit_withdrawals : Holds withdrawal_merkle_tree_depth s.withdrawal_mt ws
    pub hashes : All IsHash blocks
    pub same_count : s.total_num_withdrawals ≡ p.total_num_withdrawals % 2 ^ 32

  abbrev pub blocks_after :
      {w : World} {start : ℕ} {heights : List ℕ} {k : ℕ} {prev : Bytes} {blocks ws : List Bytes}
      → Accounted w start heights k prev blocks ws
      → List Bytes
  blocks_after {blocks = blocks} q = blocks ++ block_hashes q.headers

  abbrev pub period_items :
      {w : World} {start : ℕ} {heights : List ℕ} {k : ℕ} {prev : Bytes} {blocks ws : List Bytes}
      → Accounted w start heights k prev blocks ws
      → List Item
      → List Item
  period_items {w = w} q ending =
      blocks_items q.headers
      ++ (u32 (length q.payments) ∷ []
          ++ (payments_items w.node (blocks_after q) q.payments q.paid ++ ending))

  pub Produces-period :
      (w : World) (start : ℕ) (heights : List ℕ) (last k : ℕ) (prev : Bytes)
      (blocks ws : List Bytes) (p : Proved) (s : Periods)
      (q : Accounted w start heights k prev blocks ws)
      → InStep blocks ws p s
      → s.cur_block_hash ≡ prev
      → (p' : Proved) × Produces
          (prove_period w start heights last k p)
          (period_items q (mark (k == last)))
          p'
        × InStep
            (blocks_after q)
            (ws ++ addresses q.payments)
            p'
            (after_period s q.headers q.work q.payments)
        × (p'.lc_blockhash ≡ (after_period s q.headers q.work q.payments).lc_blockhash)
        × (p'.end_height ≡ (start + q.height) % 2 ^ 64)
  unfolding prove_period
  Produces-period w start heights last k prev blocks ws p s q same at_prev =
      let hs = q.headers in
      let len = length-block_hashes hs in
      let depth = blockhash_merkle_tree_depth in
      let end = (start + q.height) % 2 ^ 64 in
      let lc = last_hash s.cur_block_hash (take (length hs - max_block_handle_ops) hs) in
      let (mt', added, built) =
        add_all-Built depth p.blockhashes_mt blocks (block_hashes hs) same.host_blocks (omega arith)
          (omega (arith, len, q.room)) in
      let hashes =
        All-append IsHash blocks (block_hashes hs) same.hashes (block_hashes-IsHash hs) in
      let (wt', built', payments) =
        Produces-payment_list w.node (blocks_after q) mt' built hashes q.payments q.paid
          p.withdrawal_mt ws same.host_withdrawals q.withdrawals_room in
      let p' : Proved = record {
        blockhashes_mt = mt';
        withdrawal_mt = wt';
        lc_blockhash = lc;
        end_height = end;
        total_num_withdrawals = p.total_num_withdrawals + length q.payments;
      } in
      let items = payments_items w.node (blocks_after q) q.payments q.paid in
      (
        p',
        Produces-after (period_start start heights k) _ _ q.first p' q.first_is (
            Produces-after (unwrap (get_elem? heights k)) _ _ q.height p' (ap unwrap q.height_is) (
              Produces-bind (write_blocks_between w.node q.first end p.blockhashes_mt) _
                (blocks_items hs) _ (mt', lc) p'
                (Produces-blocks w.node q.first end s.cur_block_hash hs p.blockhashes_mt mt'
                  q.headers_are q.are_headers q.enough (omega (arith, q.room)) added)
                (Produces-after (query (get_withdrawals_payment_for_period k) w.disk) _ _ q.payments
                  p' q.payments_are
                  (Produces-bind
                    (write_withdrawals_and_add_to_merkle_tree w.node q.payments p.withdrawal_mt mt')
                    _ (u32 (length q.payments) ∷ items) (mark (k == last)) wt' p' payments
                    (Produces-bind-nil (if k == last then pure tt else run (e.write_u32 0)) _
                      (mark (k == last)) tt p' (Produces-mark (k == last)) (Produces-pure p')))))),
        record {
          host_blocks = built;
          circuit_blocks =
              add_all-Holds depth s.blockhashes_mt blocks (block_hashes hs) same.circuit_blocks
                (omega (arith, len, q.room)) (omega (arith, len, q.room));
          host_withdrawals = built';
          circuit_withdrawals =
              add_all-Holds withdrawal_merkle_tree_depth s.withdrawal_mt ws (addresses q.payments)
                same.circuit_withdrawals
                (omega (arith, length-addresses q.payments, q.withdrawals_room))
                (omega (arith, length-addresses q.payments, q.withdrawals_room));
          hashes = hashes;
          same_count = omega (arith, same.same_count);
        },
        refl,
        refl,
      )
