-- ===== src/Operator/Proving/Payments.antt =====
-- The loop over the withdrawals of a period, in the operator and in the circuit.
use clementine_citeria.Common.{
  ℕ, suc, ◌+◌, ◌%◌, ◌^◌, ◌<◌, ◌≡◌, List, [], ◌∷◌, ◌++◌, append_assoc, append-nil, map, length,
  length-append, All, arith,
}
use clementine_citeria.Common.Bytes.{Bytes, IsHash}
use clementine_citeria.Hash.{Crypto}
use clementine_citeria.Bitcoin.{BitcoinCrate}
use clementine_citeria.Env.{Environment, for_range}
use clementine_citeria.Env.Tape.{Item, u32, IsTape, Reads, Reads-bind, Reads-pure, Writes-u32}
use clementine_citeria.Merkle.Levels.{node}
use clementine_citeria.Merkle.Incremental
use clementine_citeria.Merkle.Incremental.{IncrementalMerkleTree}
use clementine_citeria.Merkle.Tree.{MerkleTree}
use clementine_citeria.Merkle.Tree.Build.{Built, add-Built}
use clementine_citeria.Circuit.Constants.{blockhash_merkle_tree_depth, withdrawal_merkle_tree_depth}
use clementine_citeria.Circuit.Bridge.{read_withdrawal_proof}
use clementine_citeria.Database.{WithdrawalPayment}
use clementine_citeria.Rpc.{Client}
use clementine_citeria.Operator.Proving.{
  MerkleBlocks, write_withdrawal, write_each_withdrawal, write_withdrawals_and_add_to_merkle_tree,
}
use clementine_citeria.Operator.Proving.Produces.{
  Produces, Produces-pure, Produces-run, Produces-bind,
}
use clementine_citeria.Operator.Proving.Withdrawals.{
  Paid, withdrawal_items, Produces-withdrawal, Reads-withdrawal,
}

-- The addresses that were paid, as the two withdrawal trees hold them.
abbrev pub addresses : List WithdrawalPayment → List Bytes
addresses payments = map (λ (p : WithdrawalPayment). p.1) payments

module _ ⦃c : Crypto⦄ ⦃b : BitcoinCrate⦄ ⦃r : Client⦄ ⦃m : MerkleBlocks⦄ ⦃e : Environment⦄
    ⦃i : IsTape e⦄ where
  abbrev pub payments_items :
      (n : r.Node) (blocks : List Bytes) (payments : List WithdrawalPayment)
      → All (Paid n blocks) payments
      → List Item
  payments_items n blocks [] paid = []
  payments_items n blocks (payment ∷ payments) (p, paid) =
      withdrawal_items payment p ++ payments_items n blocks payments paid

  Produces-payments :
      (n : r.Node) (blocks : List Bytes) (t : MerkleTree)
      → Built blockhash_merkle_tree_depth t blocks
      → All IsHash blocks
      → (payments : List WithdrawalPayment) (paid : All (Paid n blocks) payments) (wt : MerkleTree)
        (ws : List Bytes)
      → Built withdrawal_merkle_tree_depth wt ws
      → length ws + length payments < 2 ^ 32
      → (wt' : MerkleTree) × Built withdrawal_merkle_tree_depth wt' (ws ++ addresses payments)
        × Produces
            (write_each_withdrawal n payments wt t)
            (payments_items n blocks payments paid)
            wt'
  unfolding write_each_withdrawal
  Produces-payments n blocks t built hashes [] paid wt ws h room =
      (wt, rw append-nil h, Produces-pure wt)
  Produces-payments n blocks t built hashes (payment ∷ payments) (p, paid) wt ws h room =
      let (wt1, added, h1) =
        add-Built withdrawal_merkle_tree_depth wt ws payment.1 h (omega arith) (omega arith) in
      let (wt', h', rest) =
        Produces-payments n blocks t built hashes payments paid wt1 (ws ++ payment.1 ∷ []) h1
          (omega (arith, length-append {0} ws (payment.1 ∷ []))) in
      (
        wt',
        rw (append_assoc ws (payment.1 ∷ []) (addresses payments)) at h',
        Produces-bind (write_withdrawal n payment wt t) _ (withdrawal_items payment p)
            (payments_items n blocks payments paid) wt1 wt'
            (Produces-withdrawal payment wt wt1 t p built hashes added) rest,
      )

  pub Reads-payments :
      (n : r.Node) (blocks : List Bytes) (t : MerkleTree)
      → Built blockhash_merkle_tree_depth t blocks
      → All IsHash blocks
      → (payments : List WithdrawalPayment) (paid : All (Paid n blocks) payments) (k : ℕ)
        (imt : IncrementalMerkleTree)
      → Reads
          (for_range
            (length payments)
            k
            (λ _ mt. read_withdrawal_proof (node blockhash_merkle_tree_depth 0 0 blocks) mt)
            imt)
          (payments_items n blocks payments paid)
          (Incremental.add_all imt (addresses payments))
  unfolding for_range Incremental.add_all
  Reads-payments n blocks t built hashes [] paid k imt = Reads-pure imt
  Reads-payments n blocks t built hashes (payment ∷ payments) (p, paid) k imt =
      Reads-bind (read_withdrawal_proof (node blockhash_merkle_tree_depth 0 0 blocks) imt) _
        (withdrawal_items payment p) (payments_items n blocks payments paid)
        (Incremental.add imt payment.1)
        (Incremental.add_all (Incremental.add imt payment.1) (addresses payments))
        (Reads-withdrawal payment t imt p built hashes)
        (Reads-payments n blocks t built hashes payments paid (suc k)
          (Incremental.add imt payment.1))

  -- What the operator writes of all the withdrawals of a period.
  pub Produces-payment_list :
      (n : r.Node) (blocks : List Bytes) (t : MerkleTree)
      → Built blockhash_merkle_tree_depth t blocks
      → All IsHash blocks
      → (payments : List WithdrawalPayment) (paid : All (Paid n blocks) payments) (wt : MerkleTree)
        (ws : List Bytes)
      → Built withdrawal_merkle_tree_depth wt ws
      → length ws + length payments < 2 ^ 32
      → (wt' : MerkleTree) × Built withdrawal_merkle_tree_depth wt' (ws ++ addresses payments)
        × Produces
            (write_withdrawals_and_add_to_merkle_tree n payments wt t)
            (u32 (length payments) ∷ payments_items n blocks payments paid)
            wt'
  unfolding write_withdrawals_and_add_to_merkle_tree
  Produces-payment_list n blocks t built hashes payments paid wt ws h room =
      let (wt', h', each) = Produces-payments n blocks t built hashes payments paid wt ws h room in
      let small : length payments % 2 ^ 32 ≡ length payments = omega arith in
      (
        wt',
        h',
        rw small (
            Produces-bind _ _ (u32 (length payments) ∷ []) (payments_items n blocks payments paid)
              tt wt' (Produces-run _ _ (Writes-u32 (length payments))) each),
      )
