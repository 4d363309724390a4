-- ===== src/Operator/Proving/Withdrawals.antt =====
-- The withdrawals that the operator writes for the circuit, and what the circuit reads of them.
use clementine_citeria.Common.{
  ℕ, ◌≡◌, refl, ap, sym, ◌∙◌, List, [], ◌∷◌, ◌++◌, Option, some, none, true, ◌||◌, All, assert,
}
use clementine_citeria.Common.Bytes.{Bytes, bytes_eq, bytes_eq_refl, IsHash}
use clementine_citeria.Hash.{Crypto}
use clementine_citeria.Bitcoin.{Transaction, IsTransaction, BitcoinCrate}
use clementine_citeria.Env
use clementine_citeria.Env.{Environment}
use clementine_citeria.Env.Tape.{
  Item, bytes32, IsTape, Reads, Reads-bind, Reads-bind-nil, Reads-pure, Reads-32bytes,
  Writes-32bytes,
}
use clementine_citeria.Merkle.Levels.{node}
use clementine_citeria.Merkle.Incremental
use clementine_citeria.Merkle.Incremental.{IncrementalMerkleTree}
use clementine_citeria.Merkle.Tree
use clementine_citeria.Merkle.Tree.{MerkleTree}
use clementine_citeria.Merkle.Tree.Build.{Built}
use clementine_citeria.Circuit.Constants.{blockhash_merkle_tree_depth, bridge_amount_sats}
use clementine_citeria.Circuit.Transaction.{is_none, read_tx_and_calculate_txid}
use clementine_citeria.Circuit.Bridge.{read_withdrawal_proof}
use clementine_citeria.Database.{WithdrawalPayment}
use clementine_citeria.Errors.{ok, ok_or, unwrap, blockhash_not_found}
use clementine_citeria.Rpc.{Client, WalletTransaction, get_raw_transaction, get_transaction}
use clementine_citeria.Writer.Headers.{header_without_root_items}
use clementine_citeria.Writer.Transactions.{tx_items, Writes-tx, Reads-tx}
use clementine_citeria.Writer.Transactions.Outputs.{HasScript, some_output}
use clementine_citeria.Operator.Proving.{MerkleBlocks, write_withdrawal}
use clementine_citeria.Operator.Proving.Produces.{
  Produces, Produces-lift, Produces-run, Produces-bind, Produces-bind-nil, Produces-after,
}
use clementine_citeria.Operator.Proving.Mined.{
  Mined, path_items, proof_items, inclusion_items, Produces-inclusion, Reads-path, Reads-block_hash,
  Reads-block_root,
}

-- The output of a withdrawal.
abbrev pub payout : Bytes → Option (Option ℕ × Bytes)
payout address = some (some bridge_amount_sats, address)

module _ ⦃c : Crypto⦄ ⦃b : BitcoinCrate⦄ ⦃r : Client⦄ ⦃m : MerkleBlocks⦄ where
  -- A payment of the bridge amount that the node knows, and that is in one of the blocks.
  pub record Paid (n : r.Node) (blocks : List Bytes) (payment : WithdrawalPayment) : Type 0 where
    pub tx : Transaction
    pub tx_found : get_raw_transaction n payment.0 ≡ ok tx
    pub is_tx : IsTransaction tx
    pub scripts : All HasScript tx.output
    pub pays : (is_none (payout payment.1) || some_output (payout payment.1) tx.output) ≡ true
    pub same_txid : b.txid tx ≡ payment.0
    pub address_hash : IsHash payment.1
    pub info : WalletTransaction
    pub info_found : get_transaction n payment.0 ≡ ok info
    pub blockhash : Bytes
    pub in_block : info.blockhash ≡ some blockhash
    pub mined : Mined n payment.0 blocks blockhash

  module _ ⦃e : Environment⦄ ⦃i : IsTape e⦄ where
    abbrev pub withdrawal_items :
        {n : r.Node} {blocks : List Bytes} (payment : WithdrawalPayment)
        → Paid n blocks payment
        → List Item
    withdrawal_items payment paid =
        bytes32 payment.1 ∷ [] ++ (tx_items paid.tx ++ inclusion_items paid.mined)

    -- What the operator writes of a payment; the payment is added to its tree.
    pub Produces-withdrawal :
        {n : r.Node} {blocks : List Bytes} (payment : WithdrawalPayment) (wt wt' t : MerkleTree)
        (paid : Paid n blocks payment)
        → Built blockhash_merkle_tree_depth t blocks
        → All IsHash blocks
        → Tree.add wt payment.1 ≡ some wt'
        → Produces (write_withdrawal n payment wt t) (withdrawal_items payment paid) wt'
    unfolding write_withdrawal
    Produces-withdrawal {n} {blocks} (txid, address) wt wt' t paid built hashes added =
        let inclusion = Produces-inclusion t paid.mined built hashes in
        let last = Produces-lift (unwrap (Tree.add wt address)) wt' (ap unwrap added) in
        let end = Produces-bind-nil _ _ (inclusion_items paid.mined) tt wt' inclusion last in
        Produces-bind _ _ (bytes32 address ∷ []) _ tt wt'
          (Produces-run _ _ (Writes-32bytes address))
          (Produces-after (get_raw_transaction n txid) _ _ paid.tx wt' paid.tx_found (
            Produces-bind _ _ (tx_items paid.tx) (inclusion_items paid.mined) tt wt'
              (Produces-run _ _ (Writes-tx paid.tx paid.is_tx))
              (Produces-after (get_transaction n txid) _ _ paid.info wt' paid.info_found (
                Produces-after (ok_or blockhash_not_found paid.info.blockhash) _ _ paid.blockhash
                  wt' (ap (ok_or blockhash_not_found) paid.in_block) end))))

    Reads-paid_txid :
        {n : r.Node} {blocks : List Bytes} (payment : WithdrawalPayment)
        (paid : Paid n blocks payment)
        → Reads (read_tx_and_calculate_txid none (payout payment.1)) (tx_items paid.tx) payment.0
    Reads-paid_txid payment paid =
        rw (sym (b.txid_encoding paid.tx) ∙ paid.same_txid) at
          (Reads-tx paid.tx none (payout payment.1) paid.is_tx paid.scripts refl paid.pays)

    -- The circuit reads the payment back, and adds it to its own tree.
    pub Reads-withdrawal :
        {n : r.Node} {blocks : List Bytes} (payment : WithdrawalPayment) (t : MerkleTree)
        (imt : IncrementalMerkleTree) (paid : Paid n blocks payment)
        → Built blockhash_merkle_tree_depth t blocks
        → All IsHash blocks
        → Reads
            (read_withdrawal_proof (node blockhash_merkle_tree_depth 0 0 blocks) imt)
            (withdrawal_items payment paid)
            (Incremental.add imt payment.1)
    unfolding read_withdrawal_proof
    Reads-withdrawal {n} {blocks} (txid, address) t imt paid built hashes =
        let mined = paid.mined in
        let root = node blockhash_merkle_tree_depth 0 0 blocks in
        let out = Incremental.add imt address in
        let checked : Reads (Env.◌>>◌ (Env.lift (assert (bytes_eq root root))) (Env.pure out)) []
            out =
          rw (bytes_eq_refl root)
            (Reads-bind (Env.pure tt) _ [] [] tt out (Reads-pure tt) (Reads-pure out)) in
        let proof =
          Reads-bind-nil _ _ (proof_items mined) root out (Reads-block_root t mined built hashes)
            checked in
        Reads-bind _ _ (bytes32 address ∷ []) _ address out
          (Reads-32bytes address paid.address_hash)
          (Reads-bind _ _ (tx_items paid.tx) (inclusion_items mined) txid out
            (Reads-paid_txid (txid, address) paid)
            (Reads-bind _ _ (path_items mined) _ mined.block.header.merkle_root out
              (Reads-path mined)
              (Reads-bind _ _ (header_without_root_items mined.block.header) (proof_items mined)
                paid.blockhash out (Reads-block_hash mined) proof)))
