-- ===== src/Operator/Payments/Withdrawals.antt =====
-- What `new_withdrawal` of core/src/operator.rs leaves of a withdrawal that was paid.
use clementine_citeria.Common.{
  ℕ, ◌+◌, ◌^◌, ◌<◌, ◌≡◌, refl, ap, ◌∙◌, List, [], ◌∷◌, ◌++◌, none, some, length, drop, get_or,
}
use clementine_citeria.Common.Bytes.{Bytes}
use clementine_citeria.Hash.{Crypto}
use clementine_citeria.Merkle.Tree.{MerkleTree}
use clementine_citeria.Merkle.Tree.Build.{Built}
use clementine_citeria.Database
use clementine_citeria.Database.{
  Dbms, DatabaseContent, OutPoint, get_withdrawals_payment_for_period,
  add_to_withdrawals_merkle_tree, add_to_withdrawals_payment_txids,
}
use clementine_citeria.Database.Laws.{WorkingDisk, Stored}
use clementine_citeria.Database.Periods.{entry_after, get_payments-add_payment}
use clementine_citeria.Database.Errors.{index-add_to_withdrawals}
use clementine_citeria.Errors.{ok, err, Host, ok_or, invalid_period, withdrawal_period_mismatch}
use clementine_citeria.Errors.Binds.{ask, ◌>>=◌, bind-run, bind-err, lift-run}
use clementine_citeria.Rpc.{Client, send_to_address, get_block_count}
use clementine_citeria.Operator.{withdrawal_period_from}
use clementine_citeria.Operator.Periods.{withdrawal_is}
use clementine_citeria.Operator.State.{World, from_outcome, query, db, rpc}
use clementine_citeria.Operator.Setup.Stored.{db-run}
use clementine_citeria.Operator.Payments.{taproot_hash, withdrawal_period, new_withdrawal}

module _ ⦃d : Dbms⦄ ⦃r : Client⦄ where
  rpc-run :
      {A : Type 0} (m : Host r.Node A) (w : World) (n : r.Node) (a : A)
      → m w.node ≡ (ok a, n)
      → rpc m w ≡ (ok a, record w { node = n })
  unfolding rpc
  rpc-run m w n a h = ap (λ p. (p.0, record w { node = p.1 })) h

  withdrawal_period-at :
      (w : World) (content : DatabaseContent) (height : ℕ)
      → Stored w.disk content
      → r.block_count w.node ≡ some height
      → withdrawal_period w
        ≡ ok_or (invalid_period withdrawal_period_mismatch) (
            withdrawal_period_from 0 height content.start_block_height
              content.period_relative_block_heights)
  unfolding withdrawal_period get_block_count query from_outcome
  withdrawal_period-at w content height stored counted =
      rw (counted, withdrawal_is w.disk content height stored) refl

  module _ ⦃c : Crypto⦄ ⦃works : WorkingDisk d⦄ where
    -- Up to the question for the period: the hash is in the tree on the disk, and the node has paid.
    paid-run :
        (w : World) (content : DatabaseContent) (xs : List Bytes) (address : Bytes)
        (paid : OutPoint) (n : r.Node)
        → Stored w.disk content
        → Built 32 content.withdrawals_merkle_tree xs
        → length xs + 1 < 2 ^ 32
        → length address ≡ 34
        → send_to_address address 100_000_000 w.node ≡ (ok paid, n)
        → (s : d.Disk) × (tree : MerkleTree) × Built 32 tree (xs ++ drop 2 address ∷ [])
          × Stored s (record content { withdrawals_merkle_tree = tree })
          × (new_withdrawal address w
              ≡ (ask withdrawal_period >>= λ period.
                    db (add_to_withdrawals_payment_txids period (paid.0, drop 2 address)))
                  (record w { disk = s; node = n }))
    unfolding new_withdrawal taproot_hash
    paid-run w content xs address paid n stored built room len sent =
        let hash = drop 2 address in
        let (s, tree, added, st, built', _) =
          index-add_to_withdrawals w.disk content xs hash stored built room in
        let w1 = record w { disk = s } in
        (
          s,
          tree,
          built',
          st,
          lift-run _ _ w hash (rw len refl)
              ∙ (bind-run _ _ w w1 tt (db-run (add_to_withdrawals_merkle_tree hash) w s added)
                  ∙ bind-run _ _ w1 (record w1 { node = n }) paid (rpc-run _ w1 n paid sent)),
        )

    -- A withdrawal that was paid while a period was open: the operator ends in `Ok`, and the period
    -- has its payments from before and this one, the others what they had.
    pub new_withdrawal-recorded :
        (w : World) (content : DatabaseContent) (xs : List Bytes) (address : Bytes)
        (paid : OutPoint) (n : r.Node) (height period : ℕ)
        → Stored w.disk content
        → Built 32 content.withdrawals_merkle_tree xs
        → length xs + 1 < 2 ^ 32
        → length address ≡ 34
        → send_to_address address 100_000_000 w.node ≡ (ok paid, n)
        → r.block_count n ≡ some height
        → withdrawal_period_from 0 height content.start_block_height
            content.period_relative_block_heights
          ≡ some period
        → (s : d.Disk) × (new_withdrawal address w ≡ (ok tt, record w { disk = s; node = n }))
          × ((q : ℕ)
              → get_withdrawals_payment_for_period q s ≡ (
                elim (entry_after period
                    (get_or content.withdrawals_payment_txids period []
                      ++ (paid.0, drop 2 address) ∷ [])
                    content.withdrawals_payment_txids
                    q) [ some payments ↦ Database.ok payments | none ↦ Database.panic ],
                s,
              ))
    new_withdrawal-recorded w content xs address paid n height period stored built room len sent
          counted open_period =
        let (s, tree, _, st, e) = paid-run w content xs address paid n stored built room len sent in
        let w1 = record w { disk = s; node = n } in
        let content' = record content { withdrawals_merkle_tree = tree } in
        let asked =
          withdrawal_period-at w1 content' height st counted
          ∙ ap (ok_or (invalid_period withdrawal_period_mismatch)) open_period in
        let (s', added, getter) =
          get_payments-add_payment s content' period (paid.0, drop 2 address) st in
        (
          s',
          e
              ∙ (bind-run _ _ w1 w1 period (ap (λ x. (x, w1)) asked)
                  ∙ db-run (add_to_withdrawals_payment_txids period (paid.0, drop 2 address)) w1 s'
                      added),
          getter,
        )

    -- A withdrawal that comes when no period is open any more: the operator ends in the error, but
    -- the node has paid, and the withdrawal is counted in the tree though in no period's payments.
    pub new_withdrawal-late :
        (w : World) (content : DatabaseContent) (xs : List Bytes) (address : Bytes)
        (paid : OutPoint) (n : r.Node) (height : ℕ)
        → Stored w.disk content
        → Built 32 content.withdrawals_merkle_tree xs
        → length xs + 1 < 2 ^ 32
        → length address ≡ 34
        → send_to_address address 100_000_000 w.node ≡ (ok paid, n)
        → r.block_count n ≡ some height
        → withdrawal_period_from 0 height content.start_block_height
            content.period_relative_block_heights
          ≡ none
        → (s : d.Disk) × (tree : MerkleTree) × (new_withdrawal address w
            ≡ (err (invalid_period withdrawal_period_mismatch), record w { disk = s; node = n }))
          × Stored s (record content { withdrawals_merkle_tree = tree })
          × Built 32 tree (xs ++ drop 2 address ∷ [])
    new_withdrawal-late w content xs address paid n height stored built room len sent counted
          closed =
        let (s, tree, built', st, e) =
          paid-run w content xs address paid n stored built room len sent in
        let w1 = record w { disk = s; node = n } in
        let content' = record content { withdrawals_merkle_tree = tree } in
        let asked =
          withdrawal_period-at w1 content' height st counted
          ∙ ap (ok_or (invalid_period withdrawal_period_mismatch)) closed in
        (
          s,
          tree,
          e
              ∙ bind-err _ _ w1 w1 (invalid_period withdrawal_period_mismatch)
                  (ap (λ x. (x, w1)) asked),
          st,
          built',
        )
