-- ===== src/Database/Periods.antt =====
-- The payments and the preimages of a period.
use clementine_citeria.Common.{
  ℕ, ◌≡◌, refl, ◌∙◌, List, [], ◌∷◌, ◌++◌, Option, none, some, length, leb, ltb, ◌==◌, if◌then◌else◌,
  get_elem?, get_or, set?, arith,
}
use clementine_citeria.Common.Bytes.{Bytes}
use clementine_citeria.Database.{
  WithdrawalPayment, DatabaseContent, period_could_not_be_found, ok, err, panic, Dbms, return,
  ◌>>=◌, write, get_or_err, index, padded, get_withdrawals_payment_for_period,
  add_to_withdrawals_payment_txids, get_inscribed_preimages, add_inscribed_preimages,
}
use clementine_citeria.Database.Padding.{get_elem?-padded, set?-update}
use clementine_citeria.Database.Laws.{
  WorkingDisk, Stored, Becomes, read-bind, return-bind, write-Becomes,
}

module _ ⦃d : Dbms⦄ where
  module _ ⦃w : WorkingDisk d⦄ where
    -- A write at a place that is there.
    store_at :
        {A : Type 0} (xs : List A) (p : ℕ) (a old : A) (put : List A → DatabaseContent) (s : d.Disk)
        → get_elem? xs p ≡ some old
        → (ys : List A) × ((q : ℕ) → get_elem? ys q ≡ (if q == p then some a else get_elem? xs q))
          × Becomes
              (return (elim (set? xs p a) [ some v ↦ ok v | none ↦ panic ]) >>= λ v. write (put v))
              s
              (put ys)
    store_at xs p a old put s there =
        let (ys, e, at) = set?-update xs p a old there in
        let (s', done, stored) = write-Becomes (put ys) s in
        (ys, at, (s', rw e (return-bind ys (λ v. write (put v)) s ∙ done), stored))

    -- The entry at a place after a write into a padded list.
    abbrev pub entry_after : {A : Type 0} → ℕ → List A → List (List A) → ℕ → Option (List A)
    entry_after period new v q =
        if q == period
        then some new
        else if leb q period
        then some (get_or v q [])
        else if ltb q (length v)
        then some (get_or v q [])
        else none

    padded-entry :
        {A : Type 0} (period : ℕ) (new : List A) (v ys : List (List A))
        → ((q : ℕ)
            → get_elem? ys q ≡ (if q == period then some new else get_elem? (padded period v) q))
        → (q : ℕ) → get_elem? ys q ≡ entry_after period new v q
    padded-entry period new v ys at q = at q ∙ rw (get_elem?-padded period q v) (ground arith)

    padded-there :
        {A : Type 0} (period : ℕ) (v : List (List A))
        → get_elem? (padded period v) period ≡ some (get_or v period [])
    padded-there period v = get_elem?-padded period period v ∙ ground arith

    -- After a payment was added for a period, the period has its payments from before and this one,
    -- every other period up to it or that was there has what it had, and beyond them the getter panics.
    pub get_payments-add_payment :
        (s : d.Disk) (c : DatabaseContent) (period : ℕ) (payment : WithdrawalPayment)
        → Stored s c
        → (s' : d.Disk) × (add_to_withdrawals_payment_txids period payment s ≡ (ok tt, s'))
          × ((q : ℕ)
              → get_withdrawals_payment_for_period q s' ≡ (
                elim (entry_after period
                    (get_or c.withdrawals_payment_txids period [] ++ payment ∷ [])
                    c.withdrawals_payment_txids
                    q) [ some payments ↦ ok payments | none ↦ panic ],
                s',
              ))
    get_payments-add_payment s c period payment h =
        let v = c.withdrawals_payment_txids in
        let old = get_or v period [] in
        let (ys, at, (s', done, stored)) =
          store_at (padded period v) period (old ++ payment ∷ []) old
            (λ v. record c { withdrawals_payment_txids = v }) s (padded-there period v) in
        (s', added old (padded-there period v) s' done, λ q. found ys at s' stored q)
      where
        added :
            (old : List WithdrawalPayment)
            → get_elem? (padded period c.withdrawals_payment_txids) period ≡ some old
            → (s' : d.Disk)
            → (return
                    (elim (set?
                      (padded period c.withdrawals_payment_txids)
                      period
                      (old ++ payment ∷ [])) [ some v ↦ ok v | none ↦ panic ])
                  >>= λ v. write (record c { withdrawals_payment_txids = v }))
                s
              ≡ (ok tt, s')
            → add_to_withdrawals_payment_txids period payment s ≡ (ok tt, s')
        added old there s' done =
            unfold add_to_withdrawals_payment_txids in
            read-bind _ s c h ∙ rw (there, index) (return-bind old _ s ∙ done)

        found :
            (ys : List (List WithdrawalPayment))
            → ((q : ℕ)
                → get_elem? ys q ≡ (
                    if q == period
                    then some (get_or c.withdrawals_payment_txids period [] ++ payment ∷ [])
                    else get_elem? (padded period c.withdrawals_payment_txids) q))
            → (s' : d.Disk) → Stored s' (record c { withdrawals_payment_txids = ys })
            → (q : ℕ)
            → get_withdrawals_payment_for_period q s' ≡ (
              elim (entry_after period
                  (get_or c.withdrawals_payment_txids period [] ++ payment ∷ [])
                  c.withdrawals_payment_txids
                  q) [ some payments ↦ ok payments | none ↦ panic ],
              s',
            )
        found ys at s' stored q =
            unfold get_withdrawals_payment_for_period in
            read-bind _ s' (record c { withdrawals_payment_txids = ys }) stored
            ∙ rw
                (
                  padded-entry period (get_or c.withdrawals_payment_txids period [] ++ payment ∷ [])
                      c.withdrawals_payment_txids ys at q,
                  index,
                )
                refl

    -- After the preimages of a period were added, the period has them, every other period up to it or
    -- that was there has what it had, and beyond them the getter fails.
    pub get_preimages-add_preimages :
        (s : d.Disk) (c : DatabaseContent) (period : ℕ) (preimages : List Bytes)
        → Stored s c
        → (s' : d.Disk) × (add_inscribed_preimages period preimages s ≡ (ok tt, s'))
          × ((q : ℕ)
              → get_inscribed_preimages q s' ≡ (
                elim (entry_after period preimages c.inscribed_connector_tree_preimages q) [
                  | some found ↦ ok found
                  | none ↦ err period_could_not_be_found
                ],
                s',
              ))
    unfolding add_inscribed_preimages
    get_preimages-add_preimages s c period preimages h =
        let v = c.inscribed_connector_tree_preimages in
        let (ys, at, (s', done, stored)) =
          store_at (padded period v) period preimages (get_or v period [])
            (λ v. record c { inscribed_connector_tree_preimages = v }) s (padded-there period v) in
        (s', read-bind _ s c h ∙ done, λ q. found ys at s' stored q)
      where
        found :
            (ys : List (List Bytes))
            → ((q : ℕ)
                → get_elem? ys q ≡ (
                    if q == period
                    then some preimages
                    else get_elem? (padded period c.inscribed_connector_tree_preimages) q))
            → (s' : d.Disk) → Stored s' (record c { inscribed_connector_tree_preimages = ys })
            → (q : ℕ)
            → get_inscribed_preimages q s' ≡ (
              elim (entry_after period preimages c.inscribed_connector_tree_preimages q) [
                | some found ↦ ok found
                | none ↦ err period_could_not_be_found
              ],
              s',
            )
        found ys at s' stored q =
            unfold get_inscribed_preimages in
            read-bind _ s' (record c { inscribed_connector_tree_preimages = ys }) stored
            ∙ rw
                (
                  padded-entry period preimages c.inscribed_connector_tree_preimages ys at q,
                  get_or_err,
                )
                refl
