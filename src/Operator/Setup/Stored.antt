-- ===== src/Operator/Setup/Stored.antt =====
-- What the operator's disk holds after a set-up.
use clementine_citeria.Common.{ℕ, ◌+◌, ◌≡◌, ap, sym, ◌∙◌, subst, List}
use clementine_citeria.Common.Bytes.{Bytes}
use clementine_citeria.Hash.{Crypto}
use clementine_citeria.Bitcoin.{BitcoinCrate}
use clementine_citeria.Circuit.Constants.{num_rounds}
use clementine_citeria.Constants.{connector_tree_depth}
use clementine_citeria.Database
use clementine_citeria.Database.{
  Dbms, Db, DatabaseContent, OutPoint, set_start_block_height, set_period_relative_block_heights,
  set_connector_tree_hashes, set_claim_proof_merkle_trees, set_connector_tree_utxos,
}
use clementine_citeria.Database.Laws.{WorkingDisk, Stored, Becomes, setters-Becomes}
use clementine_citeria.Errors.{ok, Host, unwrap_result}
use clementine_citeria.Errors.Binds.{
  ◌>>=◌, bind-run, bind-inv, ask-inv, lift-inv, unwrap_result-inv, ok-eq,
}
use clementine_citeria.Script.{ScriptCrate}
use clementine_citeria.Builder.{TaprootCrate}
use clementine_citeria.Builder.Connector.{ConnectorTrees, create_all_connector_trees}
use clementine_citeria.Rpc.{Client}
use clementine_citeria.Operator.{Rng, create_all_rounds_connector_preimages}
use clementine_citeria.Operator.State.{
  World, Operator, db, rpc_unwrap, from_outcome, set_connector_tree_preimages,
}
use clementine_citeria.Operator.Setup.{
  Setup, period_heights, fund_source, store_trees, initial_setup,
}

module _ ⦃d : Dbms⦄ ⦃r : Client⦄ where
  pub db-run :
      (m : Db (Unit {0})) (w : World) (s : d.Disk)
      → m w.disk ≡ (Database.ok tt, s)
      → db m w ≡ (ok tt, record w { disk = s })
  unfolding db from_outcome
  db-run m w s h = ap (λ p. (from_outcome p.0, record w { disk = p.1 })) h

  -- A setter of a run that ended in `Ok`: the disk holds the new content from there on.
  db-step :
      {B : Type 0} (m : Db (Unit {0})) (f : Unit {0} → Host World B) (w : World) {b : B}
      {w' : World} {c : DatabaseContent}
      → Becomes m w.disk c
      → (db m >>= f) w ≡ (ok b, w')
      → (s : d.Disk) × Stored s c × (f tt (record w { disk = s }) ≡ (ok b, w'))
  db-step m f w becomes h =
      let (s, e, stored) = becomes in
      (s, stored, sym (bind-run (db m) f w (record w { disk = s }) tt (db-run m w s e)) ∙ h)

  preimages-disk :
      (preimages : List (List (List Bytes))) (w : World) {u : Unit {0}} {w' : World}
      → set_connector_tree_preimages preimages w ≡ (ok u, w')
      → w'.disk ≡ w.disk
  unfolding set_connector_tree_preimages
  preimages-disk preimages w h = sym (ap (λ p. p.1.disk) h)

module _ ⦃c : Crypto⦄ ⦃b : BitcoinCrate⦄ ⦃k : ScriptCrate⦄ ⦃t : TaprootCrate⦄ ⦃d : Dbms⦄
    ⦃r : Client⦄ ⦃g : Rng⦄ ⦃works : WorkingDisk d⦄ where
  -- The content after the trees of a set-up were stored.
  abbrev pub with_trees : DatabaseContent → ConnectorTrees → DatabaseContent
  with_trees content trees = record content {
    claim_proof_merkle_trees = trees.claim_proof_merkle_trees;
    connector_tree_utxos = trees.utxo_trees;
  }

  store_trees-Stored :
      (operator : Operator) (start : ℕ) (heights : List ℕ) (hashes : List (List (List Bytes)))
      (utxo : OutPoint) (w : World) {w' : World} {out : Setup} {content : DatabaseContent}
      → Stored w.disk content
      → store_trees operator start heights hashes utxo w ≡ (ok out, w')
      → (trees : ConnectorTrees) × (create_all_connector_trees operator.verifiers_pks hashes utxo
            start heights
          ≡ ok trees)
        × Stored w'.disk (with_trees content trees)
        × (record {
          first_source_utxo = utxo;
          start_block_height = start;
          connector_tree_hashes = hashes;
          period_relative_block_heights = heights;
          claim_proof_merkle_trees = trees.claim_proof_merkle_trees;
        }
            ≡ out)
  unfolding store_trees
  store_trees-Stored operator start heights hashes utxo w {content = content} stored h =
      let made = create_all_connector_trees operator.verifiers_pks hashes utxo start heights in
      let (trees, e, h1) = lift-inv (unwrap_result made) _ w h in
      let set1 = (setters-Becomes w.disk content stored).1 trees.claim_proof_merkle_trees in
      let (s1, st1, h2) = db-step _ _ w set1 h1 in
      let content1 = record content { claim_proof_merkle_trees = trees.claim_proof_merkle_trees } in
      let set2 = (setters-Becomes s1 content1 st1).3 trees.utxo_trees in
      let (s2, st2, h3) = db-step _ _ (record w { disk = s1 }) set2 h2 in
      (
        trees,
        unwrap_result-inv made e,
        subst (λ (x : World). Stored x.disk (with_trees content trees)) (ap (λ p. p.1) h3) st2,
        ok-eq (ap (λ p. p.0) h3),
      )

  fund_source-disk :
      (operator : Operator) (start : ℕ) (heights : List ℕ) (w : World) {w' : World}
      {utxo : OutPoint}
      → fund_source operator start heights w ≡ (ok utxo, w')
      → w'.disk ≡ w.disk
  unfolding fund_source rpc_unwrap
  fund_source-disk operator start heights w h =
      let (single, e1, h1) = lift-inv _ _ w h in
      let (height, e2, h2) = lift-inv _ _ w h1 in
      let (address, e3, h3) = lift-inv _ _ w h2 in
      let (utxo, w1, e4, h4) = bind-inv (rpc_unwrap _) _ w h3 in
      let (tx, e5, h5) = ask-inv _ _ w1 h4 in
      sym (ap (λ p. p.1.disk) h5) ∙ sym (ap (λ p. p.1.disk) e4)

  -- What the operator's disk holds after a set-up, and how the trees were made.
  pub initial_setup-Stored :
      (operator : Operator) (seed : g.Seed) (w : World) {w' : World} {out : Setup}
      {content : DatabaseContent}
      → Stored w.disk content
      → initial_setup operator seed w ≡ (ok out, w')
      → (trees : ConnectorTrees) × (create_all_connector_trees operator.verifiers_pks
            out.connector_tree_hashes out.first_source_utxo out.start_block_height
            out.period_relative_block_heights
          ≡ ok trees)
        × Stored w'.disk (
            with_trees
              (record content {
                start_block_height = out.start_block_height;
                period_relative_block_heights = out.period_relative_block_heights;
                connector_tree_hashes = out.connector_tree_hashes;
              })
              trees)
  unfolding initial_setup
  initial_setup-Stored operator seed w {w'} {out} {content} stored h =
      let (old, e1, h1) = ask-inv _ _ w h in
      let (u, e2, h2) = lift-inv _ _ w h1 in
      let (start, e3, h3) = ask-inv _ _ w h2 in
      let heights = period_heights (num_rounds + 1) 0 in
      let made = create_all_rounds_connector_preimages connector_tree_depth num_rounds seed in
      let c1 = record content { start_block_height = start } in
      let c2 = record c1 { period_relative_block_heights = heights } in
      let c3 = record c2 { connector_tree_hashes = made.1 } in
      let (s1, st1, h4) = db-step _ _ w ((setters-Becomes w.disk content stored).4 start) h3 in
      let w1 = record w { disk = s1 } in
      let (s2, st2, h5) = db-step _ _ w1 ((setters-Becomes s1 c1 st1).5 heights) h4 in
      let w2 = record w1 { disk = s2 } in
      let (u3, w3, e6, h6) = bind-inv (set_connector_tree_preimages made.0) _ w2 h5 in
      let disk3 : w3.disk ≡ s2 = preimages-disk made.0 w2 e6 in
      let st3 = subst (λ x. Stored x c2) (sym disk3) st2 in
      let (s4, st4, h7) = db-step _ _ w3 ((setters-Becomes w3.disk c2 st3).0 made.1) h6 in
      let w4 = record w3 { disk = s4 } in
      let (utxo, w5, e8, h8) = bind-inv (fund_source operator start heights) _ w4 h7 in
      let st5 =
        subst (λ x. Stored x c3) (sym (fund_source-disk operator start heights w4 e8)) st4 in
      let (trees, et, st6, eo) = store_trees-Stored operator start heights made.1 utxo w5 st5 h8 in
      subst
        (λ (o : Setup).
          (trees : ConnectorTrees) × (create_all_connector_trees operator.verifiers_pks
              o.connector_tree_hashes o.first_source_utxo o.start_block_height
              o.period_relative_block_heights
            ≡ ok trees)
          × Stored w'.disk (
              with_trees
                (record content {
                  start_block_height = o.start_block_height;
                  period_relative_block_heights = o.period_relative_block_heights;
                  connector_tree_hashes = o.connector_tree_hashes;
                })
                trees))
        eo (trees, et, st6)
