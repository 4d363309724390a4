-- ===== src/Operator/Setup/Agreement.antt =====
-- The operator's set-up and the verifiers' `connector_roots_created`, one against the other.
use clementine_citeria.Common.{ℕ, ◌≡◌, refl, ap, ◌∙◌, List}
use clementine_citeria.Common.Bytes.{Bytes}
use clementine_citeria.Hash.{Crypto}
use clementine_citeria.Bitcoin.{BitcoinCrate}
use clementine_citeria.Database.{Dbms, Db, DatabaseContent, OutPoint}
use clementine_citeria.Database.Laws.{WorkingDisk, Stored, Becomes, setters-Becomes}
use clementine_citeria.Errors.{ok, Host}
use clementine_citeria.Errors.Binds.{◌>>=◌, bind-run, lift-run}
use clementine_citeria.Script.{ScriptCrate}
use clementine_citeria.Builder.{TaprootCrate}
use clementine_citeria.Builder.Connector.{ConnectorTrees, create_all_connector_trees}
use clementine_citeria.Rpc.{Client}
use clementine_citeria.Operator.{Rng}
use clementine_citeria.Operator.State.{World, Operator, from_outcome}
use clementine_citeria.Operator.Setup.{Setup, initial_setup}
use clementine_citeria.Verifier.{Verifier, verifier_db, connector_roots_created}
use clementine_citeria.Operator.Setup.Stored.{with_trees, initial_setup-Stored}

-- The two databases hold the same connector trees, claim proof trees and periods.
pub record Agree (o v : DatabaseContent) : Type 0 where
  pub same_utxos : v.connector_tree_utxos ≡ o.connector_tree_utxos
  pub same_hashes : v.connector_tree_hashes ≡ o.connector_tree_hashes
  pub same_claim_trees : v.claim_proof_merkle_trees ≡ o.claim_proof_merkle_trees
  pub same_start : v.start_block_height ≡ o.start_block_height
  pub same_heights : v.period_relative_block_heights ≡ o.period_relative_block_heights

module _ ⦃d : Dbms⦄ where
  verifier_db-run :
      {B : Type 0} (m : Db (Unit {0})) (f : Unit {0} → Host d.Disk B) (s : d.Disk)
      {c : DatabaseContent}
      → Becomes m s c
      → (s' : d.Disk) × Stored s' c × ((verifier_db m >>= f) s ≡ f tt s')
  unfolding verifier_db from_outcome
  verifier_db-run m f s becomes =
      let (s', e, stored) = becomes in
      (s', stored, bind-run (verifier_db m) f s s' tt (ap (λ p. (from_outcome p.0, p.1)) e))

module _ ⦃c : Crypto⦄ ⦃b : BitcoinCrate⦄ ⦃k : ScriptCrate⦄ ⦃t : TaprootCrate⦄ ⦃d : Dbms⦄
    ⦃works : WorkingDisk d⦄ where
  -- What a verifier's disk holds after it was told of the connector trees.
  connector_roots-Stored :
      (verifier : Verifier) (hashes : List (List (List Bytes))) (utxo : OutPoint) (start : ℕ)
      (heights : List ℕ) (s : d.Disk) (trees : ConnectorTrees) {content : DatabaseContent}
      → Stored s content
      → create_all_connector_trees verifier.verifiers hashes utxo start heights ≡ ok trees
      → (s' : d.Disk) × (connector_roots_created verifier hashes utxo start heights s ≡ (ok tt, s'))
        × Stored s' (record content {
          connector_tree_utxos = trees.utxo_trees;
          connector_tree_hashes = hashes;
          claim_proof_merkle_trees = trees.claim_proof_merkle_trees;
          start_block_height = start;
          period_relative_block_heights = heights;
        })
  unfolding connector_roots_created verifier_db from_outcome
  connector_roots-Stored verifier hashes utxo start heights s trees {content} stored made =
      let c1 = record content { connector_tree_utxos = trees.utxo_trees } in
      let c2 = record c1 { connector_tree_hashes = hashes } in
      let c3 = record c2 { claim_proof_merkle_trees = trees.claim_proof_merkle_trees } in
      let c4 = record c3 { start_block_height = start } in
      let (s1, st1, e1) =
        verifier_db-run _ _ s ((setters-Becomes s content stored).3 trees.utxo_trees) in
      let (s2, st2, e2) = verifier_db-run _ _ s1 ((setters-Becomes s1 c1 st1).0 hashes) in
      let (s3, st3, e3) =
        verifier_db-run _ _ s2 ((setters-Becomes s2 c2 st2).1 trees.claim_proof_merkle_trees) in
      let (s4, st4, e4) = verifier_db-run _ _ s3 ((setters-Becomes s3 c3 st3).4 start) in
      let (s5, e5, st5) = (setters-Becomes s4 c4 st4).5 heights in
      (
        s5,
        lift-run _ _ s trees made
            ∙ (e1 ∙ (e2 ∙ (e3 ∙ (e4 ∙ ap (λ p. (from_outcome p.0, p.1)) e5)))),
        st5,
      )

module _ ⦃c : Crypto⦄ ⦃b : BitcoinCrate⦄ ⦃k : ScriptCrate⦄ ⦃t : TaprootCrate⦄ ⦃d : Dbms⦄
    ⦃r : Client⦄ ⦃g : Rng⦄ ⦃works : WorkingDisk d⦄ where
  -- On disks that work: when the operator's set-up succeeded and a verifier with the same keys is told
  -- of what it returned, the verifier succeeds too, and both databases hold the same trees of unspent
  -- outputs, hashes, claim proof trees, start height and periods.
  pub connector_roots_created-Agree :
      (operator : Operator) (seed : g.Seed) (w : World) {w' : World} {out : Setup}
      (verifier : Verifier) (s : d.Disk) {co cv : DatabaseContent}
      → Stored w.disk co
      → Stored s cv
      → verifier.verifiers ≡ operator.verifiers_pks
      → initial_setup operator seed w ≡ (ok out, w')
      → (s' : d.Disk) × (co' : DatabaseContent) × (cv' : DatabaseContent) × (connector_roots_created
            verifier out.connector_tree_hashes out.first_source_utxo out.start_block_height
            out.period_relative_block_heights s
          ≡ (ok tt, s'))
        × Stored w'.disk co'
        × Stored s' cv'
        × Agree co' cv'
  connector_roots_created-Agree operator seed w {w'} {out} verifier s {co} {cv} so sv keys h =
      let (trees, made, stored) = initial_setup-Stored operator seed w so h in
      let made' =
        ap
          (λ pks.
            create_all_connector_trees pks out.connector_tree_hashes out.first_source_utxo
              out.start_block_height out.period_relative_block_heights)
          keys
        ∙ made in
      let (s', e, stored') =
        connector_roots-Stored verifier out.connector_tree_hashes out.first_source_utxo
          out.start_block_height out.period_relative_block_heights s trees sv made' in
      (
        s',
        with_trees
            (record co {
              start_block_height = out.start_block_height;
              period_relative_block_heights = out.period_relative_block_heights;
              connector_tree_hashes = out.connector_tree_hashes;
            })
            trees,
        record cv {
          connector_tree_utxos = trees.utxo_trees;
          connector_tree_hashes = out.connector_tree_hashes;
          claim_proof_merkle_trees = trees.claim_proof_merkle_trees;
          start_block_height = out.start_block_height;
          period_relative_block_heights = out.period_relative_block_heights;
        },
        e,
        stored,
        stored',
        record {
          same_utxos = refl;
          same_hashes = refl;
          same_claim_trees = refl;
          same_start = refl;
          same_heights = refl;
        },
      )
