-- ===== src/Operator/State.antt =====
-- What the operator of core/src/operator.rs works on: `OperatorMockDB` of core/src/db/operator.rs
-- over the database, and the node behind its RPC.
use clementine_citeria.Common.{ℕ, ◌-◌, List, [], ◌∷◌, ◌++◌, length, get_elem?, if◌then◌else◌}
use clementine_citeria.Common.Bytes.{Bytes, bytes_eq}
use clementine_citeria.Database.{
  Dbms, Db, Outcome, OutPoint, get_connector_tree_utxo, get_connector_tree_hash,
}
use clementine_citeria.Errors.{
  Result, ok, err, panic, unwrap, unwrap_result, Host, database_error, invalid_operator_key, ◌>>=◌,
}
use clementine_citeria.Script.{ScriptCrate}
use clementine_citeria.Constants.{connector_tree_depth}
use clementine_citeria.Builder.{TaprootCrate}
use clementine_citeria.Builder.Transactions.{CreateTxOutputs, create_operator_claim_tx}
use clementine_citeria.Actor.{Secp, Actor, new_actor}
use clementine_citeria.Rpc.{Client}

pub record DepositPresigns : Type 0 where
  pub move_sign : Bytes
  pub operator_claim_sign : List Bytes

-- `OperatorClaimSigs`
abbrev pub OperatorClaimSigs : Type 0
OperatorClaimSigs = List (List Bytes)

pub record World ⦃d : Dbms⦄ ⦃r : Client⦄ : Type 0 where
  pub disk : d.Disk
  pub deposit_take_sigs : List OperatorClaimSigs
  pub connector_tree_preimages : List (List (List Bytes))
  pub node : r.Node

-- `VerifierConnector::new_deposit`, which the operator calls on each of its verifiers: the deposit,
-- the return address, the deposit's index, the EVM address and the operator's address.
abbrev pub NewDeposit : ⦃r : Client⦄ → Type 0
NewDeposit ⦃r⦄ = r.Node → OutPoint → Bytes → ℕ → Bytes → Bytes → Result DepositPresigns

pub record Operator ⦃r : Client⦄ : Type 0 where
  pub signer : Actor
  pub verifiers_pks : List Bytes
  pub verifier_connector : List NewDeposit

-- `Operator::new`: the operator's key is the last.
unfoldable pub new_operator :
    ⦃r : Client⦄
    → ⦃p : Secp⦄ → ⦃t : TaprootCrate⦄ → List Bytes
    → Bytes
    → List NewDeposit
    → Result Operator
new_operator all_xonly_pks operator_sk verifiers = do
  let signer = new_actor operator_sk
  operator_pk ← unwrap (get_elem? all_xonly_pks (length all_xonly_pks - 1))
  if bytes_eq signer.xonly_public_key operator_pk
      then ok (record {
        signer = signer;
        verifiers_pks = all_xonly_pks;
        verifier_connector = verifiers;
      })
      else err invalid_operator_key

unfoldable pub from_outcome : {A : Type 0} → Outcome A → Result A
from_outcome (Outcome.ok a) = ok a
from_outcome (Outcome.err e) = err (database_error e)
from_outcome Outcome.panic = panic

module _ ⦃d : Dbms⦄ ⦃r : Client⦄ where
  -- A getter of the database.
  unfoldable pub query : {A : Type 0} → Db A → d.Disk → Result A
  query m disk = from_outcome (m disk).0

  -- An operation of the database.
  unfoldable pub db : {A : Type 0} → Db A → Host World A
  db m w = (from_outcome (m w.disk).0, record w { disk = (m w.disk).1 })

  -- A call of the node.
  unfoldable pub rpc : {A : Type 0} → Host r.Node A → Host World A
  rpc m w = ((m w.node).0, record w { node = (m w.node).1 })

  -- `unwrap()`
  unfoldable pub rpc_unwrap : {A : Type 0} → Host r.Node A → Host World A
  rpc_unwrap m w = (unwrap_result (m w.node).0, record w { node = (m w.node).1 })

  unfoldable pub get_deposit_index : World → ℕ
  get_deposit_index w = length w.deposit_take_sigs

  unfoldable pub add_deposit_take_sigs : OperatorClaimSigs → Host World (Unit {0})
  add_deposit_take_sigs sigs w =
      (ok tt, record w { deposit_take_sigs = w.deposit_take_sigs ++ sigs ∷ [] })

  unfoldable pub get_connector_tree_preimages_level : World → ℕ → ℕ → Result (List Bytes)
  get_connector_tree_preimages_level w period level = do
    tree ← unwrap (get_elem? w.connector_tree_preimages period)
    unwrap (get_elem? tree level)

  unfoldable pub get_connector_tree_preimages : World → ℕ → ℕ → ℕ → Result Bytes
  get_connector_tree_preimages w period level idx = do
    preimages ← get_connector_tree_preimages_level w period level
    unwrap (get_elem? preimages idx)

  unfoldable pub set_connector_tree_preimages : List (List (List Bytes)) → Host World (Unit {0})
  set_connector_tree_preimages preimages w =
      (ok tt, record w { connector_tree_preimages = preimages })

  -- In the loops over the periods of the operator's and the verifier's `new_deposit`: the claim of a
  -- deposit in the period `i`, from the keys, the operator's address and key, and a database.
  unfoldable pub claim_tx :
      ⦃k : ScriptCrate⦄
      → ⦃t : TaprootCrate⦄ → List Bytes
      → Bytes
      → Bytes
      → d.Disk
      → OutPoint
      → ℕ
      → ℕ
      → Result CreateTxOutputs
  claim_tx verifiers_pks operator_address operator_xonly disk move_utxo deposit_index i = do
    utxos ← query (get_connector_tree_utxo i) disk
    level ← unwrap (get_elem? utxos connector_tree_depth)
    connector_utxo ← unwrap (get_elem? level deposit_index)
    connector_hash ← query (get_connector_tree_hash i connector_tree_depth deposit_index) disk
    create_operator_claim_tx verifiers_pks move_utxo connector_utxo operator_address operator_xonly
        connector_hash
