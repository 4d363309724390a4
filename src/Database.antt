-- ===== src/Database.antt =====
-- `Database` of core/src/db/common.rs over the file of core/src/db/text.rs, which with its JSON is a
-- parameter: a disk that is read and written whole. The mutex is not modelled (one thread).
pub mod Padding
pub mod Laws
pub mod Periods
pub mod Errors
use clementine_citeria.Common.{
  ltb, ℕ, zero, suc, ◌+◌, ◌-◌, ◌⊎◌, inl, inr, List, [], ◌∷◌, ◌++◌, Option, none, some, length, leb,
  if◌then◌else◌, get_elem?, set?,
}
use clementine_citeria.Common.Bytes.{Bytes}
use clementine_citeria.Hash.{Crypto}
use clementine_citeria.Merkle.Tree
use clementine_citeria.Merkle.Tree.{MerkleTree}

-- A transaction's id and an output's index.
abbrev pub OutPoint : Type 0
OutPoint = Bytes × ℕ

abbrev pub InscriptionTxs : Type 0
InscriptionTxs = OutPoint × Bytes

-- A transaction's id and a taproot key.
abbrev pub WithdrawalPayment : Type 0
WithdrawalPayment = Bytes × Bytes

pub record DatabaseContent : Type 0 where
  pub inscribed_connector_tree_preimages : List (List Bytes)
  pub connector_tree_hashes : List (List (List Bytes))
  pub claim_proof_merkle_trees : List MerkleTree
  pub inscription_txs : List InscriptionTxs
  pub withdrawals_merkle_tree : MerkleTree
  pub withdrawals_payment_txids : List (List WithdrawalPayment)
  pub connector_tree_utxos : List (List (List OutPoint))
  pub start_block_height : ℕ
  pub period_relative_block_heights : List ℕ

unfoldable pub empty_content : DatabaseContent
empty_content = record {
  inscribed_connector_tree_preimages = [];
  connector_tree_hashes = [];
  claim_proof_merkle_trees = [];
  inscription_txs = [];
  withdrawals_merkle_tree = Tree.new 32;
  withdrawals_payment_txids = [];
  connector_tree_utxos = [];
  start_block_height = 0;
  period_relative_block_heights = [];
}

-- `std::io::Error`, of which the code asks only whether it is `NotFound`.
pub data IoError : Type 0 where
  not_found other_io : IoError

-- `BridgeError::DatabaseError`, with an error of the disk or a message of this module.
pub data DatabaseError : Type 0 where
  io : IoError → DatabaseError
  index_could_not_be_found level_could_not_be_found period_could_not_be_found : DatabaseError

-- What a function ends in: `Ok`, `Err` or a panic.
pub data Outcome {ℓ} (A : Type ℓ) : Type ℓ where
  ok : A → Outcome A
  err : DatabaseError → Outcome A
  panic : Outcome A

-- `TextDatabase`
pub record Dbms : Type 1 where
  pub Disk : Type 0
  pub read_disk : Disk → DatabaseContent ⊎ IoError
  pub write_disk : DatabaseContent → Disk → Option IoError × Disk

-- `while period >= v.len() { v.push(Vec::new()) }`, with the rounds as fuel.
unfoldable pub push_while : {A : Type 0} → ℕ → ℕ → List (List A) → List (List A)
push_while zero period v = v
push_while (suc fuel) period v =
    let rest = push_while fuel period (v ++ [] ∷ []) in if leb (length v) period then rest else v

-- The fuel is enough: Database/Padding.antt.
unfoldable pub padded : {A : Type 0} → ℕ → List (List A) → List (List A)
padded period v = push_while (suc period) period v

module _ ⦃d : Dbms⦄ where
  abbrev pub Db : Type 0 → Type 0
  Db A = d.Disk → Outcome A × d.Disk

  abbrev pub return : {A : Type 0} → Outcome A → Db A
  return r s = (r, s)

  infixl 5 ◌>>=◌ ◌>>◌
  unfoldable pub ◌>>=◌ : {A B : Type 0} → Db A → (A → Db B) → Db B
  ◌>>=◌ m f s = elim ((m s).0) [
    | ok a ↦ f a (m s).1
    | err e ↦ (err e, (m s).1)
    | panic ↦ (panic, (m s).1)
  ]

  abbrev pub ◌>>◌ : {B : Type 0} → Db (Unit {0}) → Db B → Db B
  m >> k = m >>= λ _. k

  -- What a file that is not there stands for.
  unfoldable pub content_of : DatabaseContent ⊎ IoError → Outcome DatabaseContent
  content_of (inl c) = ok c
  content_of (inr not_found) = ok empty_content
  content_of (inr other_io) = err (io other_io)

  unfoldable pub read : Db DatabaseContent
  read s = (content_of (d.read_disk s), s)

  unfoldable pub outcome_of : Option IoError × d.Disk → Outcome (Unit {0}) × d.Disk
  outcome_of (none, s) = (ok tt, s)
  outcome_of (some e, s) = (err (io e), s)

  unfoldable pub write : DatabaseContent → Db (Unit {0})
  write content s = outcome_of (d.write_disk content s)

  -- `v.get(i)` with an error, and `v[i]`.
  abbrev pub get_or_err : {A : Type 0} → List A → ℕ → DatabaseError → Outcome A
  get_or_err xs i e = elim (get_elem? xs i) [ some a ↦ ok a | none ↦ err e ]

  abbrev pub index : {A : Type 0} → List A → ℕ → Outcome A
  index xs i = elim (get_elem? xs i) [ some a ↦ ok a | none ↦ panic ]

  unfoldable pub get_connector_tree_hash : ℕ → ℕ → ℕ → Db Bytes
  get_connector_tree_hash period level idx = do
    content ← read
    levels ← return (get_or_err content.connector_tree_hashes period period_could_not_be_found)
    hashes ← return (get_or_err levels level level_could_not_be_found)
    return (get_or_err hashes idx index_could_not_be_found)

  unfoldable pub set_connector_tree_hashes : List (List (List Bytes)) → Db (Unit {0})
  set_connector_tree_hashes hashes = do
    content ← read
    write (record content { connector_tree_hashes = hashes })

  unfoldable pub get_claim_proof_merkle_tree : ℕ → Db MerkleTree
  get_claim_proof_merkle_tree period = do
    content ← read
    return (get_or_err content.claim_proof_merkle_trees period period_could_not_be_found)

  unfoldable pub set_claim_proof_merkle_trees : List MerkleTree → Db (Unit {0})
  set_claim_proof_merkle_trees trees = do
    content ← read
    write (record content { claim_proof_merkle_trees = trees })

  unfoldable pub get_inscription_txs : Db (List InscriptionTxs)
  get_inscription_txs = do content ← read; return (ok content.inscription_txs)

  unfoldable pub get_inscription_txs_len : Db ℕ
  get_inscription_txs_len = do content ← read; return (ok (length content.inscription_txs))

  unfoldable pub add_to_inscription_txs : InscriptionTxs → Db (Unit {0})
  add_to_inscription_txs txs = do
    content ← read
    write (record content { inscription_txs = content.inscription_txs ++ txs ∷ [] })

  unfoldable pub get_withdrawals_merkle_tree_index : Db ℕ
  get_withdrawals_merkle_tree_index = do
    content ← read
    return (ok content.withdrawals_merkle_tree.index)

  unfoldable pub add_to_withdrawals_merkle_tree : ⦃c : Crypto⦄ → Bytes → Db (Unit {0})
  add_to_withdrawals_merkle_tree hash = do
    content ← read
    tree ←
        return
          (elim (Tree.add content.withdrawals_merkle_tree hash) [ some t ↦ ok t | none ↦ panic ])
    write (record content { withdrawals_merkle_tree = tree })

  unfoldable pub get_withdrawals_payment_for_period : ℕ → Db (List WithdrawalPayment)
  get_withdrawals_payment_for_period period = do
    content ← read
    return (index content.withdrawals_payment_txids period)

  unfoldable pub add_to_withdrawals_payment_txids : ℕ → WithdrawalPayment → Db (Unit {0})
  add_to_withdrawals_payment_txids period payment = do
    content ← read
    let txids = padded period content.withdrawals_payment_txids
    payments ← return (index txids period)
    txids' ←
        return
          (elim (set? txids period (payments ++ payment ∷ [])) [ some v ↦ ok v | none ↦ panic ])
    write (record content { withdrawals_payment_txids = txids' })

  unfoldable pub get_connector_tree_utxo : ℕ → Db (List (List OutPoint))
  get_connector_tree_utxo idx = do content ← read; return (index content.connector_tree_utxos idx)

  unfoldable pub set_connector_tree_utxos : List (List (List OutPoint)) → Db (Unit {0})
  set_connector_tree_utxos utxos = do
    content ← read
    write (record content { connector_tree_utxos = utxos })

  unfoldable pub get_start_block_height : Db ℕ
  get_start_block_height = do content ← read; return (ok content.start_block_height)

  unfoldable pub set_start_block_height : ℕ → Db (Unit {0})
  set_start_block_height height = do
    content ← read
    write (record content { start_block_height = height })

  unfoldable pub get_period_relative_block_heights : Db (List ℕ)
  get_period_relative_block_heights = do
    content ← read
    return (ok content.period_relative_block_heights)

  unfoldable pub set_period_relative_block_heights : List ℕ → Db (Unit {0})
  set_period_relative_block_heights heights = do
    content ← read
    write (record content { period_relative_block_heights = heights })

  unfoldable pub get_inscribed_preimages : ℕ → Db (List Bytes)
  get_inscribed_preimages period = do
    content ← read
    return (get_or_err content.inscribed_connector_tree_preimages period period_could_not_be_found)

  unfoldable pub add_inscribed_preimages : ℕ → List Bytes → Db (Unit {0})
  add_inscribed_preimages period preimages = do
    content ← read
    let all = padded period content.inscribed_connector_tree_preimages
    all' ← return (elim (set? all period preimages) [ some v ↦ ok v | none ↦ panic ])
    write (record content { inscribed_connector_tree_preimages = all' })
