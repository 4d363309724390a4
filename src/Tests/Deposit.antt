-- ===== src/Tests/Deposit.antt =====
-- Deposits with an honest verifier.
use clementine_citeria.Common.{
  ℕ, zero, suc, ◌^◌, ◌<◌, ◌≡◌, refl, sym, subst, some-eq, List, [], ◌∷◌, ◌++◌, some, none, inl, map,
  get_elem?, replicate, arith,
}
use clementine_citeria.Common.Bytes.{bytes_eq}
use clementine_citeria.Hash.{double_sha256_hash}
use clementine_citeria.Circuit.Constants.{num_rounds, bridge_amount_sats}
use clementine_citeria.Database
use clementine_citeria.Database.{
  DatabaseContent, OutPoint, empty_content, content_of, read, get_connector_tree_utxo,
  get_connector_tree_hash,
}
use clementine_citeria.Errors.{ok, collect_map}
use clementine_citeria.Errors.Binds
use clementine_citeria.Script.{anyone_can_spend_txout, op_return_txout, dust_txout}
use clementine_citeria.Builder.{
  amount_add, amount_mul, amount_sub, add_leaves, leaf_depth, taproot_builder, finish,
  create_taproot_address, generate_deposit_address, generate_bridge_address,
  create_connector_tree_node_address,
}
use clementine_citeria.Builder.Transactions.{
  create_move_tx, create_operator_claim_tx, bridge_value, claim_value,
  create_operator_claim_tx_prevouts,
}
use clementine_citeria.Actor.{sign, sighash_taproot_script_spend, sign_taproot_script_spend_tx_new}
use clementine_citeria.Rpc.{
  confirmation_blocks, check_utxo_address_and_amount, is_utxo_spent, get_raw_transaction,
  get_raw_transaction_info, txout_eq, send_raw_transaction, call,
}
use clementine_citeria.Rpc.Deposit.{check_deposit_utxo, handle_taproot_witness_new}
use clementine_citeria.Verifier.{Verifier, claim_signatures, give_presigns}
use clementine_citeria.Operator.State.{
  World, Operator, DepositPresigns, query, rpc, from_outcome, get_deposit_index,
  add_deposit_take_sigs, claim_tx,
}
use clementine_citeria.Operator.Claims.{
  verify_sigs, sigs_of_period, claim_sighash, verify_claims, collect_presigns,
}
use clementine_citeria.Operator.Deposit.{send_move_tx, accept_deposit, new_deposit}
use clementine_citeria.Operator.Deposit.Checks.{Signed}
use clementine_citeria.Operator.Deposit.Sent.{with_sigs, AnswersTxid}
use clementine_citeria.Operator.Deposit.Presigns.{HonestVerifier}
use clementine_citeria.Operator.Deposit.Sound.{new_deposit_sound}
use clementine_citeria.Operator.Deposit.Complete.{new_deposit_complete}
use clementine_citeria.Writer.MerklePath.{log2_within, reverse}
use clementine_citeria.Tests.Toy.{hash_of}
use clementine_citeria.Tests.Database.{memory}
use clementine_citeria.Tests.Host.{
  result_or, flat, flat_bitcoin, short_scripts, leaf_list, plain_keys, one_deposit, sk_of, actor_of,
}

abbrev utxo : OutPoint
utxo = (hash_of 7, 0)

-- One connector output in each of the four periods.
abbrev content : DatabaseContent
content = record empty_content {
  connector_tree_utxos = replicate 4 (replicate 5 (utxo ∷ []));
  connector_tree_hashes = replicate 4 (replicate 5 (hash_of 7 ∷ []));
}

abbrev verifier : Verifier
verifier = record { signer = actor_of 1; verifiers = sk_of 1 ∷ sk_of 2 ∷ []; operator_pk = sk_of 2 }

abbrev operator : Operator
operator = record {
  signer = actor_of 2;
  verifiers_pks = sk_of 1 ∷ sk_of 2 ∷ [];
  verifier_connector = give_presigns verifier (inl content) ∷ [];
}

abbrev start : World
start = record {
  disk = inl content;
  deposit_take_sigs = [];
  connector_tree_preimages = [];
  node = 100;
}

abbrev accepted : OutPoint
accepted = (hash_of 7, 0)

abbrev after : World
after = (new_deposit operator utxo (sk_of 8) (sk_of 9) start).1

accepted-ok : new_deposit operator utxo (sk_of 8) (sk_of 9) start ≡ (ok accepted, after)
unfolding double_sha256_hash new_deposit Binds.◌>>=◌ check_deposit_utxo confirmation_blocks
    get_raw_transaction_info generate_deposit_address finish check_utxo_address_and_amount
    get_raw_transaction txout_eq bytes_eq is_utxo_spent get_deposit_index collect_presigns
    collect_map give_presigns create_move_tx generate_bridge_address bridge_value amount_sub
    anyone_can_spend_txout op_return_txout dust_txout sign_taproot_script_spend_tx_new
    claim_signatures claim_tx query get_connector_tree_utxo get_connector_tree_hash Database.◌>>=◌
    read content_of empty_content from_outcome create_operator_claim_tx
    create_connector_tree_node_address create_taproot_address taproot_builder add_leaves leaf_depth
    log2_within claim_value amount_mul amount_add create_operator_claim_tx_prevouts accept_deposit
    send_move_tx reverse sign handle_taproot_witness_new rpc send_raw_transaction call
    add_deposit_take_sigs verify_claims claim_sighash sighash_taproot_script_spend sigs_of_period
    verify_sigs
accepted-ok = refl

new_deposit_sound_example :
    (presigns : List DepositPresigns) × (check_deposit_utxo 100
        (sk_of 1 ∷ sk_of 2 ∷ [])
        utxo
        (sk_of 8)
        (sk_of 9)
        bridge_amount_sats
      ≡ ok tt)
    × (collect_presigns operator 100 utxo (sk_of 8) (get_deposit_index start) (sk_of 9)
        ≡ ok presigns)
    × (after.deposit_take_sigs
        ≡ [] ++ map (λ (s : DepositPresigns). s.operator_claim_sign) presigns ∷ [])
    × (after.disk ≡ inl content)
    × ((i idx : ℕ) (presign : DepositPresigns)
        → i < num_rounds
        → get_elem? presigns idx ≡ some presign
        → Signed operator (inl content) accepted (get_deposit_index start) i idx presign)
new_deposit_sound_example = new_deposit_sound operator utxo (sk_of 8) (sk_of 9) start accepted-ok

-- The parts of a deposit.
abbrev presigns : List DepositPresigns
presigns =
    result_or (collect_presigns operator 100 utxo (sk_of 8) (get_deposit_index start) (sk_of 9)) []

abbrev sent : World
sent = (send_move_tx operator utxo (sk_of 8) (sk_of 9) presigns start).1

honest : HonestVerifier operator (inl content) 0 verifier (inl content)
honest = record {
  key = refl;
  same_keys = refl;
  same_operator = refl;
  same_claims = λ move_utxo index i. refl;
}

honest_all :
    (idx : ℕ) (v : Verifier × memory.Disk)
    → get_elem? ((verifier, inl content) ∷ []) idx ≡ some v
    → HonestVerifier operator (inl content) idx v.0 v.1
honest_all zero v h =
    subst (λ (x : Verifier × memory.Disk). HonestVerifier operator (inl content) 0 x.0 x.1)
      (some-eq h) honest
honest_all (suc idx) v h = absurd (none-ne h)
  where
    none-ne : {v : Verifier × memory.Disk} → none ≡ some v → ⊥
    none-ne h = cc

answers : AnswersTxid
answers tx witnesses node txid h = some-eq (sym h)

index_small : get_deposit_index start < 2 ^ 32
unfolding get_deposit_index
index_small = omega arith

checked-ok :
    check_deposit_utxo start.node operator.verifiers_pks utxo (sk_of 8) (sk_of 9) bridge_amount_sats
    ≡ ok tt
unfolding check_deposit_utxo confirmation_blocks get_raw_transaction_info generate_deposit_address
    finish check_utxo_address_and_amount get_raw_transaction txout_eq bytes_eq is_utxo_spent
checked-ok = refl

presigns-ok :
    collect_presigns operator start.node utxo (sk_of 8) (get_deposit_index start) (sk_of 9)
    ≡ ok presigns
unfolding check_deposit_utxo confirmation_blocks get_raw_transaction_info generate_deposit_address
    finish check_utxo_address_and_amount get_raw_transaction txout_eq bytes_eq is_utxo_spent
    collect_presigns collect_map give_presigns create_move_tx bridge_value
    sign_taproot_script_spend_tx_new sign claim_signatures get_deposit_index
    create_operator_claim_tx create_connector_tree_node_address create_taproot_address
    taproot_builder add_leaves leaf_depth log2_within claim_value amount_mul amount_add amount_sub
    create_operator_claim_tx_prevouts claim_tx query get_connector_tree_utxo get_connector_tree_hash
    Database.◌>>=◌ read content_of empty_content from_outcome generate_bridge_address
    anyone_can_spend_txout op_return_txout dust_txout
presigns-ok = refl

sent-ok : send_move_tx operator utxo (sk_of 8) (sk_of 9) presigns start ≡ (ok accepted, sent)
unfolding double_sha256_hash send_move_tx Binds.◌>>=◌ create_move_tx generate_bridge_address
    generate_deposit_address finish bridge_value amount_sub anyone_can_spend_txout op_return_txout
    dust_txout sign_taproot_script_spend_tx_new sign reverse handle_taproot_witness_new rpc
    send_raw_transaction call
sent-ok = refl

new_deposit_complete_example :
    new_deposit operator utxo (sk_of 8) (sk_of 9) start ≡ (ok accepted, with_sigs sent presigns)
new_deposit_complete_example =
    new_deposit_complete operator (verifier, inl content) [] utxo (sk_of 8) (sk_of 9) start sent
      presigns accepted answers refl honest_all index_small checked-ok presigns-ok sent-ok
