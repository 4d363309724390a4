-- ===== src/Builder/Amounts.antt =====
-- The amounts of the transactions of core/src/transaction_builder.rs, one against the other.
use clementine_citeria.Common.{
  ℕ, suc, ◌+◌, ◌-◌, ◌<◌, ◌≡◌, ◌≢◌, ap, sym, ◌∙◌, List, [], ◌∷◌, some, arith, get_elem?, length,
}
use clementine_citeria.Common.Bytes.{Bytes}
use clementine_citeria.Hash.{Crypto}
use clementine_citeria.Bitcoin.{TxOut, Transaction, BitcoinCrate}
use clementine_citeria.Constants.{dust_value, min_relay_fee}
use clementine_citeria.Circuit.Constants.{bridge_amount_sats}
use clementine_citeria.Database.{OutPoint}
use clementine_citeria.Errors.{ok, unwrap}
use clementine_citeria.Errors.Binds.{result-inv, ok-eq}
use clementine_citeria.Script.{ScriptCrate, op_return_txout, anyone_can_spend_txout}
use clementine_citeria.Builder.{
  TaprootCrate, amount_sub, calculate_amount, create_btc_tx, create_tx_outs,
  generate_bridge_address, generate_deposit_address, create_connector_tree_node_address,
  create_connector_tree_source_address,
}
use clementine_citeria.Builder.Transactions.{
  CreateTxOutputs, bridge_value, claim_value, create_move_tx, create_operator_claim_tx,
  create_operator_claim_tx_prevouts,
}
use clementine_citeria.Builder.Connector.{create_connector_tree_tx, source_tx}
use clementine_citeria.Builder.Calculated.{amount_sub-inv, calculate_amount-double}

module _ ⦃k : ScriptCrate⦄ where
  bridge_value-inv :
      (evm_address : Bytes) {v : ℕ}
      → bridge_value evm_address ≡ ok v
      → bridge_amount_sats
        ≡ min_relay_fee + (anyone_can_spend_txout.value + ((op_return_txout evm_address).value + v))
  unfolding bridge_value
  bridge_value-inv evm_address h =
      let (v1, e1, h1) = result-inv (amount_sub bridge_amount_sats min_relay_fee) _ h in
      let (v2, e2, h2) = result-inv (amount_sub v1 anyone_can_spend_txout.value) _ h1 in
      amount_sub-inv _ _ e1
      ∙ ap (λ t. min_relay_fee + t)
          (amount_sub-inv _ _ e2
            ∙ ap (λ t. anyone_can_spend_txout.value + t) (amount_sub-inv _ _ h2))

  prevouts-inv :
      (bridge_address leaf_address : Bytes) {outs : List TxOut}
      → create_operator_claim_tx_prevouts bridge_address leaf_address ≡ ok outs
      → (v : ℕ) × (bridge_amount_sats ≡ min_relay_fee + (anyone_can_spend_txout.value + v))
        × (outs
            ≡ record { value = v; script_pubkey = bridge_address }
              ∷ record { value = dust_value; script_pubkey = leaf_address }
              ∷ [])
  unfolding create_operator_claim_tx_prevouts
  prevouts-inv bridge_address leaf_address h =
      let (v1, e1, h1) = result-inv (amount_sub bridge_amount_sats min_relay_fee) _ h in
      let (v2, e2, h2) = result-inv (amount_sub v1 anyone_can_spend_txout.value) _ h1 in
      (
        v2,
        amount_sub-inv _ _ e1 ∙ ap (λ t. min_relay_fee + t) (amount_sub-inv _ _ e2),
        sym (ok-eq h2),
      )

  module _ ⦃t : TaprootCrate⦄ where
    move_output :
        (pks : List Bytes) (deposit : OutPoint) (evm return_address : Bytes) {m : CreateTxOutputs}
        → create_move_tx pks deposit evm return_address ≡ ok m
        → (address : Bytes) × (info : t.TaprootSpendInfo) × (v : ℕ) × (generate_bridge_address pks
            ≡ ok (address, info))
          × (bridge_value evm ≡ ok v)
          × (get_elem? m.tx.output 0 ≡ some (record { value = v; script_pubkey = address }))
    unfolding create_move_tx create_btc_tx
    move_output pks deposit evm return_address h =
        let (bridge, e1, h1) = result-inv (generate_bridge_address pks) _ h in
        let (own, e2, h2) = result-inv (generate_deposit_address pks return_address evm) _ h1 in
        let (v, e3, h3) = result-inv (bridge_value evm) _ h2 in
        (
          bridge.0,
          bridge.1,
          v,
          e1,
          e3,
          ap (λ (m : CreateTxOutputs). get_elem? m.tx.output 0) (sym (ok-eq h3)),
        )

    claim_prevouts :
        (pks : List Bytes) (bridge_utxo connector_utxo : OutPoint) (address xonly hash : Bytes)
        {m : CreateTxOutputs}
        → create_operator_claim_tx pks bridge_utxo connector_utxo address xonly hash ≡ ok m
        → (bridge : Bytes) × (info : t.TaprootSpendInfo) × (leaf : Bytes) × (generate_bridge_address
              pks
            ≡ ok (bridge, info))
          × (create_operator_claim_tx_prevouts bridge leaf ≡ ok m.prevouts)
    unfolding create_operator_claim_tx
    claim_prevouts pks bridge_utxo connector_utxo address xonly hash h =
        let (leaf, e1, h1) = result-inv (create_connector_tree_node_address xonly hash) _ h in
        let (bridge, e2, h2) = result-inv (generate_bridge_address pks) _ h1 in
        let (v, e3, h3) = result-inv claim_value _ h2 in
        let (outs, e4, h4) = result-inv (create_operator_claim_tx_prevouts bridge.0 leaf.0) _ h3 in
        (
          bridge.0,
          bridge.1,
          leaf.0,
          e2,
          e4 ∙ ap (λ (m : CreateTxOutputs). ok m.prevouts) (ok-eq h4),
        )

    -- The output that a claim is signed to spend has the script of the move transaction's bridge
    -- output, but its value is larger by that of the output with the EVM address, which is not
    -- zero: the claim is signed for an output that is not there.
    pub claim_prevout-move_output :
        (pks : List Bytes) (deposit : OutPoint) (evm return_address : Bytes)
        (bridge_utxo connector_utxo : OutPoint) (address xonly hash : Bytes) {m n : CreateTxOutputs}
        → create_move_tx pks deposit evm return_address ≡ ok m
        → create_operator_claim_tx pks bridge_utxo connector_utxo address xonly hash ≡ ok n
        → 0 < (op_return_txout evm).value
        → (output prevout : TxOut) × (get_elem? m.tx.output 0 ≡ some output)
          × (get_elem? n.prevouts 0 ≡ some prevout)
          × (prevout.script_pubkey ≡ output.script_pubkey)
          × (prevout.value ≡ output.value + (op_return_txout evm).value)
          × (prevout.value ≢ output.value)
    claim_prevout-move_output pks deposit evm return_address bridge_utxo connector_utxo address
          xonly hash hm hn pos =
        let (a, info, v, e1, ev, eo) = move_output pks deposit evm return_address hm in
        let (a', info', leaf, e2, ep) =
          claim_prevouts pks bridge_utxo connector_utxo address xonly hash hn in
        let (u, eu, eouts) = prevouts-inv a' leaf ep in
        let more : u ≡ v + (op_return_txout evm).value =
          omega (arith, eu, bridge_value-inv evm ev) in
        let same : a' ≡ a = ap (λ p. p.0) (ok-eq (sym e2 ∙ e1)) in
        (
          record { value = v; script_pubkey = a },
          record { value = u; script_pubkey = a' },
          eo,
          ap (λ outs. get_elem? outs 0) eouts,
          same,
          more,
          λ e. absurd (omega arith),
        )

connector_outputs :
    (utxo : OutPoint) (depth : ℕ) (first second : Bytes) {tx : Transaction}
    → create_connector_tree_tx utxo depth first second ≡ ok tx
    → (v : ℕ) × (calculate_amount depth dust_value min_relay_fee ≡ ok v)
      × (tx.output
          ≡ record { value = v; script_pubkey = first }
            ∷ record { value = v; script_pubkey = second }
            ∷ [])
unfolding create_connector_tree_tx create_tx_outs create_btc_tx
connector_outputs utxo depth first second h =
    let (v, e1, h1) = result-inv (calculate_amount depth dust_value min_relay_fee) _ h in
    let (w, e2, h2) = result-inv (calculate_amount depth dust_value min_relay_fee) _ h1 in
    let same : w ≡ v = ok-eq (sym e2 ∙ e1) in
    (
      v,
      e1,
      sym (ap (λ (t : Transaction). t.output) (ok-eq h2))
          ∙ ap
              (λ (x : ℕ).
                record { value = v; script_pubkey = first }
                ∷ record { value = x; script_pubkey = second }
                ∷ [])
              same,
    )

module _ ⦃c : Crypto⦄ ⦃b : BitcoinCrate⦄ ⦃k : ScriptCrate⦄ ⦃t : TaprootCrate⦄ where
  source_outputs :
      (pks : List Bytes) (single : ℕ) (utxo : OutPoint) (cur take_after : ℕ)
      (hashes : List (List Bytes)) {tx : Transaction}
      → source_tx pks single utxo cur take_after hashes ≡ ok tx
      → (next : Bytes) × (root : Bytes) × (u : ℕ) × (v : ℕ) × (cur ≡ single + u)
        × (single ≡ min_relay_fee + v)
        × (tx.output
            ≡ record { value = u; script_pubkey = next }
              ∷ record { value = v; script_pubkey = root }
              ∷ [])
  unfolding source_tx create_tx_outs create_btc_tx
  source_outputs pks single utxo cur take_after hashes h =
      let (next, e1, h1) = result-inv (create_connector_tree_source_address pks take_after) _ h in
      let (operator_pk, e2, h2) = result-inv (unwrap (get_elem? pks (length pks - 1))) _ h1 in
      let (level, e3, h3) = result-inv (unwrap (get_elem? hashes 0)) _ h2 in
      let (hash, e4, h4) = result-inv (unwrap (get_elem? level 0)) _ h3 in
      let (root, e5, h5) = result-inv (create_connector_tree_node_address operator_pk hash) _ h4 in
      let (u, e6, h6) = result-inv (amount_sub cur single) _ h5 in
      let (v, e7, h7) = result-inv (amount_sub single min_relay_fee) _ h6 in
      (
        next.0,
        root.0,
        u,
        v,
        amount_sub-inv _ _ e6,
        amount_sub-inv _ _ e7,
        sym (ap (λ (t : Transaction). t.output) (ok-eq h7)),
      )

  -- The transaction that splits the root of a connector tree pays out more than the root holds, by
  -- the relay fee: the source transaction keeps the fee back from the amount of the tree, and the
  -- two halves add up to the whole amount.
  pub root_split-overspends :
      (pks : List Bytes) (single : ℕ) (utxo : OutPoint) (cur take_after : ℕ)
      (hashes : List (List Bytes)) (root_utxo : OutPoint) (depth : ℕ) (first second : Bytes)
      {source split : Transaction}
      → suc depth < 64
      → calculate_amount (suc depth) dust_value min_relay_fee ≡ ok single
      → source_tx pks single utxo cur take_after hashes ≡ ok source
      → create_connector_tree_tx root_utxo depth first second ≡ ok split
      → (r : TxOut) × (x : TxOut) × (y : TxOut) × (get_elem? source.output 1 ≡ some r)
        × (split.output ≡ x ∷ y ∷ [])
        × (x.value + y.value ≡ r.value + min_relay_fee)
  root_split-overspends pks single utxo cur take_after hashes root_utxo depth first second small es
        hs hx =
      let (next, root, u, v, eu, ev, outs) =
        source_outputs pks single utxo cur take_after hashes hs in
      let (w, ew, outs') = connector_outputs root_utxo depth first second hx in
      let twice = calculate_amount-double depth dust_value min_relay_fee small es ew in
      (
        record { value = v; script_pubkey = root },
        record { value = w; script_pubkey = first },
        record { value = w; script_pubkey = second },
        ap (λ outs. get_elem? outs 1) outs,
        outs',
        omega (arith, twice, ev),
      )

  -- Below the root, the transaction that splits a node pays out all that the node holds, and no fee.
  pub node_split-no_fee :
      (above below : OutPoint) (depth : ℕ) (a1 a2 b1 b2 : Bytes) {parent child : Transaction}
      → suc depth < 64
      → create_connector_tree_tx above (suc depth) a1 a2 ≡ ok parent
      → create_connector_tree_tx below depth b1 b2 ≡ ok child
      → (o : TxOut) × (x : TxOut) × (y : TxOut) × (o' : TxOut) × (parent.output ≡ o ∷ o' ∷ [])
        × (child.output ≡ x ∷ y ∷ [])
        × (x.value + y.value ≡ o.value)
        × (x.value + y.value ≡ o'.value)
  node_split-no_fee above below depth a1 a2 b1 b2 small hp hc =
      let (v, ev, outs) = connector_outputs above (suc depth) a1 a2 hp in
      let (w, ew, outs') = connector_outputs below depth b1 b2 hc in
      let twice = calculate_amount-double depth dust_value min_relay_fee small ev ew in
      (
        record { value = v; script_pubkey = a1 },
        record { value = w; script_pubkey = b1 },
        record { value = w; script_pubkey = b2 },
        record { value = v; script_pubkey = a2 },
        outs,
        outs',
        sym twice,
        sym twice,
      )
