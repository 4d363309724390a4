-- ===== src/Builder/Shape.antt =====
-- The shape of the binary tree of unspent outputs that `create_connector_binary_tree` makes.
use clementine_citeria.Common.{
  ℕ, zero, suc, ◌+◌, ◌*◌, ◌%◌, ◌^◌, ◌<◌, ◌≤◌, ◌≡◌, refl, List, [], ◌∷◌, true, length, arith, ltb,
  lt→ltb, get_or, get_elem?-lt_length,
}
use clementine_citeria.Common.Bytes.{Bytes}
use native.Mathlib.Nat.{pow-suc}
use clementine_citeria.Hash.{Crypto}
use clementine_citeria.Bitcoin.{Transaction, BitcoinCrate}
use clementine_citeria.Merkle.Levels.{empty_data}
use clementine_citeria.Constants.{dust_value, min_relay_fee}
use clementine_citeria.Database.{OutPoint}
use clementine_citeria.Errors.{ok}
use clementine_citeria.Script.{ScriptCrate}
use clementine_citeria.Builder.{
  TaprootCrate, amount_add, amount_mul, calculate_amount, create_connector_tree_node_address,
  create_btc_tx, create_tx_ins_with_sequence, create_tx_outs,
}
use clementine_citeria.Common.Powers.{pow_mono}
use clementine_citeria.Builder.Connector.{
  create_connector_tree_tx, utxo_level, utxo_levels, create_connector_binary_tree,
}
use clementine_citeria.Operator.Trees.{Doubling, Doubling-level}

calculate_amount-total :
    (d : ℕ) → d < 50 → calculate_amount d dust_value min_relay_fee ≡ ok (1500 * 2 ^ d)
unfolding calculate_amount amount_add amount_mul
calculate_amount-total d h =
    let low : d % 2 ^ 32 ≡ d = omega arith in
    let top = pow_mono d 50 h in
    let small : 2 ^ d % 2 ^ 64 ≡ 2 ^ d = omega (arith, top) in
    let fits : ltb (1500 * 2 ^ d) (2 ^ 64) ≡ true = lt→ltb _ _ (omega (arith, top)) in
    rw (low, small, fits) refl

create_connector_tree_tx-total :
    (utxo : OutPoint) (d : ℕ) (first second : Bytes)
    → d < 50
    → (tx : Transaction) × (create_connector_tree_tx utxo d first second ≡ ok tx)
unfolding create_connector_tree_tx
create_connector_tree_tx-total utxo d first second h = (
  create_btc_tx (create_tx_ins_with_sequence (utxo ∷ []))
      (create_tx_outs ((1500 * 2 ^ d, first) ∷ (1500 * 2 ^ d, second) ∷ [])),
  rw (calculate_amount-total d h) refl,
)

module _ ⦃c : Crypto⦄ ⦃b : BitcoinCrate⦄ ⦃k : ScriptCrate⦄ ⦃t : TaprootCrate⦄ where
  -- The taproot builder takes the two scripts of every node.
  abbrev pub Accepts : Bytes → Type 0
  Accepts pk =
      (hash : Bytes)
      → (a : Bytes × t.TaprootSpendInfo) × (create_connector_tree_node_address pk hash ≡ ok a)

  -- The outputs `0` and `1` of the transactions that split the outputs above, each into two of
  -- the depth `d`.
  abbrev pub Splits : ℕ → List OutPoint → List OutPoint → Type 0
  Splits d [] [] = Unit {0}
  Splits d [] (x ∷ xs) = ⊥
  Splits d (u ∷ us) [] = ⊥
  Splits d (u ∷ us) (x ∷ []) = ⊥
  Splits d (u ∷ us) (x ∷ y ∷ rest) =
      (first : Bytes) × (second : Bytes) × (tx : Transaction) × (create_connector_tree_tx u d first
          second
        ≡ ok tx)
      × (x ≡ (b.txid tx, 0))
      × (y ≡ (b.txid tx, 1))
      × Splits d us rest

  -- From the outputs of a level: the levels below, down to the depth 0.
  abbrev pub SplitDown : ℕ → List OutPoint → List (List OutPoint) → Type 0
  SplitDown zero us levels = levels ≡ []
  SplitDown (suc d) us [] = ⊥
  SplitDown (suc d) us (level ∷ levels) =
      (length level ≡ 2 * length us) × Splits d us level × SplitDown d level levels

  utxo_level-Splits :
      (pk : Bytes) (hashes : List Bytes) (d j : ℕ) (us : List OutPoint)
      → Accepts pk
      → d < 50
      → 2 * (j + length us) ≤ length hashes
      → (level : List OutPoint) × (utxo_level pk hashes d j us ≡ ok level)
        × (length level ≡ 2 * length us)
        × Splits d us level
  unfolding utxo_level
  utxo_level-Splits pk hashes d j [] acc h small = ([], refl, refl, tt)
  utxo_level-Splits pk hashes d j (u ∷ us) acc h small =
      let e1 = get_elem?-lt_length hashes (2 * j) empty_data (omega arith) in
      let e2 = get_elem?-lt_length hashes (2 * j + 1) empty_data (omega arith) in
      let (a1, ea1) = acc (get_or hashes (2 * j) empty_data) in
      let (a2, ea2) = acc (get_or hashes (2 * j + 1) empty_data) in
      let (tx, et) = create_connector_tree_tx-total u d a1.0 a2.0 h in
      let (rest, er, len, split) = utxo_level-Splits pk hashes d (suc j) us acc h (omega arith) in
      (
        (b.txid tx, 0) ∷ (b.txid tx, 1) ∷ rest,
        rw (e1, ea1, e2, ea2, et, er) refl,
        omega (arith, len),
        (a1.0, a2.0, tx, et, refl, refl, split),
      )

  utxo_levels-SplitDown :
      (n i : ℕ) (pk : Bytes) (hashes : List (List Bytes)) (us : List OutPoint)
      → Accepts pk
      → n < 50
      → Doubling 0 hashes
      → length hashes ≡ i + n + 1
      → length us ≡ 2 ^ i
      → (levels : List (List OutPoint)) × (utxo_levels n i pk hashes us ≡ ok levels)
        × SplitDown n us levels
  unfolding utxo_levels
  utxo_levels-SplitDown zero i pk hashes us acc h dbl len size = ([], refl, refl)
  utxo_levels-SplitDown (suc n) i pk hashes us acc h dbl len size =
      let (hs, e, wide) = Doubling-level 0 (i + 1) hashes dbl (omega arith) in
      let next : 0 + (i + 1) ≡ suc i = omega arith in
      let wide' = rw (next, pow-suc 2 i) at wide in
      let (level, el, two, split) =
        utxo_level-Splits pk hs n 0 us acc (omega arith) (omega (arith, wide', size)) in
      let (levels, er, down) =
        utxo_levels-SplitDown n (suc i) pk hashes level acc (omega arith) dbl (omega arith)
          (rw (pow-suc 2 i) (omega (arith, two, size))) in
      (level ∷ levels, rw (e, el, er) refl, (two, split, down))

  -- For the hashes of a connector tree, the binary tree of outputs is made without a panic: its top
  -- is the root, and each level has the two outputs of the transactions that split the level above.
  pub create_connector_binary_tree-SplitDown :
      (pk : Bytes) (root_utxo : OutPoint) (depth : ℕ) (hashes : List (List Bytes))
      → Accepts pk
      → depth < 50
      → Doubling 0 hashes
      → length hashes ≡ depth + 1
      → (levels : List (List OutPoint)) × (create_connector_binary_tree pk root_utxo depth hashes
          ≡ ok ((root_utxo ∷ []) ∷ levels))
        × SplitDown depth (root_utxo ∷ []) levels
  unfolding create_connector_binary_tree
  create_connector_binary_tree-SplitDown pk root_utxo depth hashes acc h dbl len =
      let (hs, e, one) = Doubling-level 0 0 hashes dbl (omega arith) in
      let e0 = get_elem?-lt_length hs 0 empty_data (omega (arith, one)) in
      let (a, ea) = acc (get_or hs 0 empty_data) in
      let (levels, el, down) =
        utxo_levels-SplitDown depth 0 pk hashes (root_utxo ∷ []) acc h dbl (omega arith) refl in
      (levels, rw (calculate_amount-total depth h, e, e0, ea, el) refl, down)
