-- ===== src/Claim/Root.antt =====
-- The root of the claim proof tree, against the trees of Merkle/Levels.antt.
use clementine_citeria.Common.{
  ℕ, zero, suc, ◌+◌, ◌*◌, ◌^◌, ◌<◌, ◌≡◌, refl, ap, sym, ◌∙◌, List, [], ◌∷◌, some, some-eq,
  >>=-eq-some, arith, length, get_elem?, get_or, drop,
}
use clementine_citeria.Common.Bytes.{Bytes}
use clementine_citeria.Hash.{Crypto}
use clementine_citeria.Merkle.Levels.{zeroes, pair_up, level_up, node, get_or-level_up}
use clementine_citeria.Claim.Cover.{pow2_u32-fits}
use clementine_citeria.Claim.{
  get_claim_proof_tree_leaf, claim_leaves, level_hashes, hash_levels, calculate_claim_proof_root,
}
use native.Mathlib.Nat.{pow-suc}

get_elem?-drop :
    {A : Type 0} (xs : List A) (k : ℕ) (a : A) (r : List A)
    → drop k xs ≡ a ∷ r
    → (get_elem? xs k ≡ some a) × (drop (suc k) xs ≡ r)
get_elem?-drop [] zero a r h = absurd (nil-ne h)
  where
    nil-ne : {A : Type 0} {a : A} {r : List A} → [] ≡ a ∷ r → ⊥
    nil-ne h = cc
get_elem?-drop [] (suc k) a r h = absurd (nil-ne h)
  where
    nil-ne : {A : Type 0} {a : A} {r : List A} → [] ≡ a ∷ r → ⊥
    nil-ne h = cc
get_elem?-drop (x ∷ xs) zero a r h = (cc, cc)
get_elem?-drop (x ∷ xs) (suc k) a r h = get_elem?-drop xs k a r h

module _ ⦃c : Crypto⦄ where
  -- A round of the loop pairs the hashes up.
  level_hashes-pair_up :
      (n i : ℕ) (hashes rest : List Bytes) (z : Bytes)
      → drop (i * 2) hashes ≡ rest
      → length rest ≡ 2 * n
      → level_hashes n i hashes ≡ some (pair_up z rest)
  unfolding level_hashes pair_up
  level_hashes-pair_up zero i hashes [] z h len = refl
  level_hashes-pair_up zero i hashes (a ∷ rest) z h len = absurd (omega arith)
  level_hashes-pair_up (suc n) i hashes [] z h len = absurd (omega arith)
  level_hashes-pair_up (suc n) i hashes (a ∷ []) z h len = absurd (omega arith)
  level_hashes-pair_up (suc n) i hashes (a ∷ b ∷ rest) z h len =
      let (left, h') = get_elem?-drop hashes (i * 2) a (b ∷ rest) h in
      let (right, h'') = get_elem?-drop hashes (suc (i * 2)) b rest h' in
      let e : i * 2 + 1 ≡ suc (i * 2) = omega arith in
      let e' : suc (suc (i * 2)) ≡ suc i * 2 = omega arith in
      rw (left, e, right, level_hashes-pair_up n (suc i) hashes rest z (rw e' at h'') (omega arith))

  length-pair_up_even :
      (z : Bytes) (n : ℕ) (xs : List Bytes) → length xs ≡ 2 * n → length (pair_up z xs) ≡ n
  unfolding pair_up
  length-pair_up_even z zero [] h = refl
  length-pair_up_even z zero (a ∷ xs) h = absurd (omega arith)
  length-pair_up_even z (suc n) [] h = absurd (omega arith)
  length-pair_up_even z (suc n) (a ∷ []) h = absurd (omega arith)
  length-pair_up_even z (suc n) (a ∷ b ∷ xs) h = ap suc (length-pair_up_even z n xs (omega arith))

  hash_levels-level_up :
      (n i : ℕ) (hashes : List Bytes)
      → 2 ^ n < 2 ^ 32
      → length hashes ≡ 2 ^ n
      → (hash_levels n hashes ≡ some (level_up n i hashes)) × (length (level_up n i hashes) ≡ 1)
  unfolding hash_levels level_up
  hash_levels-level_up zero i hashes wide len = (refl, omega (arith, len))
  hash_levels-level_up (suc n) i hashes wide len =
      let below : 2 ^ n < 2 ^ 32 = omega (arith, pow-suc 2 n) in
      let twice : length hashes ≡ 2 * 2 ^ n = omega (arith, len, pow-suc 2 n) in
      let round = level_hashes-pair_up (2 ^ n) 0 hashes hashes (zeroes i) refl twice in
      let (e, one) =
        hash_levels-level_up n (suc i) (pair_up (zeroes i) hashes) below
          (length-pair_up_even (zeroes i) (2 ^ n) hashes twice) in
      (rw (pow2_u32-fits n below, round, e) refl, one)

  length-claim_leaves :
      (n i depth : ℕ) (tree : List (List Bytes)) (leaves : List Bytes)
      → claim_leaves n i depth tree ≡ some leaves
      → length leaves ≡ n
  unfolding claim_leaves
  length-claim_leaves zero i depth tree leaves h = ap length (sym (some-eq h))
  length-claim_leaves (suc n) i depth tree leaves h =
      let (leaf, e, h') = >>=-eq-some (get_claim_proof_tree_leaf depth i tree) _ h in
      let (rest, e', h'') = >>=-eq-some (claim_leaves n (suc i) depth tree) _ h' in
      ap length (sym (some-eq h'')) ∙ ap suc (length-claim_leaves n (suc i) depth tree rest e')

  -- Where every leaf can be computed, the claim proof root is the root of the full binary tree over
  -- the leaves.
  pub calculate_claim_proof_root-node :
      (depth : ℕ) (tree : List (List Bytes)) (leaves : List Bytes)
      → 2 ^ depth < 2 ^ 32
      → claim_leaves (2 ^ depth) 0 depth tree ≡ some leaves
      → calculate_claim_proof_root depth tree ≡ some (node depth 0 0 leaves)
  unfolding calculate_claim_proof_root
  calculate_claim_proof_root-node depth tree leaves wide h =
      let (e, one) =
        hash_levels-level_up depth 0 leaves wide
          (length-claim_leaves (2 ^ depth) 0 depth tree leaves h) in
      rw (pow2_u32-fits depth wide, h, e)
        (first (level_up depth 0 leaves) (zeroes (depth + 0)) one
          ∙ ap some (get_or-level_up depth 0 0 leaves))
    where
      first : (xs : List Bytes) (d : Bytes) → length xs ≡ 1 → get_elem? xs 0 ≡ some (get_or xs 0 d)
      first [] d h = absurd (omega arith)
      first (x ∷ xs) d h = refl
