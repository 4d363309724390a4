-- ===== src/Merkle/Tree/Snapshot.antt =====
-- `MerkleTree::to_incremental_tree` against the incremental tree that has been given the same leaves.
use clementine_citeria.Common.{
  ℕ, zero, suc, ◌+◌, ◌-◌, ◌*◌, ◌/◌, ◌%◌, ◌≤◌, ◌<◌, ◌^◌, ◌≡◌, refl, inl, inr, List, [], ◌∷◌, ◌++◌,
  arith, length, length-append, get_or, get_elem?, get_elem?-lt_length, ◌==◌, if◌then◌else◌, ap,
  ◌∙◌, some, Bool-cases, get_or-ge_length,
}
use clementine_citeria.Common.Bytes.{Bytes}
use clementine_citeria.Hash.{Crypto, hash_pair}
use clementine_citeria.Merkle.Levels.{
  zeroes, pair_up, level_up, get_or-level_up, get_or-pair_up, length-pair_up,
}
use clementine_citeria.Merkle.Incremental
use clementine_citeria.Merkle.Incremental.{
  IncrementalMerkleTree, above, above-eq-zero, Filled, Filled-add, add-Holds,
}
use clementine_citeria.Merkle.Tree.{MerkleTree, siblings, snapshot_levels, to_incremental_tree}
use clementine_citeria.Merkle.Tree.Build.{stack, Built}

module _ ⦃c : Crypto⦄ where
  -- The levels `xs` and `ys` agree left of the position `p`.
  abbrev Agree : Bytes → ℕ → List Bytes → List Bytes → Type 0
  Agree z p xs ys = (q : ℕ) → q < p → get_or xs q z ≡ get_or ys q z

  Agree-pair_up :
      (i p : ℕ) (xs ys : List Bytes)
      → Agree (zeroes i) p xs ys
      → Agree (zeroes (suc i)) (p / 2) (pair_up (zeroes i) xs) (pair_up (zeroes i) ys)
  unfolding zeroes
  Agree-pair_up i p xs ys h q small = rw (
    get_or-pair_up (zeroes i) xs q,
    get_or-pair_up (zeroes i) ys q,
    h (2 * q) (omega arith),
    h (2 * q + 1) (omega arith),
  )

  left_sibling :
      (z : Bytes) (p : ℕ) (xs ys : List Bytes)
      → Agree z p xs ys
      → p < length xs
      → 0 < p
      → get_elem? xs (p - 1) ≡ some (get_or ys (p - 1) z)
  left_sibling z p xs ys h inside pos =
      get_elem?-lt_length xs (p - 1) z (omega arith) ∙ ap some (h (p - 1) (omega arith))

  -- One level of the loop: the entry, the pair and the hash above.
  level_step :
      (i p : ℕ) (xs ys : List Bytes)
      → Agree (zeroes i) p xs ys
      → p < length xs
      → length ys ≡ p + 1
      → ((if p % 2 == 0 then some (get_or ys p (zeroes i)) else get_elem? xs (p - 1))
          ≡ some (get_or ys (2 * (p / 2)) (zeroes i)))
        × ((l : Bytes) × (r : Bytes) × (siblings i xs p (get_or ys p (zeroes i)) ≡ some (l, r))
            × (hash_pair l r ≡ get_or (pair_up (zeroes i) ys) (p / 2) (zeroes (suc i))))
  unfolding siblings zeroes
  level_step i p xs ys h inside len = elim (Bool-cases (p % 2 == 0)) [
    | inl even ↦
        let e : 2 * (p / 2) ≡ p = ground arith in
        let outside : get_or ys (p + 1) (zeroes i) ≡ zeroes i =
          get_or-ge_length ys (p + 1) (zeroes i) (omega arith) in
        (
          rw (even, e),
          (
            get_or ys p (zeroes i),
            zeroes i,
            rw even,
            rw (get_or-pair_up (zeroes i) ys (p / 2), e, outside),
          ),
        )
    | inr odd ↦
        let e : 2 * (p / 2) ≡ p - 1 = ground arith in
        let e' : p - 1 + 1 ≡ p = ground arith in
        let left = left_sibling (zeroes i) p xs ys h inside (ground arith) in
        (
          rw (odd, e) left,
          (
            get_or ys (p - 1) (zeroes i),
            get_or ys p (zeroes i),
            rw (odd, left),
            rw (get_or-pair_up (zeroes i) ys (p / 2), e, e'),
          ),
        )
  ]

  snapshot_levels-Filled :
      (fs : List Bytes) (m i p : ℕ) (xs ys : List Bytes)
      → length fs ≤ m
      → Agree (zeroes i) p xs ys
      → p < length xs
      → length ys ≡ p + 1
      → Filled i p fs ys
      → snapshot_levels (length fs) i (stack m i xs) p (get_or ys p (zeroes i))
        ≡ some
            (fs, get_or (level_up (length fs) i ys) (above (length fs) p) (zeroes (length fs + i)))
  unfolding snapshot_levels stack level_up above
  snapshot_levels-Filled [] m i p xs ys lm h inside len filled =
      let e : 0 + i ≡ i = omega arith in rw e
  snapshot_levels-Filled (f ∷ fs) zero i p xs ys lm h inside len filled = absurd (omega arith)
  snapshot_levels-Filled (f ∷ fs) (suc m) i p xs ys lm h inside len (entry, filled) =
      let (e, (l, r, pair, hash)) = level_step i p xs ys h inside len in
      let e' : suc (length fs) + i ≡ length fs + suc i = omega arith in
      let ih =
        snapshot_levels-Filled fs m (suc i) (p / 2) (pair_up (zeroes i) xs) (pair_up (zeroes i) ys)
          (omega arith) (Agree-pair_up i p xs ys h) (omega (arith, length-pair_up (zeroes i) xs))
          (omega (arith, length-pair_up (zeroes i) ys)) filled in
      rw (e, pair, hash, ih, entry, e')

  prefix-Agree :
      (z : Bytes) (ys : List Bytes) (a : Bytes) (zs : List Bytes)
      → Agree z (length ys) (ys ++ a ∷ zs) (ys ++ a ∷ [])
  prefix-Agree z [] a zs q small = absurd (omega arith)
  prefix-Agree z (y ∷ ys) a zs zero small = refl
  prefix-Agree z (y ∷ ys) a zs (suc q) small = prefix-Agree z ys a zs q (omega arith)

  get_elem?-middle :
      (ys : List Bytes) (a : Bytes) (zs : List Bytes)
      → get_elem? (ys ++ a ∷ zs) (length ys) ≡ some a
  get_elem?-middle [] a zs = refl
  get_elem?-middle (y ∷ ys) a zs = get_elem?-middle ys a zs

  get_or-middle : (ys : List Bytes) (a d : Bytes) → get_or (ys ++ a ∷ []) (length ys) d ≡ a
  get_or-middle [] a d = refl
  get_or-middle (y ∷ ys) a d = get_or-middle ys a d

  leaves_first : (depth : ℕ) (xs : List Bytes) → get_elem? (stack (depth + 1) 0 xs) 0 ≡ some xs
  unfolding stack
  leaves_first depth xs = let e : depth + 1 ≡ suc depth = omega arith in rw e

  snapshot-add :
      (depth : ℕ) (it : IncrementalMerkleTree) (ys : List Bytes) (a : Bytes) (zs : List Bytes)
      → Incremental.Holds depth it ys
      → length ys < 2 ^ depth
      → length ys + 1 < 2 ^ 32
      → snapshot_levels depth 0 (stack (depth + 1) 0 (ys ++ a ∷ zs)) (length ys) a
        ≡ some ((Incremental.add it a).filled_subtrees, (Incremental.add it a).root)
  snapshot-add depth it ys a zs hi room wide =
      let added = add-Holds depth it ys a hi room wide in
      let e : depth + 0 ≡ depth = omega arith in
      let top = rw e at (get_or-level_up depth 0 0 (ys ++ a ∷ [])) in
      let taken =
        rw (added.levels, get_or-middle ys a (zeroes 0), above-eq-zero depth (length ys) room, e) at
          (snapshot_levels-Filled (Incremental.add it a).filled_subtrees (depth + 1) 0 (length ys)
            (ys ++ a ∷ zs) (ys ++ a ∷ []) (omega (arith, added.levels))
            (prefix-Agree (zeroes 0) ys a zs) (omega (arith, length-append {0} ys (a ∷ zs)))
            (omega (arith, length-append {0} ys (a ∷ []))) (Filled-add depth it ys a hi)) in
      taken ∙ rw (top, added.root)

  -- `to_incremental_tree(k)` is the incremental tree after the leaves 0 to `k`, but for its index:
  -- that is `k`, where the incremental tree counts `k + 1` leaves.
  pub to_incremental_tree-add :
      (depth : ℕ) (t : MerkleTree) (it : IncrementalMerkleTree) (ys : List Bytes) (a : Bytes)
      (zs : List Bytes)
      → Built depth t (ys ++ a ∷ zs)
      → Incremental.Holds depth it ys
      → length ys < 2 ^ depth
      → length ys + 1 < 2 ^ 32
      → to_incremental_tree depth t (length ys)
        ≡ some (record (Incremental.add it a) { index = length ys })
  unfolding to_incremental_tree
  to_incremental_tree-add depth t it ys a zs h hi room wide = rw (
    h.levels,
    leaves_first depth (ys ++ a ∷ zs),
    get_elem?-middle ys a zs,
    snapshot-add depth it ys a zs hi room wide,
  )
